-- ===== src/Ioctl/Conserve.antt =====
-- `CyDispatchIoCtl` completes or keeps every request once, whatever the control code.
mod Codes
use netmodem2irc.Base.{
  ℕ, ◌+◌, ◌-◌, ◌≡◌, refl, Bool, true, false, List, [], ◌∷◌, Option, none, some, arith, has_bits,
  if◌then◌else◌,
}
use netmodem2irc.Bus.{Device, Log}
use netmodem2irc.Ring.Fifo.{reset-IsValid}
use netmodem2irc.Port.{
  Port, Irp, Status, IsValid, finish, acquire, LineControl, dtr_state, rts_state, purge_txabort,
  purge_rxabort,
}
use netmodem2irc.Port.Pending.{times, waiting, times-append, times-pending, Conserves}
use netmodem2irc.Serial.{cancel_all}
use netmodem2irc.Serial.Cleanup.{times-cancel_all}
use netmodem2irc.Ioctl.Properties.{Ntddser}
use netmodem2irc.Ioctl.{
  Code, control, conclude, dispatch_ioctl, set_timeouts, get_timeouts, get_commstatus, get_stats,
  clear_stats, get_properties,
}
use netmodem2irc.Ioctl.Bytes.{ulong_at, line_control_of}
use netmodem2irc.Ioctl.Switch.{Handled, refused}
use netmodem2irc.Ioctl.Baud.{BaudEntry, apply_baud, set_baud_rate, get_baud_rate, lookup_baud}
use netmodem2irc.Ioctl.Line.{apply_line, set_line_control, get_line_control, build_cor1, set_break}
use netmodem2irc.Ioctl.Modem.{set_modem, get_modem_status}
use netmodem2irc.Ioctl.Flow.{set_handflow, get_handflow, set_chars, get_chars}
use netmodem2irc.Ioctl.Wait.{dismiss, set_wait_mask, get_wait_mask, wait_on, wait_on_mask}
use netmodem2irc.Ioctl.Purge.{abort, clear_rx, clear_tx, sync_purge_buffers, purge}
use netmodem2irc.Ioctl.Conserve.Codes.{
  Sound, clear_stats-Sound, get_baud_rate-Sound, wait_on-Sound, wait_on_mask-Sound,
  set_wait_mask-Sound, get_wait_mask-Sound, get_line_control-Sound, get_handflow-Sound,
  get_chars-Sound, set_timeouts-Sound, get_timeouts-Sound, get_commstatus-Sound, get_stats-Sound,
  apply_baud-Sound, set_baud_rate-Sound, apply_line-Sound, set_line_control-Sound, set_break-Sound,
  set_modem-Sound, get_modem_status-Sound, set_handflow-Sound, set_chars-Sound, purge-Sound,
}

module _ (dev : Device) (n : ℕ) (irp : Irp) where
  module _ (ser : Ntddser) where
    get_properties-Sound :
        (p : Port) (v : IsValid p) (k : ℕ) → Sound n irp p (get_properties dev ser k irp p)
    unfolding get_properties
    get_properties-Sound p v k = ground (arith, v)

    control-Sound :
        (p : Port) (v : IsValid p) (code : Code) (i o : ℕ) (log : Log)
        → Sound n irp p (control dev ser code i o irp p log).0
    unfolding control
    control-Sound p v code i o log =
        elim code as (λ k. Sound n irp p (control dev ser k i o irp p log).0) [
          | Code.set_baud_rate_code ↦ set_baud_rate-Sound dev n irp p v i log
          | Code.get_baud_rate_code ↦ get_baud_rate-Sound n irp p v o
          | Code.set_line_control_code ↦ set_line_control-Sound dev n irp p v i log
          | Code.get_line_control_code ↦ get_line_control-Sound n irp p v o
          | Code.set_dtr ↦ set_modem-Sound dev n irp p v dtr_state true log
          | Code.clr_dtr ↦ set_modem-Sound dev n irp p v dtr_state false log
          | Code.set_rts ↦ set_modem-Sound dev n irp p v rts_state true log
          | Code.clr_rts ↦ set_modem-Sound dev n irp p v rts_state false log
          | Code.get_modemstatus ↦ get_modem_status-Sound dev n irp p v o log
          | Code.set_timeouts_code ↦ set_timeouts-Sound n irp p v i
          | Code.get_timeouts_code ↦ get_timeouts-Sound n irp p v o
          | Code.set_break_on ↦ set_break-Sound dev n irp p v true log
          | Code.set_break_off ↦ set_break-Sound dev n irp p v false log
          | Code.get_commstatus_code ↦ get_commstatus-Sound n irp p v o
          | Code.purge_code ↦ purge-Sound dev n irp p v i log
          | Code.set_wait_mask_code ↦ set_wait_mask-Sound n irp p v i
          | Code.get_wait_mask_code ↦ get_wait_mask-Sound n irp p v o
          | Code.wait_on_mask_code ↦ wait_on_mask-Sound n irp p v o
          | Code.set_handflow_code ↦ set_handflow-Sound dev n irp p v i log
          | Code.get_handflow_code ↦ get_handflow-Sound n irp p v o
          | Code.set_chars_code ↦ set_chars-Sound dev n irp p v i log
          | Code.get_chars_code ↦ get_chars-Sound n irp p v o
          | Code.get_properties_code ↦ get_properties-Sound p v o
          | Code.get_stats_code ↦ get_stats-Sound n irp p v o
          | Code.clear_stats_code ↦ clear_stats-Sound n irp p v
          | Code.set_queue_size_code ↦ ground (arith, v)
          | Code.unknown ↦ ground (arith, v)
        ]

    conclude_lem :
        (p : Port) (h : Handled)
        → Sound n irp p h
        → let o = conclude h in
          Conserves n irp p o × (o.port.lock_count ≡ p.lock_count - 1) × IsValid o.port
    unfolding conclude
    conclude_lem p (Handled.answered s info irp' q others) snd = ground (
      arith,
      snd,
      times-pending n p,
      times-pending n q,
      times-append n others (finish s info irp' ∷ []),
    )
    conclude_lem p (Handled.pended q) snd =
        ground (arith, snd, times-pending n p, times-pending n q)

    -- A device control request, whatever its code, lengths and buffer, completes or keeps every IRP
    -- once, its own included: each id is among the completed and the waiting IRPs afterwards as
    -- often as it was among the waiting ones and the request. The remove lock is balanced and the
    -- rings stay well formed. They were well formed.
    pub dispatch_ioctl-Conserves :
        (p : Port) (v : IsValid p) (lock : Status) (code : Code) (i o : ℕ) (log : Log)
        → let r = (dispatch_ioctl dev ser lock code i o irp p log).0 in
          Conserves n irp p r × (r.port.lock_count ≡ p.lock_count) × IsValid r.port
    unfolding dispatch_ioctl
    dispatch_ioctl-Conserves p v lock code i o log =
        let q = acquire p in
        let w : IsValid q = record { rx_valid = v.rx_valid; tx_valid = v.tx_valid } in
        let h = (control dev ser code i o irp q log).0 in
        let shut : Handled = refused Status.invalid_device_state irp q in
        ground (
          arith,
          v,
          conclude_lem q shut (ground (arith, w)),
          conclude_lem q h (control-Sound q w code i o log),
          times-pending n p,
        )
