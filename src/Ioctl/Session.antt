-- ===== src/Ioctl/Session.antt =====
-- Every request of `CyDispatchIoCtl` that touches the chip selects its own channel first.
use netmodem2irc.Base.{
  ℕ, zero, suc, ◌%◌, ◌≡◌, refl, inl, inr, Bool, true, false, ◌∷◌, Option, none, some, arith,
}
use netmodem2irc.Cd1400
use netmodem2irc.Bus.{Device, Log, wr, address, read_reg, write_reg, select_channel}
use netmodem2irc.Bus.Session.{Session, Proper, selected, again, reads, writes}
use netmodem2irc.Port.{Port, Irp, Status, LineControl, acquire, dtr_state, rts_state}
use netmodem2irc.Ioctl.Properties.{Ntddser}
use netmodem2irc.Ioctl.{Code, control, dispatch_ioctl}
use netmodem2irc.Ioctl.Baud.{BaudEntry, sync_set_baud, apply_baud, set_baud_rate, lookup_baud}
use netmodem2irc.Ioctl.Bytes.{hand_flow_of, chars_of, ulong_at, line_control_of}
use netmodem2irc.Ioctl.Line.{
  sync_set_line, apply_line, set_line_control, build_cor1, sync_set_break, set_break,
}
use netmodem2irc.Ioctl.Modem.{sync_set_modem, set_modem, sync_read_msvr, get_modem_status}
use netmodem2irc.Ioctl.Flow.{
  cor2_of, sync_set_cor2, set_handflow, sync_set_special_chars, set_chars,
}
use netmodem2irc.Ioctl.Purge.{drain, clear_rx, clear_tx, sync_purge_buffers, purge, abort}

module _ (dev : Device) where
  apply_baud-Proper :
      (rate : ℕ) (irp : Irp) (p : Port) (o : Option BaudEntry) (log : Log)
      → Proper dev p log (apply_baud dev rate irp p o log).1
  unfolding apply_baud sync_set_baud write_reg select_channel
  apply_baud-Proper rate irp p none log = inl refl
  apply_baud-Proper rate irp p (some e) log = inr (
      writes Cd1400.rbpr _ (omega arith) (
        writes Cd1400.rcor _ (omega arith) (
          writes Cd1400.tbpr _ (omega arith)
            (writes Cd1400.tcor _ (omega arith) (selected _ (omega arith))))))

  set_baud_rate-Proper :
      (n : ℕ) (irp : Irp) (p : Port) (log : Log)
      → Proper dev p log (set_baud_rate dev n irp p log).1
  unfolding set_baud_rate
  set_baud_rate-Proper n irp p log =
      let rate = ulong_at irp.buffer 0 in
      ground (arith, apply_baud-Proper rate irp p (lookup_baud p.is_60mhz rate) log)

  apply_line-Proper :
      (l : LineControl) (irp : Irp) (p : Port) (o : Option ℕ) (log : Log)
      → Proper dev p log (apply_line dev l irp p o log).1
  unfolding apply_line sync_set_line write_reg select_channel
  apply_line-Proper l irp p none log = inl refl
  apply_line-Proper l irp p (some cor1) log = inr (
      writes Cd1400.ccr _ (omega arith)
        (writes Cd1400.cor1 _ (omega arith) (selected _ (omega arith))))

  set_line_control-Proper :
      (n : ℕ) (irp : Irp) (p : Port) (log : Log)
      → Proper dev p log (set_line_control dev n irp p log).1
  unfolding set_line_control
  set_line_control-Proper n irp p log =
      let l = line_control_of irp.buffer in
      ground (arith, apply_line-Proper l irp p (build_cor1 l) log)

  set_break-Proper :
      (b : Bool) (irp : Irp) (p : Port) (log : Log) → Proper dev p log (set_break dev b irp p log).1
  unfolding set_break sync_set_break write_reg select_channel
  set_break-Proper b irp p log = inr (writes Cd1400.ccr _ (omega arith) (selected _ (omega arith)))

  set_modem-Proper :
      (flag : ℕ) (b : Bool) (irp : Irp) (p : Port) (log : Log)
      → Proper dev p log (set_modem dev flag b irp p log).1
  unfolding set_modem sync_set_modem write_reg select_channel
  set_modem-Proper flag b irp p log = inr (
      writes Cd1400.msvr2 _ (omega arith)
        (writes Cd1400.msvr1 _ (omega arith) (selected _ (omega arith))))

  sync_read_msvr-Session :
      (p : Port) (log : Log) → Session dev p.chip_base p.channel log (sync_read_msvr dev p log).1
  unfolding sync_read_msvr read_reg select_channel write_reg
  sync_read_msvr-Session p log =
      reads Cd1400.msvr2 _ (omega arith)
        (reads Cd1400.msvr1 _ (omega arith) (selected _ (omega arith)))

  get_modem_status-Proper :
      (n : ℕ) (irp : Irp) (p : Port) (log : Log)
      → Proper dev p log (get_modem_status dev n irp p log).1
  unfolding get_modem_status
  get_modem_status-Proper n irp p log = ground (arith, sync_read_msvr-Session p log)

  sync_set_cor2-Session :
      (v : ℕ) (p : Port) (log : Log)
      → Session dev p.chip_base p.channel log (sync_set_cor2 dev v p log).1
  unfolding sync_set_cor2 write_reg select_channel
  sync_set_cor2-Session v p log =
      writes Cd1400.ccr _ (omega arith)
        (writes Cd1400.cor2 _ (omega arith) (selected _ (omega arith)))

  set_handflow-Proper :
      (n : ℕ) (irp : Irp) (p : Port) (log : Log) → Proper dev p log (set_handflow dev n irp p log).1
  unfolding set_handflow
  set_handflow-Proper n irp p log =
      ground (arith, sync_set_cor2-Session (cor2_of (hand_flow_of irp.buffer)) p log)

  set_chars-Proper :
      (n : ℕ) (irp : Irp) (p : Port) (log : Log) → Proper dev p log (set_chars dev n irp p log).1
  unfolding set_chars sync_set_special_chars write_reg select_channel
  set_chars-Proper n irp p log =
      let s : Session dev p.chip_base p.channel log
          (sync_set_special_chars dev (chars_of irp.buffer) p log).1 =
        writes Cd1400.schr2 _ (omega arith)
          (writes Cd1400.schr1 _ (omega arith) (selected _ (omega arith))) in
      ground (arith, s)

  drain-Session :
      (n base chan : ℕ) (log log' : Log)
      → Session dev base chan log log'
      → Session dev base chan log (drain dev n base log').1
  unfolding drain read_reg
  drain-Session zero base chan log log' s = reads Cd1400.rdcr _ (omega arith) s
  drain-Session (suc n) base chan log log' s =
      let s1 = reads Cd1400.rdcr (read_reg dev base Cd1400.rdcr log').0 (omega arith) s in
      let ih =
        drain-Session n base chan log
          (read_reg dev base Cd1400.rdsr (read_reg dev base Cd1400.rdcr log').1).1
          (reads Cd1400.rdsr _ (omega arith) s1) in
      ground (arith, s1, ih)

  clear_rx-Session :
      (mask : ℕ) (p : Port) (log : Log) → Proper dev p log (clear_rx dev mask p log).1
  unfolding clear_rx select_channel write_reg
  clear_rx-Session mask p log = ground (
    arith,
    drain-Session 12 p.chip_base p.channel log _ (selected (p.channel % 4 % 256) (omega arith)),
  )

  reselect :
      (p : Port) {log : Log} (log' : Log)
      → Proper dev p log log'
      → Session dev p.chip_base p.channel log
          (wr (address dev p.chip_base Cd1400.car) (p.channel % 4 % 256) ∷ log')
  reselect p log' (inl e) = rw e (selected _ (omega arith))
  reselect p log' (inr s) = again _ (omega arith) s

  clear_rx_same :
      (mask : ℕ) (p : Port) (log : Log)
      → let q = (clear_rx dev mask p log).0 in (q.chip_base ≡ p.chip_base) × (q.channel ≡ p.channel)
  unfolding clear_rx
  clear_rx_same mask p log = ground arith

  clear_tx-Session :
      (mask : ℕ) (p q : Port) (log log' : Log)
      → q.chip_base ≡ p.chip_base
      → q.channel ≡ p.channel
      → Proper dev p log log'
      → Proper dev p log (clear_tx dev mask q log').1
  unfolding clear_tx select_channel write_reg
  clear_tx-Session mask p q log log' eb ec s =
      let flush : Session dev p.chip_base p.channel log (
          wr (address dev p.chip_base Cd1400.ccr) 130
          ∷ wr (address dev p.chip_base Cd1400.car) (p.channel % 4 % 256)
          ∷ log') =
        writes Cd1400.ccr 130 (omega arith) (reselect p log' s) in
      rw (eb, ec) (ground (arith, s, flush))

  purge-Proper :
      (n : ℕ) (irp : Irp) (p : Port) (log : Log) → Proper dev p log (purge dev n irp p log).1
  unfolding purge sync_purge_buffers abort
  purge-Proper n irp p log =
      let mask = ulong_at irp.buffer 0 in
      let q = (abort mask p).0 in
      let same = clear_rx_same mask q log in
      let r = clear_rx dev mask q log in
      ground
        (arith, clear_tx-Session mask p r.0 log r.1 same.0 same.1 (clear_rx-Session mask q log))

  control-Proper :
      (ser : Ntddser) (code : Code) (m n : ℕ) (irp : Irp) (p : Port) (log : Log)
      → Proper dev p log (control dev ser code m n irp p log).1
  unfolding control
  control-Proper ser code m n irp p log =
      elim code as (λ k. Proper dev p log (control dev ser k m n irp p log).1) [
        | Code.set_baud_rate_code ↦ set_baud_rate-Proper m irp p log
        | Code.set_line_control_code ↦ set_line_control-Proper m irp p log
        | Code.set_dtr ↦ set_modem-Proper dtr_state true irp p log
        | Code.clr_dtr ↦ set_modem-Proper dtr_state false irp p log
        | Code.set_rts ↦ set_modem-Proper rts_state true irp p log
        | Code.clr_rts ↦ set_modem-Proper rts_state false irp p log
        | Code.get_modemstatus ↦ get_modem_status-Proper n irp p log
        | Code.set_break_on ↦ set_break-Proper true irp p log
        | Code.set_break_off ↦ set_break-Proper false irp p log
        | Code.purge_code ↦ purge-Proper m irp p log
        | Code.set_handflow_code ↦ set_handflow-Proper m irp p log
        | Code.set_chars_code ↦ set_chars-Proper m irp p log
        | _ ↦ inl refl
      ]

  -- A device control request either touches no register, or first selects the port's channel on
  -- the port's chip and then touches only that chip, and CAR only to select that channel again;
  -- whatever the code, the lengths, the buffer and the state of the port.
  pub dispatch_ioctl-Proper :
      (ser : Ntddser) (lock : Status) (code : Code) (m n : ℕ) (irp : Irp) (p : Port) (log : Log)
      → Proper dev p log (dispatch_ioctl dev ser lock code m n irp p log).1
  unfolding dispatch_ioctl
  dispatch_ioctl-Proper ser lock code m n irp p log =
      ground (arith, control-Proper ser code m n irp (acquire p) log)
