-- ===== src/Ioctl.antt =====
-- fossil/cyclades/src/cyioctl.c: IRP_MJ_DEVICE_CONTROL.
pub mod Bytes
pub mod Properties
pub mod Switch
pub mod Baud
pub mod Line
pub mod Modem
pub mod Flow
pub mod Wait
pub mod Purge
pub mod Session
pub mod Conserve
pub mod Cor1
pub mod ModemLines
pub mod Waiting
pub mod RoundTrip
pub mod Rates
use netmodem2irc.Base.{
  ℕ, Bool, true, false, not, List, [], ◌∷◌, ◌++◌, ltb, if◌then◌else◌, length, replicate,
}
use netmodem2irc.Bus.{Device, Bus, pure, ◌>>=◌}
use netmodem2irc.Port.{
  Port, Outcome, acquire, release, Irp, Status, nt_success, finish, dtr_state, rts_state,
}
use netmodem2irc.Ioctl.Properties.{Ntddser, comm_prop}
use netmodem2irc.Ioctl.Bytes.{ulong_bytes, timeouts_of, timeouts_bytes, stats_bytes, put}
use netmodem2irc.Ioctl.Switch.{Handled, refused, accepted}
use netmodem2irc.Ioctl.Baud.{set_baud_rate, get_baud_rate}
use netmodem2irc.Ioctl.Line.{set_line_control, get_line_control, set_break}
use netmodem2irc.Ioctl.Modem.{set_modem, get_modem_status}
use netmodem2irc.Ioctl.Flow.{set_handflow, get_handflow, set_chars, get_chars}
use netmodem2irc.Ioctl.Wait.{set_wait_mask, get_wait_mask, wait_on_mask}
use netmodem2irc.Ioctl.Purge.{purge}

-- The I/O control codes of the switch, IOCTL_SERIAL_*; `unknown` is any other code.
pub data Code : Type 0 where
  set_baud_rate_code get_baud_rate_code set_line_control_code get_line_control_code : Code
  set_dtr clr_dtr set_rts clr_rts get_modemstatus : Code
  set_timeouts_code get_timeouts_code set_break_on set_break_off get_commstatus_code : Code
  purge_code set_wait_mask_code get_wait_mask_code wait_on_mask_code : Code
  set_handflow_code get_handflow_code set_chars_code get_chars_code : Code
  get_properties_code get_stats_code clear_stats_code set_queue_size_code unknown : Code

-- IOCTL_SERIAL_SET_TIMEOUTS
unfoldable pub set_timeouts : ℕ → Irp → Port → Handled
set_timeouts in_len irp p =
    if ltb in_len 20
    then refused Status.buffer_too_small irp p
    else accepted irp (record p { timeouts = timeouts_of irp.buffer })

-- IOCTL_SERIAL_GET_TIMEOUTS
unfoldable pub get_timeouts : ℕ → Irp → Port → Handled
get_timeouts out_len irp p =
    if ltb out_len 20
    then refused Status.buffer_too_small irp p
    else Handled.answered Status.success 20 (put (timeouts_bytes p.timeouts) irp) p []

-- IOCTL_SERIAL_GET_COMMSTATUS: SERIAL_STATUS is zero but for the two counts.
unfoldable pub get_commstatus : ℕ → Irp → Port → Handled
get_commstatus out_len irp p =
    if ltb out_len 20
    then refused Status.buffer_too_small irp p
    else Handled.answered Status.success 20
        (put
          (replicate 8 0 ++ (ulong_bytes p.rx.count ++ (ulong_bytes p.tx.count ++ replicate 4 0)))
          irp)
        p []

-- IOCTL_SERIAL_GET_STATS
unfoldable pub get_stats : ℕ → Irp → Port → Handled
get_stats out_len irp p =
    if ltb out_len 24
    then refused Status.buffer_too_small irp p
    else Handled.answered Status.success 24 (put (stats_bytes p.perf_stats) irp) p []

-- IOCTL_SERIAL_CLEAR_STATS
unfoldable pub clear_stats : Irp → Port → Handled
clear_stats irp p = accepted irp (record p {
  perf_stats = record {
    received = 0;
    transmitted = 0;
    frame_errors = 0;
    serial_overruns = 0;
    buffer_overruns = 0;
    parity_errors = 0;
  };
})

-- What follows the switch: the IRP is completed and the lock released, or only the latter.
unfoldable pub conclude : Handled → Outcome
conclude (Handled.answered s info irp p others) = record {
  result = s;
  port = release p;
  completed = others ++ (finish s info irp ∷ []);
}
conclude (Handled.pended p) = record { result = Status.pending; port = release p; completed = [] }

module _ (dev : Device) (ser : Ntddser) where
  -- IOCTL_SERIAL_GET_PROPERTIES
  unfoldable pub get_properties : ℕ → Irp → Port → Handled
  get_properties out_len irp p =
      if ltb out_len ser.sizeof_commprop
      then refused Status.buffer_too_small irp p
      else Handled.answered Status.success ser.sizeof_commprop
          (put (ser.bytes (comm_prop ser p)) irp) p []

  -- The switch of `CyDispatchIoCtl`: the code, InputBufferLength, OutputBufferLength.
  unfoldable pub control : Code → ℕ → ℕ → Irp → Port → Bus Handled
  control Code.set_baud_rate_code in_len out_len irp p = set_baud_rate dev in_len irp p
  control Code.get_baud_rate_code in_len out_len irp p = pure (get_baud_rate out_len irp p)
  control Code.set_line_control_code in_len out_len irp p = set_line_control dev in_len irp p
  control Code.get_line_control_code in_len out_len irp p = pure (get_line_control out_len irp p)
  control Code.set_dtr in_len out_len irp p = set_modem dev dtr_state true irp p
  control Code.clr_dtr in_len out_len irp p = set_modem dev dtr_state false irp p
  control Code.set_rts in_len out_len irp p = set_modem dev rts_state true irp p
  control Code.clr_rts in_len out_len irp p = set_modem dev rts_state false irp p
  control Code.get_modemstatus in_len out_len irp p = get_modem_status dev out_len irp p
  control Code.set_timeouts_code in_len out_len irp p = pure (set_timeouts in_len irp p)
  control Code.get_timeouts_code in_len out_len irp p = pure (get_timeouts out_len irp p)
  control Code.set_break_on in_len out_len irp p = set_break dev true irp p
  control Code.set_break_off in_len out_len irp p = set_break dev false irp p
  control Code.get_commstatus_code in_len out_len irp p = pure (get_commstatus out_len irp p)
  control Code.purge_code in_len out_len irp p = purge dev in_len irp p
  control Code.set_wait_mask_code in_len out_len irp p = pure (set_wait_mask in_len irp p)
  control Code.get_wait_mask_code in_len out_len irp p = pure (get_wait_mask out_len irp p)
  control Code.wait_on_mask_code in_len out_len irp p = pure (wait_on_mask out_len irp p)
  control Code.set_handflow_code in_len out_len irp p = set_handflow dev in_len irp p
  control Code.get_handflow_code in_len out_len irp p = pure (get_handflow out_len irp p)
  control Code.set_chars_code in_len out_len irp p = set_chars dev in_len irp p
  control Code.get_chars_code in_len out_len irp p = pure (get_chars out_len irp p)
  control Code.get_properties_code in_len out_len irp p = pure (get_properties out_len irp p)
  control Code.get_stats_code in_len out_len irp p = pure (get_stats out_len irp p)
  control Code.clear_stats_code in_len out_len irp p = pure (clear_stats irp p)
  control Code.set_queue_size_code in_len out_len irp p = pure (accepted irp p)
  control Code.unknown in_len out_len irp p = pure (refused Status.invalid_device_request irp p)

  -- `CyDispatchIoCtl`. `lock` is what IoAcquireRemoveLock returns.
  unfoldable pub dispatch_ioctl : Status → Code → ℕ → ℕ → Irp → Port → Bus Outcome
  dispatch_ioctl lock code in_len out_len irp p =
      if p.is_fdo
      then pure (record {
        result = Status.invalid_device_request;
        port = p;
        completed = finish Status.invalid_device_request 0 irp ∷ [];
      })
      else if not (nt_success lock)
      then pure (record { result = lock; port = p; completed = record irp { status = lock } ∷ [] })
      else if not p.is_open
      then pure (conclude (refused Status.invalid_device_state irp (acquire p)))
      else (do h ← control code in_len out_len irp (acquire p); pure (conclude h))
