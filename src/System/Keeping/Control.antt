-- ===== src/System/Keeping/Control.antt =====
-- A device control request keeps a port; a purge empties its rings.
use netmodem2irc.Base.{ℕ, refl, Bool, true, false, Option, none, some, arith}
use netmodem2irc.Bus.{Device, Log}
use netmodem2irc.Ring
use netmodem2irc.Port.{Port, Irp, Status, acquire, LineControl, dtr_state, rts_state}
use netmodem2irc.Port.Keeps.{Keeps, same_Keeps}
use netmodem2irc.Ioctl.Properties.{Ntddser}
use netmodem2irc.Ioctl.{
  Code, control, conclude, dispatch_ioctl, set_timeouts, get_timeouts, get_commstatus, get_stats,
  clear_stats, get_properties,
}
use netmodem2irc.Ioctl.Bytes.{ulong_at, line_control_of}
use netmodem2irc.Ioctl.Switch.{Handled, refused}
use netmodem2irc.Ioctl.Baud.{BaudEntry, apply_baud, set_baud_rate, get_baud_rate, lookup_baud}
use netmodem2irc.Ioctl.Line.{apply_line, set_line_control, get_line_control, build_cor1, set_break}
use netmodem2irc.Ioctl.Modem.{set_modem, get_modem_status}
use netmodem2irc.Ioctl.Flow.{set_handflow, get_handflow, set_chars, get_chars}
use netmodem2irc.Ioctl.Wait.{set_wait_mask, get_wait_mask, wait_on, wait_on_mask}
use netmodem2irc.Ioctl.Purge.{abort, clear_rx, clear_tx, sync_purge_buffers, purge}

abbrev KeepsAfter : Port → Handled → Type 0
KeepsAfter home (Handled.answered s info irp p others) = Keeps home p
KeepsAfter home (Handled.pended p) = Keeps home p

module _ {home : Port} (irp : Irp) (p : Port) (v : Keeps home p) where
  wait_on-Keeps : (o : Option Irp) → KeepsAfter home (wait_on o irp p)
  unfolding wait_on
  wait_on-Keeps none = ground (arith, v)
  wait_on-Keeps (some w) = ground (arith, v)

  wait_on_mask-Keeps : (k : ℕ) → KeepsAfter home (wait_on_mask k irp p)
  unfolding wait_on_mask
  wait_on_mask-Keeps k = ground (arith, v, wait_on-Keeps p.wait_irp)

  get_baud_rate-Keeps : (k : ℕ) → KeepsAfter home (get_baud_rate k irp p)
  unfolding get_baud_rate
  get_baud_rate-Keeps k = ground (arith, v)

  set_wait_mask-Keeps : (k : ℕ) → KeepsAfter home (set_wait_mask k irp p)
  unfolding set_wait_mask
  set_wait_mask-Keeps k = ground (arith, v)

  get_wait_mask-Keeps : (k : ℕ) → KeepsAfter home (get_wait_mask k irp p)
  unfolding get_wait_mask
  get_wait_mask-Keeps k = ground (arith, v)

  get_line_control-Keeps : (k : ℕ) → KeepsAfter home (get_line_control k irp p)
  unfolding get_line_control
  get_line_control-Keeps k = ground (arith, v)

  get_handflow-Keeps : (k : ℕ) → KeepsAfter home (get_handflow k irp p)
  unfolding get_handflow
  get_handflow-Keeps k = ground (arith, v)

  get_chars-Keeps : (k : ℕ) → KeepsAfter home (get_chars k irp p)
  unfolding get_chars
  get_chars-Keeps k = ground (arith, v)

  set_timeouts-Keeps : (k : ℕ) → KeepsAfter home (set_timeouts k irp p)
  unfolding set_timeouts
  set_timeouts-Keeps k = ground (arith, v)

  get_timeouts-Keeps : (k : ℕ) → KeepsAfter home (get_timeouts k irp p)
  unfolding get_timeouts
  get_timeouts-Keeps k = ground (arith, v)

  get_commstatus-Keeps : (k : ℕ) → KeepsAfter home (get_commstatus k irp p)
  unfolding get_commstatus
  get_commstatus-Keeps k = ground (arith, v)

  get_stats-Keeps : (k : ℕ) → KeepsAfter home (get_stats k irp p)
  unfolding get_stats
  get_stats-Keeps k = ground (arith, v)

  abort-Keeps : (mask : ℕ) → Keeps home (abort mask p).0
  unfolding abort
  abort-Keeps mask = same_Keeps v refl refl refl refl refl refl

module _ {home : Port} (dev : Device) (irp : Irp) (p : Port) (v : Keeps home p) (log : Log) where
  apply_baud-Keeps :
      (rate : ℕ) (o : Option BaudEntry) → KeepsAfter home (apply_baud dev rate irp p o log).0
  unfolding apply_baud
  apply_baud-Keeps rate none = ground (arith, v)
  apply_baud-Keeps rate (some e) = ground (arith, v)

  set_baud_rate-Keeps : (k : ℕ) → KeepsAfter home (set_baud_rate dev k irp p log).0
  unfolding set_baud_rate
  set_baud_rate-Keeps k =
      let rate = ulong_at irp.buffer 0 in
      ground (arith, v, apply_baud-Keeps rate (lookup_baud p.is_60mhz rate))

  apply_line-Keeps :
      (l : LineControl) (o : Option ℕ) → KeepsAfter home (apply_line dev l irp p o log).0
  unfolding apply_line
  apply_line-Keeps l none = ground (arith, v)
  apply_line-Keeps l (some c) = ground (arith, v)

  set_line_control-Keeps : (k : ℕ) → KeepsAfter home (set_line_control dev k irp p log).0
  unfolding set_line_control
  set_line_control-Keeps k =
      let l = line_control_of irp.buffer in ground (arith, v, apply_line-Keeps l (build_cor1 l))

  set_break-Keeps : (b : Bool) → KeepsAfter home (set_break dev b irp p log).0
  unfolding set_break
  set_break-Keeps b = ground (arith, v)

  set_modem-Keeps : (flag : ℕ) (b : Bool) → KeepsAfter home (set_modem dev flag b irp p log).0
  unfolding set_modem
  set_modem-Keeps flag b = ground (arith, v)

  get_modem_status-Keeps : (k : ℕ) → KeepsAfter home (get_modem_status dev k irp p log).0
  unfolding get_modem_status
  get_modem_status-Keeps k = ground (arith, v)

  set_handflow-Keeps : (k : ℕ) → KeepsAfter home (set_handflow dev k irp p log).0
  unfolding set_handflow
  set_handflow-Keeps k = ground (arith, v)

  set_chars-Keeps : (k : ℕ) → KeepsAfter home (set_chars dev k irp p log).0
  unfolding set_chars
  set_chars-Keeps k = ground (arith, v)

  sync_purge_buffers-Keeps : (mask : ℕ) → Keeps home (sync_purge_buffers dev mask p log).0
  unfolding sync_purge_buffers clear_rx clear_tx Ring.reset
  sync_purge_buffers-Keeps mask = ground (arith, v)

module _ {home : Port} (dev : Device) (irp : Irp) where
  purge-Keeps :
      (p : Port) (v : Keeps home p) (log : Log) (k : ℕ) → KeepsAfter home (purge dev k irp p log).0
  unfolding purge
  purge-Keeps p v log k =
      let mask = ulong_at irp.buffer 0 in
      let aborted = abort-Keeps irp p v mask in
      ground (arith, v, aborted, sync_purge_buffers-Keeps dev irp (abort mask p).0 aborted log mask)

  module _ (ser : Ntddser) where
    get_properties-Keeps :
        (p : Port) (v : Keeps home p) (k : ℕ) → KeepsAfter home (get_properties dev ser k irp p)
    unfolding get_properties
    get_properties-Keeps p v k = ground (arith, v)

    control-Keeps :
        (p : Port) (v : Keeps home p) (code : Code) (i o : ℕ) (log : Log)
        → KeepsAfter home (control dev ser code i o irp p log).0
    unfolding control clear_stats
    control-Keeps p v code i o log =
        elim code as (λ k. KeepsAfter home (control dev ser k i o irp p log).0) [
          | Code.set_baud_rate_code ↦ set_baud_rate-Keeps dev irp p v log i
          | Code.get_baud_rate_code ↦ get_baud_rate-Keeps irp p v o
          | Code.set_line_control_code ↦ set_line_control-Keeps dev irp p v log i
          | Code.get_line_control_code ↦ get_line_control-Keeps irp p v o
          | Code.set_dtr ↦ set_modem-Keeps dev irp p v log dtr_state true
          | Code.clr_dtr ↦ set_modem-Keeps dev irp p v log dtr_state false
          | Code.set_rts ↦ set_modem-Keeps dev irp p v log rts_state true
          | Code.clr_rts ↦ set_modem-Keeps dev irp p v log rts_state false
          | Code.get_modemstatus ↦ get_modem_status-Keeps dev irp p v log o
          | Code.set_timeouts_code ↦ set_timeouts-Keeps irp p v i
          | Code.get_timeouts_code ↦ get_timeouts-Keeps irp p v o
          | Code.set_break_on ↦ set_break-Keeps dev irp p v log true
          | Code.set_break_off ↦ set_break-Keeps dev irp p v log false
          | Code.get_commstatus_code ↦ get_commstatus-Keeps irp p v o
          | Code.purge_code ↦ purge-Keeps p v log i
          | Code.set_wait_mask_code ↦ set_wait_mask-Keeps irp p v i
          | Code.get_wait_mask_code ↦ get_wait_mask-Keeps irp p v o
          | Code.wait_on_mask_code ↦ wait_on_mask-Keeps irp p v o
          | Code.set_handflow_code ↦ set_handflow-Keeps dev irp p v log i
          | Code.get_handflow_code ↦ get_handflow-Keeps irp p v o
          | Code.set_chars_code ↦ set_chars-Keeps dev irp p v log i
          | Code.get_chars_code ↦ get_chars-Keeps irp p v o
          | Code.get_properties_code ↦ get_properties-Keeps p v o
          | Code.get_stats_code ↦ get_stats-Keeps irp p v o
          | Code.clear_stats_code ↦ same_Keeps v refl refl refl refl refl refl
          | Code.set_queue_size_code ↦ v
          | Code.unknown ↦ v
        ]

    conclude-Keeps : (h : Handled) → KeepsAfter home h → Keeps home (conclude h).port
    unfolding conclude
    conclude-Keeps (Handled.answered s info irp' q others) v =
        same_Keeps v refl refl refl refl refl refl
    conclude-Keeps (Handled.pended q) v = same_Keeps v refl refl refl refl refl refl

    pub dispatch_ioctl-Keeps :
        (lock : Status) (code : Code) (i o : ℕ) (p : Port) (log : Log)
        → Keeps home p
        → Keeps home (dispatch_ioctl dev ser lock code i o irp p log).0.port
    unfolding dispatch_ioctl
    dispatch_ioctl-Keeps lock code i o p log v =
        let q = acquire p in
        let w : Keeps home q = same_Keeps v refl refl refl refl refl refl in
        let h = (control dev ser code i o irp q log).0 in
        ground (
          arith,
          v,
          conclude-Keeps (refused Status.invalid_device_state irp q) w,
          conclude-Keeps h (control-Keeps q w code i o log),
        )
