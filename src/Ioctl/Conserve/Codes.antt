-- ===== src/Ioctl/Conserve/Codes.antt =====
-- What each control code does to the requests, the lock and the rings of a port.
use netmodem2irc.Base.{
  ℕ, ◌+◌, ◌≡◌, refl, Bool, [], ◌∷◌, Option, none, some, arith, has_bits, if◌then◌else◌,
}
use netmodem2irc.Bus.{Device, Log}
use netmodem2irc.Ring.Fifo.{reset-IsValid}
use netmodem2irc.Port.{Port, Irp, IsValid, LineControl, purge_txabort, purge_rxabort}
use netmodem2irc.Port.Pending.{times, waiting, times-append}
use netmodem2irc.Serial.{cancel_all}
use netmodem2irc.Serial.Cleanup.{times-cancel_all}
use netmodem2irc.Ioctl.{set_timeouts, get_timeouts, get_commstatus, get_stats, clear_stats}
use netmodem2irc.Ioctl.Bytes.{ulong_at, line_control_of}
use netmodem2irc.Ioctl.Switch.{Handled}
use netmodem2irc.Ioctl.Baud.{BaudEntry, apply_baud, set_baud_rate, get_baud_rate, lookup_baud}
use netmodem2irc.Ioctl.Line.{apply_line, set_line_control, get_line_control, build_cor1, set_break}
use netmodem2irc.Ioctl.Modem.{set_modem, get_modem_status}
use netmodem2irc.Ioctl.Flow.{set_handflow, get_handflow, set_chars, get_chars}
use netmodem2irc.Ioctl.Wait.{dismiss, set_wait_mask, get_wait_mask, wait_on, wait_on_mask}
use netmodem2irc.Ioctl.Purge.{abort, clear_rx, clear_tx, sync_purge_buffers, purge}

-- What the switch owes the end of the routine: the lock is held, the rings are well formed, and the
-- IRPs are accounted for.
abbrev pub Sound : ℕ → Irp → Port → Handled → Type 0
Sound n irp p (Handled.answered s info irp' q others) =
    (irp'.id ≡ irp.id)
    × (q.lock_count ≡ p.lock_count)
    × IsValid q
    × (times n others + times n q.read_queue + times n q.write_queue + times n (waiting q.wait_irp)
        ≡ times n p.read_queue + times n p.write_queue + times n (waiting p.wait_irp))
Sound n irp p (Handled.pended q) =
    (q.lock_count ≡ p.lock_count)
    × IsValid q
    × (times n q.read_queue + times n q.write_queue + times n (waiting q.wait_irp)
        ≡ times n p.read_queue
          + times n p.write_queue
          + times n (waiting p.wait_irp)
          + times n (irp ∷ []))

module _ (n : ℕ) (irp : Irp) (p : Port) (v : IsValid p) where
  pub get_baud_rate-Sound : (k : ℕ) → Sound n irp p (get_baud_rate k irp p)
  unfolding get_baud_rate
  get_baud_rate-Sound k = ground (arith, v)

  pub wait_on-Sound : (o : Option Irp) → p.wait_irp ≡ o → Sound n irp p (wait_on o irp p)
  unfolding wait_on
  wait_on-Sound none e = ground (arith, v, e)
  wait_on-Sound (some w) e = ground (arith, v, e)

  pub wait_on_mask-Sound : (k : ℕ) → Sound n irp p (wait_on_mask k irp p)
  unfolding wait_on_mask
  wait_on_mask-Sound k = ground (arith, v, wait_on-Sound p.wait_irp refl)

  times-dismiss : (o : Option Irp) → times n (dismiss o) ≡ times n (waiting o)
  unfolding dismiss
  times-dismiss none = refl
  times-dismiss (some w) = refl

  pub set_wait_mask-Sound : (k : ℕ) → Sound n irp p (set_wait_mask k irp p)
  unfolding set_wait_mask
  set_wait_mask-Sound k = ground (arith, v, times-dismiss p.wait_irp)

  pub get_wait_mask-Sound : (k : ℕ) → Sound n irp p (get_wait_mask k irp p)
  unfolding get_wait_mask
  get_wait_mask-Sound k = ground (arith, v)

  pub get_line_control-Sound : (k : ℕ) → Sound n irp p (get_line_control k irp p)
  unfolding get_line_control
  get_line_control-Sound k = ground (arith, v)

  pub get_handflow-Sound : (k : ℕ) → Sound n irp p (get_handflow k irp p)
  unfolding get_handflow
  get_handflow-Sound k = ground (arith, v)

  pub get_chars-Sound : (k : ℕ) → Sound n irp p (get_chars k irp p)
  unfolding get_chars
  get_chars-Sound k = ground (arith, v)

  pub set_timeouts-Sound : (k : ℕ) → Sound n irp p (set_timeouts k irp p)
  unfolding set_timeouts
  set_timeouts-Sound k = ground (arith, v)

  pub get_timeouts-Sound : (k : ℕ) → Sound n irp p (get_timeouts k irp p)
  unfolding get_timeouts
  get_timeouts-Sound k = ground (arith, v)

  pub get_commstatus-Sound : (k : ℕ) → Sound n irp p (get_commstatus k irp p)
  unfolding get_commstatus
  get_commstatus-Sound k = ground (arith, v)

  pub get_stats-Sound : (k : ℕ) → Sound n irp p (get_stats k irp p)
  unfolding get_stats
  get_stats-Sound k = ground (arith, v)

  abort_lem :
      (mask : ℕ)
      → let r = abort mask p in
        (r.0.lock_count ≡ p.lock_count)
        × IsValid r.0
        × (times n r.1
              + times n r.0.read_queue
              + times n r.0.write_queue
              + times n (waiting r.0.wait_irp)
            ≡ times n p.read_queue + times n p.write_queue + times n (waiting p.wait_irp))
  unfolding abort
  abort_lem mask =
      let tx = has_bits mask purge_txabort in
      let rx = has_bits mask purge_rxabort in
      ground (
        arith,
        v,
        times-cancel_all n p.read_queue,
        times-cancel_all n p.write_queue,
        times-append n (if tx then cancel_all p.write_queue else [])
            (if rx then cancel_all p.read_queue else []),
      )

pub clear_stats-Sound :
    (n : ℕ) (irp : Irp) (p : Port) → IsValid p → Sound n irp p (clear_stats irp p)
unfolding clear_stats
clear_stats-Sound n irp p v = ground (arith, v)

module _ (dev : Device) (n : ℕ) (irp : Irp) where
  pub apply_baud-Sound :
      (p : Port) (v : IsValid p) (rate : ℕ) (o : Option BaudEntry) (log : Log)
      → Sound n irp p (apply_baud dev rate irp p o log).0
  unfolding apply_baud
  apply_baud-Sound p v rate none log = ground (arith, v)
  apply_baud-Sound p v rate (some e) log = ground (arith, v)

  pub set_baud_rate-Sound :
      (p : Port) (v : IsValid p) (k : ℕ) (log : Log)
      → Sound n irp p (set_baud_rate dev k irp p log).0
  unfolding set_baud_rate
  set_baud_rate-Sound p v k log =
      let rate = ulong_at irp.buffer 0 in
      ground (arith, v, apply_baud-Sound p v rate (lookup_baud p.is_60mhz rate) log)

  pub apply_line-Sound :
      (p : Port) (v : IsValid p) (l : LineControl) (o : Option ℕ) (log : Log)
      → Sound n irp p (apply_line dev l irp p o log).0
  unfolding apply_line
  apply_line-Sound p v l none log = ground (arith, v)
  apply_line-Sound p v l (some c) log = ground (arith, v)

  pub set_line_control-Sound :
      (p : Port) (v : IsValid p) (k : ℕ) (log : Log)
      → Sound n irp p (set_line_control dev k irp p log).0
  unfolding set_line_control
  set_line_control-Sound p v k log =
      let l = line_control_of irp.buffer in
      ground (arith, v, apply_line-Sound p v l (build_cor1 l) log)

  pub set_break-Sound :
      (p : Port) (v : IsValid p) (b : Bool) (log : Log)
      → Sound n irp p (set_break dev b irp p log).0
  unfolding set_break
  set_break-Sound p v b log = ground (arith, v)

  pub set_modem-Sound :
      (p : Port) (v : IsValid p) (flag : ℕ) (b : Bool) (log : Log)
      → Sound n irp p (set_modem dev flag b irp p log).0
  unfolding set_modem
  set_modem-Sound p v flag b log = ground (arith, v)

  pub get_modem_status-Sound :
      (p : Port) (v : IsValid p) (k : ℕ) (log : Log)
      → Sound n irp p (get_modem_status dev k irp p log).0
  unfolding get_modem_status
  get_modem_status-Sound p v k log = ground (arith, v)

  pub set_handflow-Sound :
      (p : Port) (v : IsValid p) (k : ℕ) (log : Log)
      → Sound n irp p (set_handflow dev k irp p log).0
  unfolding set_handflow
  set_handflow-Sound p v k log = ground (arith, v)

  pub set_chars-Sound :
      (p : Port) (v : IsValid p) (k : ℕ) (log : Log) → Sound n irp p (set_chars dev k irp p log).0
  unfolding set_chars
  set_chars-Sound p v k log = ground (arith, v)

  -- Clearing the rings leaves the queues and the lock alone.
  sync_purge_buffers_keeps :
      (p : Port) (v : IsValid p) (mask : ℕ) (log : Log)
      → let q = (sync_purge_buffers dev mask p log).0 in
        (q.lock_count ≡ p.lock_count)
        × IsValid q
        × (q.read_queue ≡ p.read_queue)
        × (q.write_queue ≡ p.write_queue)
        × (q.wait_irp ≡ p.wait_irp)
  unfolding sync_purge_buffers clear_rx clear_tx
  sync_purge_buffers_keeps p v mask log =
      ground (arith, v, reset-IsValid p.rx v.rx_valid, reset-IsValid p.tx v.tx_valid)

  pub purge-Sound :
      (p : Port) (v : IsValid p) (k : ℕ) (log : Log) → Sound n irp p (purge dev k irp p log).0
  unfolding purge
  purge-Sound p v k log =
      let mask = ulong_at irp.buffer 0 in
      let aborted = abort_lem n irp p v mask in
      ground (arith, v, aborted, sync_purge_buffers_keeps (abort mask p).0 aborted.1 mask log)
