-- ===== src/Serial/Lifecycle.antt =====
-- A port is open for one client at a time, and can be opened again after it was closed.
use netmodem2irc.Base.{
  ◌-◌, ◌≡◌, refl, ◌⊎◌, Bool, true, false, not, ◌&&◌, ◌||◌, if◌then◌else◌, [], ◌∷◌, arith,
}
use netmodem2irc.Bus.{Device, Log}
use netmodem2irc.Bus.Session.{Session}
use netmodem2irc.Ring.{reset}
use netmodem2irc.Ring.Fifo.{cells, contents, reset-IsValid}
use netmodem2irc.Port.{Port, PnpState, IsValid, is_started, Irp, Status, nt_success, acquire}
use netmodem2irc.Port.Settles.{ids}
use netmodem2irc.Serial.{dispatch_create, dispatch_close, create_locked}
use netmodem2irc.Serial.Channel.{init_channel, shutdown_channel}
use netmodem2irc.Serial.Session.{init_channel-Session}

init_channel_lem :
    (dev : Device) (p : Port) (log : Log)
    → IsValid p
    → let q = (init_channel dev p log).0 in
      (contents q.rx ≡ []) × (contents q.tx ≡ []) × (q.lock_count ≡ p.lock_count) × IsValid q
unfolding init_channel cells reset
init_channel_lem dev p log v = (
  refl,
  refl,
  refl,
  record { rx_valid = reset-IsValid p.rx v.rx_valid; tx_valid = reset-IsValid p.tx v.tx_valid },
)

-- Whether a create request is granted.
unfoldable pub granted : Status → Port → Bool
granted lock p = not p.is_fdo && (nt_success lock && (is_started p.pnp_state && not p.is_open))

module _ (dev : Device) where
  create_locked_lem :
      (irp : Irp) (p : Port) (log : Log)
      → IsValid p
      → let r = create_locked dev irp p log in
        let g = is_started p.pnp_state && not p.is_open in
        (nt_success r.0.result ≡ g)
        × (ids r.0.completed ≡ irp.id ∷ [])
        × (r.0.port.lock_count ≡ p.lock_count - 1)
        × (r.0.port.is_open ≡ (g || p.is_open))
        × (contents r.0.port.rx ≡ (if g then [] else contents p.rx))
        × (contents r.0.port.tx ≡ (if g then [] else contents p.tx))
        × IsValid r.0.port
        × ((r.1 ≡ log) × (g ≡ false) ⊎ ((g ≡ true) × Session dev p.chip_base p.channel log r.1))
  unfolding create_locked
  create_locked_lem irp p log v =
      ground (arith, init_channel_lem dev p log v, init_channel-Session dev p log)

  -- A create request succeeds exactly where the object is no FDO, the lock is granted, the port is
  -- started and it is not open. It then opens the port, empties both rings, and its accesses select
  -- the port's channel and stay on it; else it leaves the rings and whether the port is open as they
  -- were, and touches no register. The request is completed, the remove lock is balanced, and the
  -- rings stay well formed. They were well formed.
  pub dispatch_create_lem :
      (lock : Status) (irp : Irp) (p : Port) (log : Log)
      → IsValid p
      → let r = dispatch_create dev lock irp p log in
        let g = granted lock p in
        (nt_success r.0.result ≡ g)
        × (ids r.0.completed ≡ irp.id ∷ [])
        × (r.0.port.lock_count ≡ p.lock_count)
        × (r.0.port.is_open ≡ (g || p.is_open))
        × (contents r.0.port.rx ≡ (if g then [] else contents p.rx))
        × (contents r.0.port.tx ≡ (if g then [] else contents p.tx))
        × IsValid r.0.port
        × ((r.1 ≡ log) × (g ≡ false) ⊎ ((g ≡ true) × Session dev p.chip_base p.channel log r.1))
  unfolding dispatch_create granted
  dispatch_create_lem lock irp p log v =
      let valid : IsValid (acquire p) = record { rx_valid = v.rx_valid; tx_valid = v.tx_valid } in
      ground (arith, create_locked_lem irp (acquire p) log valid)

  -- While a port is open every further create request fails and touches no register; once it is
  -- closed, the next create request on the started port succeeds and opens it again. The object is
  -- no FDO and the locks are granted.
  pub create_close :
      (first second third close : Irp) (p : Port) (log : Log)
      → p.is_fdo ≡ false
      → p.pnp_state ≡ PnpState.started
      → let opened = dispatch_create dev Status.success first p log in
        let again = dispatch_create dev Status.success second opened.0.port opened.1 in
        let closed = dispatch_close dev close again.0.port again.1 in
        let reopened = dispatch_create dev Status.success third closed.0.port closed.1 in
        (again.0.result ≡ Status.access_denied)
        × (again.1 ≡ opened.1)
        × (closed.0.port.is_open ≡ false)
        × (reopened.0.result ≡ Status.success)
        × (reopened.0.port.is_open ≡ true)
  unfolding dispatch_create create_locked dispatch_close init_channel shutdown_channel
  create_close first second third close p log pdo ready = ground (arith, pdo, ready)
