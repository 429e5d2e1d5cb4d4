-- ===== src/Pdo/Requests.antt =====
-- Every PnP request to a port is completed once, and the remove lock is given back.
use netmodem2irc.Base.{
  ℕ, ◌-◌, ◌+◌, ◌≡◌, refl, ◌∙◌, Option, List, ap, [], ◌∷◌, Bool-cases, inl, inr, ◌&&◌, arith,
}
use netmodem2irc.Bus.{Device, Log}
use netmodem2irc.Port.{Port, Irp, Status, nt_success}
use netmodem2irc.Port.{acquire, release}
use netmodem2irc.Ring.{Ring}
use netmodem2irc.Port.Settles.{ids, statuses}
use netmodem2irc.Serial.Channel.{shutdown_channel}
use netmodem2irc.Pdo.{
  Kernel, Minor, name_port, pdo_start, pdo_remove, pdo_minor, pdo_pnp, dispatch_pnp,
  init_cancel_safe_queues,
}
use netmodem2irc.Pdo.State.{set_pnp_state, restore_pnp_state}

-- What PnP leaves alone of a port: the lock, the rings and the requests that wait.
abbrev pub untouched : Port → ℕ × Ring × Ring × List Irp × List Irp × Option Irp
untouched p = (p.lock_count, p.rx, p.tx, p.read_queue, p.write_queue, p.wait_irp)

given_back : (p : Port) → untouched (release (acquire p)) ≡ untouched p
given_back p =
    let same : p.lock_count + 1 - 1 ≡ p.lock_count = omega arith in
    ap (λ n. (n, p.rx, p.tx, p.read_queue, p.write_queue, p.wait_irp)) same

pdo_start-untouched : (k : Kernel) (p : Port) → untouched (pdo_start k p).1 ≡ untouched p
unfolding pdo_start name_port set_pnp_state
pdo_start-untouched k p = elim (Bool-cases (nt_success (init_cancel_safe_queues k))) [
  | inl y ↦ simp y
  | inr x ↦ simp x
]

module _ (dev : Device) where
  pdo_remove-untouched : (p : Port) (log : Log) → untouched (pdo_remove dev p log).0 ≡ untouched p
  unfolding pdo_remove set_pnp_state shutdown_channel
  pdo_remove-untouched p log = elim (Bool-cases (p.interrupt_connected && p.interrupt)) [
    | inl y ↦ simp y
    | inr x ↦ simp x
  ]

  pdo_minor-untouched :
      (k : Kernel) (size : ℕ) (status : Status) (minor : Minor) (p : Port) (log : Log)
      → untouched (pdo_minor dev k size status minor p log).0.2 ≡ untouched p
  unfolding pdo_minor set_pnp_state restore_pnp_state
  pdo_minor-untouched k size status Minor.query_device_text_description p log = refl
  pdo_minor-untouched k size status Minor.query_device_text_other p log = refl
  pdo_minor-untouched k size status Minor.query_other_relation p log = refl
  pdo_minor-untouched k size status Minor.surprise_removal p log = refl
  pdo_minor-untouched k size status Minor.query_stop_device p log = refl
  pdo_minor-untouched k size status Minor.cancel_stop_device p log = refl
  pdo_minor-untouched k size status Minor.stop_device p log = refl
  pdo_minor-untouched k size status Minor.query_remove_device p log = refl
  pdo_minor-untouched k size status Minor.cancel_remove_device p log = refl
  pdo_minor-untouched k size status Minor.other p log = refl
  pdo_minor-untouched k size status (Minor.query_id_minor t) p log = refl
  pdo_minor-untouched k size status (Minor.query_capabilities_minor v c) p log = refl
  pdo_minor-untouched k size status Minor.query_target_relation p log =
      elim (Bool-cases k.query_buffer) [ inl y ↦ simp y | inr x ↦ simp x ]
  pdo_minor-untouched k size status Minor.start_device p log = pdo_start-untouched k p
  pdo_minor-untouched k size status Minor.remove_device p log = pdo_remove-untouched p log

  -- Every PnP request to a port, whatever it asks and the kernel answers, is completed once, with
  -- the status that the routine returns; the remove lock is held as often as before, and the rings
  -- and the requests that wait on the port are untouched.
  pub dispatch_pnp-untouched :
      (lock : Status) (k : Kernel) (size : ℕ) (minor : Minor) (irp : Irp) (p : Port) (log : Log)
      → (ids (dispatch_pnp dev lock k size minor irp p log).0.0.completed ≡ irp.id ∷ [])
        × (statuses (dispatch_pnp dev lock k size minor irp p log).0.0.completed
            ≡ (dispatch_pnp dev lock k size minor irp p log).0.0.result ∷ [])
        × untouched (dispatch_pnp dev lock k size minor irp p log).0.0.port ≡ untouched p
  unfolding dispatch_pnp pdo_pnp
  dispatch_pnp-untouched lock k size minor irp p log = elim (Bool-cases (nt_success lock)) [
    | inr x ↦ simp x (refl, refl, refl)
    | inl y ↦
        let same = pdo_minor-untouched k size irp.status minor (acquire p) log in
        simp y (refl, refl, (ap (λ t. (t.0 - 1, t.1, t.2, t.3, t.4, t.5)) same ∙ given_back p))
  ]
