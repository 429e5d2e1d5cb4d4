-- ===== src/System/Keeping/Events.antt =====
-- The requests and events that move no bytes keep a port, or empty its rings.
use netmodem2irc.Base.{ℕ, refl, Bool-cases, inl, inr, arith}
use netmodem2irc.Bus.{Device, Log}
use netmodem2irc.Ring
use netmodem2irc.Card.{Card}
use netmodem2irc.Port.{Port, Irp, Status, DevicePower, nt_success, acquire}
use netmodem2irc.Serial.{dispatch_create, create_locked, dispatch_close, dispatch_cleanup}
use netmodem2irc.Serial.Channel.{init_channel, shutdown_channel}
use netmodem2irc.Ring.{write_loop}
use netmodem2irc.Power
use netmodem2irc.Power.{dispatch_power, minor_power, pdo_set_power, resume, suspend, PowerState}
use netmodem2irc.Power.Channel.{save_channel_state, restore_channel_state, restore_registers}
use netmodem2irc.Pdo
use netmodem2irc.Pdo.{Kernel, dispatch_pnp, pdo_pnp, pdo_minor, pdo_start, pdo_remove, name_port}
use netmodem2irc.Pdo.State.{set_pnp_state, restore_pnp_state}
use netmodem2irc.Isr.Connect.{connect_interrupt, disconnect_interrupt}
use netmodem2irc.Port.Keeps.{Keeps, same_Keeps}

acquire-Keeps : {home p : Port} → Keeps home p → Keeps home (acquire p)
acquire-Keeps v = same_Keeps v refl refl refl refl refl refl

module _ {home : Port} (p : Port) (v : Keeps home p) where
  pub cleanup-Keeps : (lock : Status) (irp : Irp) → Keeps home (dispatch_cleanup lock irp p).port
  unfolding dispatch_cleanup
  cleanup-Keeps lock irp = ground (arith, v)

  pub connect-Keeps : (c : Card) → Keeps home (connect_interrupt c p).1
  unfolding connect_interrupt
  connect-Keeps c = ground (arith, v)

  pub disconnect-Keeps : Keeps home (disconnect_interrupt p)
  unfolding disconnect_interrupt
  disconnect-Keeps = ground (arith, v)

module _ {home : Port} (dev : Device) (p : Port) (v : Keeps home p) (log : Log) where
  pub create-Keeps :
      (lock : Status) (irp : Irp) → Keeps home (dispatch_create dev lock irp p log).0.port
  unfolding dispatch_create create_locked init_channel Ring.reset
  create-Keeps lock irp = ground (arith, v)

  pub close-Keeps : (irp : Irp) → Keeps home (dispatch_close dev irp p log).0.port
  unfolding dispatch_close shutdown_channel
  close-Keeps irp = ground (arith, v)

  suspend-Keeps : Keeps home (suspend dev p log).0
  unfolding suspend save_channel_state
  suspend-Keeps = ground (arith, v)

  restore-Keeps : Keeps home (restore_channel_state dev p log).0
  unfolding restore_channel_state restore_registers Ring.reset
  restore-Keeps = ground (arith, v)

  resume-Keeps : Keeps home (resume dev p log).0
  unfolding resume
  resume-Keeps = ground (arith, v, restore-Keeps)

  pdo_set_power-Keeps : (s : PowerState) → Keeps home (pdo_set_power dev s p log).0.0
  unfolding pdo_set_power
  pdo_set_power-Keeps (PowerState.device_power DevicePower.unspecified) = v
  pdo_set_power-Keeps (PowerState.device_power DevicePower.d0) = ground (arith, v, resume-Keeps)
  pdo_set_power-Keeps (PowerState.device_power DevicePower.d1) = v
  pdo_set_power-Keeps (PowerState.device_power DevicePower.d2) = v
  pdo_set_power-Keeps (PowerState.device_power DevicePower.d3) = ground (arith, v, suspend-Keeps)
  pdo_set_power-Keeps (PowerState.system_power n) = same_Keeps v refl refl refl refl refl refl

  minor_power-Keeps : (minor : Power.Minor) → Keeps home (minor_power dev minor p log).0
  unfolding minor_power
  minor_power-Keeps (Power.Minor.set_power s) = pdo_set_power-Keeps s
  minor_power-Keeps Power.Minor.query_power = v
  minor_power-Keeps Power.Minor.other_power = v

  pub power-Keeps :
      (lower : Status) (minor : Power.Minor) (irp : Irp)
      → Keeps home (dispatch_power dev lower minor irp p log).0.port
  unfolding dispatch_power
  power-Keeps lower minor irp = ground (arith, v, minor_power-Keeps minor)

  pdo_remove-Keeps : Keeps home (pdo_remove dev p log).0
  unfolding pdo_remove set_pnp_state shutdown_channel
  pdo_remove-Keeps = ground (arith, v)

  pdo_start-Keeps : (k : Kernel) → Keeps home (pdo_start k p).1
  unfolding pdo_start name_port set_pnp_state
  pdo_start-Keeps k = ground (arith, v)

module _ {home : Port} (dev : Device) where
  pdo_minor-Keeps :
      (k : Kernel) (size : ℕ) (status : Status) (minor : Pdo.Minor) (p : Port) (log : Log)
      → Keeps home p
      → Keeps home (pdo_minor dev k size status minor p log).0.2
  unfolding pdo_minor set_pnp_state restore_pnp_state
  pdo_minor-Keeps k size status Pdo.Minor.query_device_text_description p log v = v
  pdo_minor-Keeps k size status Pdo.Minor.query_device_text_other p log v = v
  pdo_minor-Keeps k size status Pdo.Minor.query_other_relation p log v = v
  pdo_minor-Keeps k size status Pdo.Minor.surprise_removal p log v =
      same_Keeps v refl refl refl refl refl refl
  pdo_minor-Keeps k size status Pdo.Minor.query_stop_device p log v =
      same_Keeps v refl refl refl refl refl refl
  pdo_minor-Keeps k size status Pdo.Minor.cancel_stop_device p log v =
      same_Keeps v refl refl refl refl refl refl
  pdo_minor-Keeps k size status Pdo.Minor.stop_device p log v =
      same_Keeps v refl refl refl refl refl refl
  pdo_minor-Keeps k size status Pdo.Minor.query_remove_device p log v =
      same_Keeps v refl refl refl refl refl refl
  pdo_minor-Keeps k size status Pdo.Minor.cancel_remove_device p log v =
      same_Keeps v refl refl refl refl refl refl
  pdo_minor-Keeps k size status Pdo.Minor.other p log v = v
  pdo_minor-Keeps k size status (Pdo.Minor.query_id_minor t) p log v = v
  pdo_minor-Keeps k size status (Pdo.Minor.query_capabilities_minor n c) p log v = v
  pdo_minor-Keeps k size status Pdo.Minor.query_target_relation p log v = ground (arith, v)
  pdo_minor-Keeps k size status Pdo.Minor.start_device p log v = pdo_start-Keeps dev p v log k
  pdo_minor-Keeps k size status Pdo.Minor.remove_device p log v = pdo_remove-Keeps dev p v log

  pub pnp-Keeps :
      (lock : Status) (k : Kernel) (size : ℕ) (minor : Pdo.Minor) (irp : Irp) (p : Port) (log : Log)
      → Keeps home p
      → Keeps home (dispatch_pnp dev lock k size minor irp p log).0.0.port
  unfolding dispatch_pnp pdo_pnp
  pnp-Keeps lock k size minor irp p log v =
      let q = acquire p in
      let w : Keeps home q = same_Keeps v refl refl refl refl refl refl in
      let after = pdo_minor-Keeps k size irp.status minor q log w in
      elim (Bool-cases (nt_success lock)) [
        | inl y ↦ simp y (same_Keeps after refl refl refl refl refl refl)
        | inr x ↦ simp x v
      ]
