-- ===== src/Pdo.antt =====
-- fossil/cyclades/src/cypdo.c: IRP_MJ_PNP for a port.
pub mod State
pub mod Query
pub mod Requests
use netmodem2irc.Base.{
  ℕ, ◌+◌, ◌%◌, ◌^◌, Bool, true, false, not, ◌&&◌, Option, some, none, List, [], ◌∷◌, if◌then◌else◌,
}
use netmodem2irc.Bus.{Device, Bus, pure, ◌>>=◌}
use netmodem2irc.Port.{Port, PnpState, Outcome, release, Irp, Status, nt_success, finish, acquire}
use netmodem2irc.Serial.Channel.{shutdown_channel}
use netmodem2irc.Pdo.State.{set_pnp_state, restore_pnp_state}
use netmodem2irc.Pdo.Query.{
  IdType, Reply, query_id, Capabilities, query_capabilities, query_device_text,
}

-- What the kernel answers: IoCsqInitialize for the two queues, and whether
-- ExAllocatePoolWithTag finds memory for the link name, the device name and a query's buffer.
pub record Kernel : Type 0 where
  pub read_csq : Status
  pub write_csq : Status
  pub link_buffer : Bool
  pub name_buffer : Bool
  pub query_buffer : Bool

-- The minor functions that the switch of `CyPdoPnP` names.
pub data Minor : Type 0 where
  start_device query_device_text_other query_device_text_description : Minor
  query_target_relation query_other_relation remove_device surprise_removal : Minor
  query_stop_device cancel_stop_device stop_device : Minor
  query_remove_device cancel_remove_device other : Minor
  query_id_minor : IdType → Minor
  query_capabilities_minor : ℕ → ℕ → Minor

-- `CyInitCancelSafeQueues`, by its status
unfoldable pub init_cancel_safe_queues : Kernel → Status
init_cancel_safe_queues k = if not (nt_success k.read_csq) then k.read_csq else k.write_csq

-- The part of START_DEVICE behind the queues. The link is made only if its name has a buffer.
unfoldable pub name_port : Kernel → Port → Port
name_port k p =
    let number : ℕ = (3 + p.port_index) % 2 ^ 32 in
    record p {
      com_port_number = number;
      sym_link_name = if k.link_buffer then some number else none;
      device_name = if k.name_buffer then some number else none;
    }

-- IRP_MN_START_DEVICE
unfoldable pub pdo_start : Kernel → Port → Status × Port
pdo_start k p =
    let queues : Status = init_cancel_safe_queues k in
    if not (nt_success queues)
    then (queues, p)
    else (Status.success, name_port k (set_pnp_state PnpState.started p))

module _ (dev : Device) where
  -- IRP_MN_REMOVE_DEVICE
  unfoldable pub pdo_remove : Port → Bus Port
  pdo_remove p = do
    let unnamed : Port = record (set_pnp_state PnpState.removed p) {
      sym_link_name = none;
      device_name = none;
    }
    p' ←
        (if p.interrupt_connected && p.interrupt
          then (do
            q ← shutdown_channel dev unnamed
            pure (record q { interrupt_connected = false }))
          else pure unnamed)
    pure (record p' { com_port_number = 0 })

  -- The switch of `CyPdoPnP`: `status`, the reply that Information points to, and the port. `status`
  -- is at first that of the IRP; `size` is sizeof(DEVICE_CAPABILITIES).
  unfoldable pub pdo_minor : Kernel → ℕ → Status → Minor → Port → Bus (Status × Option Reply × Port)
  pdo_minor k size status Minor.start_device p = pure ((pdo_start k p).0, none, (pdo_start k p).1)
  pdo_minor k size status (Minor.query_id_minor t) p =
      pure ((query_id k.query_buffer status t p).0, (query_id k.query_buffer status t p).1, p)
  pdo_minor k size status (Minor.query_capabilities_minor version caps_size) p = pure (
    (query_capabilities size version caps_size).0,
    (query_capabilities size version caps_size).1,
    p,
  )
  pdo_minor k size status Minor.query_device_text_description p =
      pure ((query_device_text k.query_buffer p).0, (query_device_text k.query_buffer p).1, p)
  pdo_minor k size status Minor.query_device_text_other p = pure (status, none, p)
  pdo_minor k size status Minor.query_target_relation p = pure (
      if k.query_buffer
      then (Status.success, some Reply.own_object, p)
      else (Status.insufficient_resources, none, p))
  pdo_minor k size status Minor.query_other_relation p = pure (status, none, p)
  pdo_minor k size status Minor.remove_device p = do
    p' ← pdo_remove p
    pure (Status.success, none, p')
  pdo_minor k size status Minor.surprise_removal p =
      pure (Status.success, none, set_pnp_state PnpState.surprise_removed p)
  pdo_minor k size status Minor.query_stop_device p =
      pure (Status.success, none, set_pnp_state PnpState.stop_pending p)
  pdo_minor k size status Minor.cancel_stop_device p =
      pure (Status.success, none, restore_pnp_state p)
  pdo_minor k size status Minor.stop_device p =
      pure (Status.success, none, set_pnp_state PnpState.stopped p)
  pdo_minor k size status Minor.query_remove_device p =
      pure (Status.success, none, set_pnp_state PnpState.remove_pending p)
  pdo_minor k size status Minor.cancel_remove_device p =
      pure (Status.success, none, restore_pnp_state p)
  pdo_minor k size status Minor.other p = pure (Status.success, none, p)

  -- `CyPdoPnP`, which gives back the lock that `CyDispatchPnP` took
  unfoldable pub pdo_pnp : Kernel → ℕ → Minor → Irp → Port → Bus (Outcome × Option Reply)
  pdo_pnp k size minor irp p = do
    res ← pdo_minor k size irp.status minor p
    pure (
      record {
        result = res.0;
        port = release res.2;
        completed = record irp { status = res.0 } ∷ [];
      },
      res.1,
    )

  -- `CyDispatchPnP` on a port. `lock` is what IoAcquireRemoveLock returns.
  unfoldable pub dispatch_pnp :
      Status → Kernel → ℕ → Minor → Irp → Port → Bus (Outcome × Option Reply)
  dispatch_pnp lock k size minor irp p =
      if not (nt_success lock)
      then pure (record { result = lock; port = p; completed = finish lock 0 irp ∷ [] }, none)
      else pdo_pnp k size minor irp (acquire p)
