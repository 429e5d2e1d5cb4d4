-- ===== src/Enum.antt =====
-- fossil/cyclades/src/cyenum.c: the chips of a card and its ports, and IRP_MJ_PNP for a card.
pub mod Fresh
pub mod Attach
pub mod Chips
pub mod Children
pub mod Resources
pub mod Layout
pub mod Scan
pub mod Start
pub mod Ports
pub mod Requests
use netmodem2irc.Base.{
  ℕ, zero, suc, ◌+◌, ◌-◌, Bool, true, false, not, Option, some, none, List, [], ◌∷◌, ◌++◌, take,
  replicate, length, ◌==◌, if◌then◌else◌,
}
use netmodem2irc.Bus.{Device, Bus, pure, ◌>>=◌}
use netmodem2irc.Port.{Port, PnpState, Outcome, Irp, Status, nt_success, finish, acquire}
use netmodem2irc.Card.{Card}
use netmodem2irc.Enum.Chips.{scan_for_chips}
use netmodem2irc.Enum.Children.{create_child_pdos}
use netmodem2irc.Enum.Resources.{Resource, parse_resources, isa_addresses, scan_isa}

-- What the kernel answers to a card: the status of each IoCreateDevice by chip and channel, the
-- address at which MmMapIoSpace maps a stretch of memory, if it does, and whether
-- ExAllocatePoolWithTag finds memory.
pub record Kernel : Type 0 where
  pub create_device : ℕ → ℕ → Status
  pub map_io_space : ℕ → ℕ → Option ℕ
  pub pool : Bool

-- The minor functions that the switch of `CyFdoPnP` names; START_DEVICE comes with the translated
-- resources, and BusRelations with the objects of the relations that are there already.
pub data Minor : Type 0 where
  start_device : List Resource → Minor
  bus_relations : List (Option ℕ) → Minor
  remove_device query_stop_device cancel_stop_device stop_device : Minor
  query_remove_device cancel_remove_device surprise_removal other : Minor

-- `CySetPnPState` and `CyRestorePnPState`, on a card
unfoldable pub set_card_state : PnpState → Card → Card
set_card_state s c = record c { previous_pnp_state = c.pnp_state; pnp_state = s }

unfoldable pub restore_card_state : Card → Card
restore_card_state c = record c { pnp_state = c.previous_pnp_state }

-- What a card's handler leaves: what it returns, the card, the IRP if it was completed, the IRP if
-- it was passed to the lower device (for START_DEVICE both), the relations if it built them, and the indices of the ports whose device
-- objects were deleted.
pub record CardOutcome : Type 0 where
  pub result : Status
  pub card : Card
  pub completed : List Irp
  pub passed_down : List Irp
  pub relations : Option (List (Option ℕ))
  pub deleted : List ℕ

-- The indices of the children that are there and are not removed, which REMOVE_DEVICE deletes.
unfoldable pub to_delete : ℕ → List (Option Port) → List ℕ
to_delete i [] = []
to_delete i (none ∷ ports) = to_delete (i + 1) ports
to_delete i (some p ∷ ports) = elim p.pnp_state [
  | PnpState.removed ↦ to_delete (i + 1) ports
  | _ ↦ i ∷ to_delete (i + 1) ports
]

-- The relation's objects for the ports from `i` on: a child that is NULL is `none`.
unfoldable pub objects : ℕ → List (Option Port) → List (Option ℕ)
objects i [] = []
objects i (none ∷ ports) = none ∷ objects (i + 1) ports
objects i (some p ∷ ports) = some i ∷ objects (i + 1) ports

-- `IoCompleteRequest`, `IoReleaseRemoveLock` behind the switch
unfoldable pub complete_card : Status → Irp → Card → CardOutcome
complete_card s irp c = record {
  result = s;
  card = record c { lock_count = c.lock_count - 1 };
  completed = record irp { status = s } ∷ [];
  passed_down = [];
  relations = none;
  deleted = [];
}

-- FdoForwardDefault: `lower` is what IoCallDriver returns.
unfoldable pub forward_card : Status → Irp → Card → CardOutcome
forward_card lower irp c = record {
  result = lower;
  card = record c { lock_count = c.lock_count - 1 };
  completed = [];
  passed_down = irp ∷ [];
  relations = none;
  deleted = [];
}

-- IRP_MN_STOP_DEVICE
abbrev stop_card : Card → Card
stop_card c = record (set_card_state PnpState.stopped c) { started = false }

-- The loop of REMOVE_DEVICE over `ChildPDOs`: the places left; each becomes NULL.
unfoldable pub clear_children : ℕ → List (Option Port) → List (Option Port)
clear_children zero ports = ports
clear_children (suc n) [] = []
clear_children (suc n) (_ ∷ ports) = none ∷ clear_children n ports

-- IRP_MN_QUERY_DEVICE_RELATIONS for BusRelations: `before` are the relations that the IRP brings.
unfoldable pub query_bus_relations : Kernel → Status → List (Option ℕ) → Irp → Card → CardOutcome
query_bus_relations k lower before irp c =
    if not k.pool
    then complete_card Status.insufficient_resources irp c
    else record (forward_card lower (record irp { status = Status.success }) c) {
      relations = some (before ++ objects 0 (take c.num_pdos c.child_pdos));
    }

-- IRP_MN_REMOVE_DEVICE, which also deletes the card's own device object
unfoldable pub fdo_remove : Status → Irp → Card → CardOutcome
fdo_remove lower irp c =
    record (forward_card lower (record irp { status = Status.success })
      (record (set_card_state PnpState.removed c) {
        child_pdos = clear_children c.num_pdos c.child_pdos;
        num_pdos = 0;
        card_base = 0;
      })) { deleted = to_delete 0 (take c.num_pdos c.child_pdos) }

-- What START_DEVICE leaves once the chips are known.
unfoldable pub start_children : Kernel → Card → Status × Card
start_children k c =
    let made : Status × Card = create_child_pdos k.create_device c in
    if c.num_chips == 0
    then (Status.device_does_not_exist, record c { card_base = 0 })
    else if not (nt_success made.0)
    then (made.0, record (made.1) { card_base = 0 })
    else (made.0, set_card_state PnpState.started (record (made.1) { started = true }))

module _ (dev : Device) where
  -- Past MmMapIoSpace. `g_CyBusIndex` is the card's `BusIndex`.
  unfoldable pub start_mapped : Kernel → Option ℕ → Card → Bus (Status × Card)
  start_mapped k none c = pure (Status.insufficient_resources, record c { card_base = 0 })
  start_mapped k (some base) c = do
    c' ← scan_for_chips (record dev { bus_index = c.bus_index }) (record c { card_base = base })
    pure (start_children k c')

  -- The block of START_DEVICE that fills in the resources; without a memory it scans for an ISA card.
  unfoldable pub find_memory : Kernel → List Resource → Card → Bus Card
  find_memory k resources c =
      let parsed : Card × Bool = parse_resources resources (c, false, false) in
      if parsed.1 then pure (parsed.0) else scan_isa dev k.map_io_space isa_addresses parsed.0

  -- IRP_MN_START_DEVICE: `lower` is the status of the lower driver once it is done.
  unfoldable pub fdo_start : Kernel → Status → List Resource → Card → Bus (Status × Card)
  fdo_start k lower resources c =
      if c.started
      then pure (Status.success, c)
      else if not (nt_success lower)
      then pure (lower, c)
      else (do
        c' ← find_memory k resources c
        start_mapped k (k.map_io_space c'.physical_base c'.mapped_length) c')

  -- `CyFdoPnP`, which gives back the lock that `CyDispatchPnP` took. START_DEVICE passes the IRP down
  -- first, and completes it when the lower driver has given it back.
  unfoldable pub fdo_pnp : Kernel → Status → Minor → Irp → Card → Bus CardOutcome
  fdo_pnp k lower (Minor.start_device resources) irp c = do
    res ← fdo_start k lower resources c
    pure (record (complete_card res.0 irp res.1) {
      passed_down = if c.started then [] else irp ∷ [];
    })
  fdo_pnp k lower (Minor.bus_relations before) irp c =
      pure (query_bus_relations k lower before irp c)
  fdo_pnp k lower Minor.remove_device irp c = pure (fdo_remove lower irp c)
  fdo_pnp k lower Minor.query_stop_device irp c = pure (
      forward_card lower (record irp { status = Status.success })
        (set_card_state PnpState.stop_pending c))
  fdo_pnp k lower Minor.cancel_stop_device irp c =
      pure (forward_card lower (record irp { status = Status.success }) (restore_card_state c))
  fdo_pnp k lower Minor.stop_device irp c =
      pure (forward_card lower (record irp { status = Status.success }) (stop_card c))
  fdo_pnp k lower Minor.query_remove_device irp c = pure (
      forward_card lower (record irp { status = Status.success })
        (set_card_state PnpState.remove_pending c))
  fdo_pnp k lower Minor.cancel_remove_device irp c =
      pure (forward_card lower (record irp { status = Status.success }) (restore_card_state c))
  fdo_pnp k lower Minor.surprise_removal irp c = pure (
      forward_card lower (record irp { status = Status.success })
        (set_card_state PnpState.surprise_removed c))
  fdo_pnp k lower Minor.other irp c = pure (forward_card lower irp c)

  -- `CyDispatchPnP` on a card. `lock` is what IoAcquireRemoveLock returns.
  unfoldable pub dispatch_pnp : Status → Kernel → Status → Minor → Irp → Card → Bus CardOutcome
  dispatch_pnp lock k lower minor irp c =
      if not (nt_success lock)
      then pure (record {
        result = lock;
        card = c;
        completed = finish lock 0 irp ∷ [];
        passed_down = [];
        relations = none;
        deleted = [];
      })
      else fdo_pnp k lower minor irp (record c { lock_count = c.lock_count + 1 })
