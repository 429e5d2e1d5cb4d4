-- ===== src/Enum/Attach.antt =====
-- `CyAddDevice`: the extension of a new card.
use netmodem2irc.Base.{◌*◌, Bool, false, not, Option, none, some, replicate, if◌then◌else◌}
use netmodem2irc.Cd1400
use netmodem2irc.Port.{PnpState, Status, nt_success}
use netmodem2irc.Card.{Card}

-- The extension as it is zeroed and filled in.
unfoldable pub zeroed_card : Card
zeroed_card = record {
  pnp_state = PnpState.not_started;
  previous_pnp_state = PnpState.not_started;
  lock_count = 0;
  physical_base = 0;
  card_base = 0;
  mapped_length = 0;
  num_chips = 0;
  bus_index = 0;
  interrupt_level = 0;
  interrupt_vector = 0;
  interrupt_affinity = 0;
  interrupt_latched = false;
  chips = replicate Cd1400.max_chips (record { base = 0; revision = 0; is_60mhz = false });
  num_pdos = 0;
  child_pdos = replicate (Cd1400.max_chips * Cd1400.ports_per_chip) none;
  started = false;
}

-- `CyAddDevice`, by the status of IoCreateDevice and whether there is a lower device to attach to:
-- the status, and the card unless its device object is not made or is deleted again.
unfoldable pub add_device : Status → Bool → Status × Option Card
add_device created attached =
    if not (nt_success created)
    then (created, none)
    else if not attached
    then (Status.no_such_device, none)
    else (Status.success, some zeroed_card)
