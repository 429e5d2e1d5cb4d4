-- ===== src/Enum/Children.antt =====
-- `CyCreateChildPDOs`: a port for each channel of each chip.
use netmodem2irc.Base.{
  ℕ, zero, suc, ◌+◌, Bool, false, Option, some, none, List, [], ◌∷◌, ltb, set, take, if◌then◌else◌,
}
use netmodem2irc.Cd1400
use netmodem2irc.Ring
use netmodem2irc.Port.{Port, PnpState, DevicePower, Status, nt_success}
use netmodem2irc.Card.{Card, Chip}

-- A zeroed extension, filled in for the port `index`, on the channel `chan` of the chip number `i`.
-- PowerSystemWorking is 1.
unfoldable pub new_port : ℕ → ℕ → Chip → ℕ → Port
new_port index i chip chan = record {
  is_fdo = false;
  pnp_state = PnpState.not_started;
  previous_pnp_state = PnpState.not_started;
  lock_count = 0;
  system_power_state = 1;
  device_power_state = DevicePower.d0;
  port_index = index;
  chip_index = i;
  channel = chan;
  chip_base = chip.base;
  chip_rev = chip.revision;
  is_60mhz = chip.is_60mhz;
  is_open = false;
  baud_rate = 9600;
  line_control = record { stop_bits = 0; parity = 0; word_length = 8 };
  hand_flow = record { control_handshake = 0; flow_replace = 0; xon_limit = 0; xoff_limit = 0 };
  special_chars = record {
    eof_char = 0;
    error_char = 0;
    break_char = 0;
    event_char = 0;
    xon_char = 0;
    xoff_char = 0;
  };
  timeouts = record {
    read_interval = 0;
    read_multiplier = 0;
    read_constant = 0;
    write_multiplier = 0;
    write_constant = 0;
  };
  modem_control = 0;
  wait_mask = 0;
  shadow_msvr = 0;
  perf_stats = record {
    received = 0;
    transmitted = 0;
    frame_errors = 0;
    serial_overruns = 0;
    buffer_overruns = 0;
    parity_errors = 0;
  };
  interrupt = false;
  interrupt_connected = false;
  rx = Ring.zeroed;
  tx = Ring.zeroed;
  read_queue = [];
  write_queue = [];
  wait_irp = none;
  event_history = 0;
  sym_link_name = none;
  device_name = none;
  com_port_number = 0;
  saved = record {
    valid = false;
    cor1 = 0;
    cor2 = 0;
    cor3 = 0;
    tcor = 0;
    tbpr = 0;
    rcor = 0;
    rbpr = 0;
    srer = 0;
    msvr = 0;
    schr1 = 0;
    schr2 = 0;
  };
}

-- `portIndex` and `ChildPDOs`
abbrev pub Kids : Type 0
Kids = ℕ × List (Option Port)

module _ (create_device : ℕ → ℕ → Status) where
  -- The inner loop, from the channel `chan` on: the channels left. A port whose device object could
  -- not be made is left out, and gets no index.
  unfoldable pub create_on_chip : ℕ → ℕ → ℕ → Chip → Kids → Kids
  create_on_chip zero chan i chip kids = kids
  create_on_chip (suc n) chan i chip (index, ports) =
      let made : Bool = nt_success (create_device i chan) in
      create_on_chip n (chan + 1) i chip (
        if made
        then (index + 1, set ports index (some (new_port index i chip chan)))
        else (index, ports))

  -- The outer loop, from the chip number `i` on.
  unfoldable pub create_on_chips : ℕ → List Chip → Kids → Kids
  create_on_chips i [] kids = kids
  create_on_chips i (chip ∷ chips) kids =
      create_on_chips (i + 1) chips (create_on_chip Cd1400.ports_per_chip 0 i chip kids)

  -- `CyCreateChildPDOs`
  unfoldable pub create_child_pdos : Card → Status × Card
  create_child_pdos c =
      let kids : Kids = create_on_chips 0 (take c.num_chips c.chips) (0, c.child_pdos) in
      (
        if ltb 0 kids.0 then Status.success else Status.device_does_not_exist,
        record c { num_pdos = kids.0; child_pdos = kids.1 },
      )
