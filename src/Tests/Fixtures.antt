-- ===== src/Tests/Fixtures.antt =====
-- A port, a card and requests for the examples.
use netmodem2irc.Base.{
  List, Bool, length, ◌+◌, ◌-◌, ◌*◌, ◌≡◌, sym, ℕ, true, false, none, some, [], ◌∷◌, set, replicate,
  length-set, length-replicate, refl, ◌∙◌, arith,
}
use netmodem2irc.Bus.{Device}
use netmodem2irc.Ring.{Ring, ring_size}
use netmodem2irc.Ring
use netmodem2irc.Port.{Port, PnpState, DevicePower, IsValid, Irp, Status}
use netmodem2irc.Card.{Card, Chip}
use netmodem2irc.Enum.Children.{new_port}
use netmodem2irc.Enum
use netmodem2irc.Pdo
use netmodem2irc.Bus.{Log, rd, wr, read_reg}
use netmodem2irc.Bus.Memory.{selected, held}
use netmodem2irc.Power.Resume.{Remembers}
use netmodem2irc.Linux.System.{Os, pos}
use netmodem2irc.Linux.{Comm, closed}
use netmodem2irc.EventLog.{Ddk}
use netmodem2irc.Ioctl.Properties.{Ntddser}
use netmodem2irc.Loopback.System.{Line, Call, Calls}
use netmodem2irc.Install.System.{Windows, Request}

-- A chip that answers 1 to every read.
abbrev pub stub : Device
stub = record { bus_index = 0; answer = λ log a. 1 }

-- A ring that holds 65 and 66.
abbrev pub two_bytes : Ring
two_bytes = record {
  buf = set (set (replicate ring_size 0) 0 65) 1 66;
  head = 2;
  tail = 0;
  count = 2;
}

pub two_bytes-IsValid : Ring.Fifo.IsValid two_bytes
two_bytes-IsValid = record {
  storage =
      length-set {A = ℕ} (set (replicate ring_size 0) 0 65) 1 66
      ∙ (length-set {A = ℕ} (replicate ring_size 0) 0 65 ∙ length-replicate {A = ℕ} ring_size 0);
  tail_in = omega arith;
  count_in = omega arith;
  head_at = refl;
}

-- A ring with room for one byte.
abbrev pub room_for_one : Ring
room_for_one = record { buf = replicate ring_size 0; head = 4095; tail = 0; count = 4095 }

pub room_for_one-IsValid : Ring.Fifo.IsValid room_for_one
room_for_one-IsValid = record {
  storage = length-replicate {A = ℕ} ring_size 0;
  tail_in = omega arith;
  count_in = omega arith;
  head_at = refl;
}

abbrev pub request : Irp
request = record {
  id = 7;
  buffer = 1 ∷ 2 ∷ 3 ∷ 4 ∷ [];
  length = 3;
  offset = 0;
  deadline = 0;
  status = Status.success;
  information = 0;
}

abbrev pub later : Irp
later = record request { id = 8 }

-- An open port, with bytes in both rings and requests in both queues.
abbrev pub port : Port
port = record {
  is_fdo = false;
  pnp_state = PnpState.started;
  previous_pnp_state = PnpState.not_started;
  lock_count = 1;
  system_power_state = 1;
  device_power_state = DevicePower.d0;
  port_index = 0;
  chip_index = 0;
  channel = 0;
  chip_base = 0x1000;
  chip_rev = 0x46;
  is_60mhz = false;
  is_open = true;
  baud_rate = 9600;
  line_control = record { stop_bits = 0; parity = 0; word_length = 8 };
  hand_flow = record { control_handshake = 0; flow_replace = 0; xon_limit = 0; xoff_limit = 0 };
  special_chars = record {
    eof_char = 0;
    error_char = 0;
    break_char = 0;
    event_char = 0;
    xon_char = 17;
    xoff_char = 19;
  };
  timeouts = record {
    read_interval = 10;
    read_multiplier = 0;
    read_constant = 1000;
    write_multiplier = 0;
    write_constant = 0;
  };
  modem_control = 3;
  wait_mask = 1;
  shadow_msvr = 0;
  perf_stats = record {
    received = 0;
    transmitted = 0;
    frame_errors = 0;
    serial_overruns = 0;
    buffer_overruns = 0;
    parity_errors = 0;
  };
  interrupt = true;
  interrupt_connected = true;
  rx = two_bytes;
  tx = two_bytes;
  read_queue = request ∷ later ∷ [];
  write_queue = request ∷ later ∷ [];
  wait_irp = none;
  event_history = 0;
  sym_link_name = none;
  device_name = none;
  com_port_number = 0;
  saved = record {
    valid = false;
    cor1 = 0;
    cor2 = 0;
    cor3 = 0;
    tcor = 0;
    tbpr = 0;
    rcor = 0;
    rbpr = 0;
    srer = 0;
    msvr = 0;
    schr1 = 0;
    schr2 = 0;
  };
}

pub port-IsValid : IsValid port
port-IsValid = record { rx_valid = two_bytes-IsValid; tx_valid = two_bytes-IsValid }

-- The port with a transmit ring that has room for one byte.
abbrev pub full_port : Port
full_port = record port { tx = room_for_one }

pub full_port-IsValid : IsValid full_port
full_port-IsValid = record { rx_valid = two_bytes-IsValid; tx_valid = room_for_one-IsValid }

abbrev pub card : Card
card = record {
  pnp_state = PnpState.started;
  previous_pnp_state = PnpState.not_started;
  lock_count = 1;
  physical_base = 0xD4000;
  card_base = 0x1000;
  mapped_length = 0x2000;
  num_chips = 1;
  bus_index = 0;
  interrupt_level = 5;
  interrupt_vector = 5;
  interrupt_affinity = 1;
  interrupt_latched = true;
  chips = record { base = 0x1000; revision = 0x46; is_60mhz = false } ∷ [];
  started = true;
  num_pdos = 2;
  child_pdos = some port ∷ none ∷ [];
}

-- A kernel that grants a card all that it asks for.
abbrev pub card_kernel : Enum.Kernel
card_kernel = record {
  create_device = λ i j. Status.success;
  map_io_space = λ address len. some address;
  pool = true;
}

-- A card before its start, with 32 places for ports.
abbrev pub new_card : Card
new_card = record card {
  pnp_state = PnpState.not_started;
  num_chips = 0;
  chips = [];
  num_pdos = 0;
  child_pdos = replicate 32 none;
  started = false;
}

-- A kernel that grants a port all that it asks for.
abbrev pub port_kernel : Pdo.Kernel
port_kernel = record {
  read_csq = Status.success;
  write_csq = Status.success;
  link_buffer = true;
  name_buffer = true;
  query_buffer = true;
}

-- A chip that gives back what its registers hold for the selected channel.
abbrev pub memory : Device
memory = record {
  bus_index = 0;
  answer = λ log a. held stub 0x1000 (selected stub 0x1000 log) (a - 0x1000) log;
}

selected-memory : (log : Log) → selected memory 0x1000 log ≡ selected stub 0x1000 log
unfolding selected
selected-memory [] = refl
selected-memory (rd a v ∷ log) = selected-memory log
selected-memory (wr a v ∷ log) = rw (selected-memory log) refl

held-memory :
    (chan reg : ℕ) (log : Log) → held memory 0x1000 chan reg log ≡ held stub 0x1000 chan reg log
unfolding held
held-memory chan reg [] = refl
held-memory chan reg (rd a v ∷ log) = held-memory chan reg log
held-memory chan reg (wr a v ∷ log) = rw (held-memory chan reg log, selected-memory log) refl

pub memory-Remembers : Remembers memory port
unfolding read_reg
memory-Remembers reg field of log st at =
    let there : 0x1000 + reg * 1 - 0x1000 ≡ reg = omega arith in
    rw (there, held-memory 0 reg log, sym (selected-memory log), at) refl

-- A system that accepts one connection, on which one letter waits at each read.
abbrev pub os : Os
os = record {
  pcbfd = none;
  pcbport = some (pos 7000);
  nmport = none;
  on_socket = λ calls. pos 3;
  on_bind = λ calls fd address. pos 0;
  on_accept = λ calls fd. pos 4;
  on_connect = λ calls fd address. pos 0;
  on_select = λ calls fd usec. pos 1;
  on_read = λ calls fd n. (pos 1, 65 ∷ []);
  on_write = λ calls fd bytes. pos 0;
  on_recv = λ calls fd. pos 1;
}

abbrev pub comm : Comm
comm = record closed { cd_okay = 1; cd_up = 1; comm_fd = pos 4 }

abbrev pub ddk : Ddk
ddk = record { packet_size = 48; maximum_size = 152; ulong = λ s. 0 }

abbrev pub card_chip : Chip
card_chip = record { base = 0x1000; revision = 0x46; is_60mhz = false }

-- A port as a start leaves it that was just created.
abbrev pub pdo_port : Port
pdo_port =
    (Pdo.dispatch_pnp stub Status.success port_kernel 64 Pdo.Minor.start_device request
      (new_port 0 0 card_chip 1) []).0.0.port

-- A Windows that grants everything but the copy of the INF.
abbrev pub windows : Windows
windows = record {
  answer = λ calls r. elim r [ Request.copy_inf ↦ 0 | _ ↦ 2 ];
  last_error = λ calls. 0;
  service_does_not_exist = 1060;
  service_not_active = 1062;
  file_not_found = 2;
  service_stopped = 1;
  max_path = 260;
}

-- The bytes that were written last, and whether a line was set last.
abbrev last_write : Calls → List ℕ
last_write [] = []
last_write (Call.write bytes ∷ calls) = bytes
last_write (_ ∷ calls) = last_write calls

abbrev dtr_set : Calls → Bool
dtr_set [] = false
dtr_set (Call.set_dtr ∷ calls) = true
dtr_set (Call.clear_dtr ∷ calls) = false
dtr_set (_ ∷ calls) = dtr_set calls

abbrev rts_set : Calls → Bool
rts_set [] = false
rts_set (Call.set_rts ∷ calls) = true
rts_set (Call.clear_rts ∷ calls) = false
rts_set (_ ∷ calls) = rts_set calls

-- A driver that works, with a loopback cable.
abbrev pub looped : Line
looped = record {
  succeeds = λ calls c. true;
  written = λ calls bytes. some (length bytes);
  read_bytes = λ calls n. some (last_write calls);
  settings = λ calls. (7, true);
  dsr_on = dtr_set;
  cts_on = rts_set;
}

-- Every macro 1, and a structure of two bytes.
abbrev pub ser : Ntddser
ser = record {
  flag = λ f. 1;
  sizeof_commprop = 2;
  bytes = λ c. c.packet_length ∷ c.settable_data ∷ [];
  sized = λ c. refl;
}
