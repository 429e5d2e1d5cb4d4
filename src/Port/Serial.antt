-- ===== src/Port/Serial.antt =====
-- The structures and flags of ntddser.h that the driver uses (the flags of events, purges and
-- modem status as fossil/cyclades/inc/owcompat.h spells them out), NTSTATUS values, and IRPs.
use netmodem2irc.Base.{ℕ, Bool, true, false, List}

-- The NTSTATUS values that the driver returns or receives.
pub data Status : Type 0 where
  success pending : Status
  invalid_device_request invalid_device_state invalid_parameter buffer_too_small : Status
  cancelled device_not_ready access_denied delete_pending : Status
  unsuccessful insufficient_resources device_does_not_exist data_overrun : Status
  no_such_device : Status

-- `NT_SUCCESS`
abbrev pub nt_success : Status → Bool
nt_success Status.success = true
nt_success Status.pending = true
nt_success _ = false

-- An IRP: the system buffer, the length from its stack location, `DriverContext[0]` (how much of
-- a write is done), `DriverContext[1]` (the deadline of a read) and its IoStatus.
pub record Irp : Type 0 where
  pub id : ℕ
  pub buffer : List ℕ
  pub length : ℕ
  pub offset : ℕ
  pub deadline : ℕ
  pub status : Status
  pub information : ℕ

-- `Irp->IoStatus.Status = s; Irp->IoStatus.Information = n;`
abbrev pub finish : Status → ℕ → Irp → Irp
finish s n irp = record irp { status = s; information = n }

-- `SERIALPERF_STATS`
pub record Stats : Type 0 where
  pub received : ℕ
  pub transmitted : ℕ
  pub frame_errors : ℕ
  pub serial_overruns : ℕ
  pub buffer_overruns : ℕ
  pub parity_errors : ℕ

-- `SERIAL_LINE_CONTROL`
pub record LineControl : Type 0 where
  pub stop_bits : ℕ
  pub parity : ℕ
  pub word_length : ℕ

-- `SERIAL_HANDFLOW`
pub record HandFlow : Type 0 where
  pub control_handshake : ℕ
  pub flow_replace : ℕ
  pub xon_limit : ℕ
  pub xoff_limit : ℕ

-- `SERIAL_CHARS`
pub record Chars : Type 0 where
  pub eof_char : ℕ
  pub error_char : ℕ
  pub break_char : ℕ
  pub event_char : ℕ
  pub xon_char : ℕ
  pub xoff_char : ℕ

-- `SERIAL_TIMEOUTS`
pub record Timeouts : Type 0 where
  pub read_interval : ℕ
  pub read_multiplier : ℕ
  pub read_constant : ℕ
  pub write_multiplier : ℕ
  pub write_constant : ℕ

-- `SERIAL_EV_*`
abbrev pub ev_rxchar : ℕ
ev_rxchar = 0x0001

abbrev pub ev_txempty : ℕ
ev_txempty = 0x0004

abbrev pub ev_cts : ℕ
ev_cts = 0x0008

abbrev pub ev_dsr : ℕ
ev_dsr = 0x0010

abbrev pub ev_rlsd : ℕ
ev_rlsd = 0x0020

abbrev pub ev_break : ℕ
ev_break = 0x0040

abbrev pub ev_err : ℕ
ev_err = 0x0080

abbrev pub ev_ring : ℕ
ev_ring = 0x0100

-- `SERIAL_PURGE_*`
abbrev pub purge_txabort : ℕ
purge_txabort = 0x01

abbrev pub purge_rxabort : ℕ
purge_rxabort = 0x02

abbrev pub purge_txclear : ℕ
purge_txclear = 0x04

abbrev pub purge_rxclear : ℕ
purge_rxclear = 0x08

-- `SERIAL_MSR_*`
abbrev pub msr_cts : ℕ
msr_cts = 0x10

abbrev pub msr_dsr : ℕ
msr_dsr = 0x20

abbrev pub msr_ri : ℕ
msr_ri = 0x40

abbrev pub msr_dcd : ℕ
msr_dcd = 0x80

-- `SERIAL_DTR_STATE`, `SERIAL_RTS_STATE`
abbrev pub dtr_state : ℕ
dtr_state = 0x01

abbrev pub rts_state : ℕ
rts_state = 0x02

-- `SERIAL_CTS_HANDSHAKE` of ControlHandShake; `SERIAL_AUTO_TRANSMIT`, `SERIAL_RTS_MASK` and
-- `SERIAL_RTS_HANDSHAKE` of FlowReplace
abbrev pub cts_handshake : ℕ
cts_handshake = 0x08

abbrev pub auto_transmit : ℕ
auto_transmit = 0x01

abbrev pub rts_mask : ℕ
rts_mask = 0xc0

abbrev pub rts_handshake : ℕ
rts_handshake = 0x80
