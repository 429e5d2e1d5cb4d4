-- ===== src/EventLog.antt =====
-- fossil/cyclades/src/cylog.c: the entries that the driver writes to the event log.
pub mod Fits
use netmodem2irc.Base.{
  ℕ, ◌+◌, ◌-◌, ◌*◌, ◌/◌, ◌%◌, ◌^◌, Bool, true, false, not, ◌&&◌, Option, some, none, List, [], ◌∷◌,
  ltb, take, if◌then◌else◌,
}
use netmodem2irc.Port.{Status}

-- sizeof(IO_ERROR_LOG_PACKET) and ERROR_LOG_MAXIMUM_SIZE, and the ULONG of a status.
pub record Ddk : Type 0 where
  pub packet_size : ℕ
  pub maximum_size : ℕ
  pub ulong : Status → ℕ

-- The arguments of `CyLogEvent` but for the device object; the data is `none` where it is NULL.
pub record Event : Type 0 where
  pub error_code : ℕ
  pub unique_id : ℕ
  pub dump_data : Option (List ℕ)
  pub dump_count : ℕ
  pub nt_status : Status

-- The log entry: its size as it is allocated, and its fields. What is copied into DumpData is
-- `dump`.
pub record Entry : Type 0 where
  pub size : ℕ
  pub code : ℕ
  pub unique : ℕ
  pub final_status : Status
  pub dump_data_size : ℕ
  pub dump : List ℕ

-- The loop that fills in DumpData, which a NULL skips.
unfoldable pub copied : ℕ → Option (List ℕ) → List ℕ
copied count none = []
copied count (some data_words) = take count data_words

module _ (ddk : Ddk) where
  -- `packetSize`, a UCHAR, before it is capped
  unfoldable pub full_size : ℕ → ℕ
  full_size count = (ddk.packet_size + count * 4 % 256) % 256

  -- `packetSize` and `DumpCount` behind the cap
  unfoldable pub cap : ℕ → ℕ × ℕ
  cap count =
      if ltb ddk.maximum_size (full_size count)
      then (ddk.maximum_size, (ddk.maximum_size - ddk.packet_size) / 4)
      else (full_size count, count)

  -- The filled entry
  unfoldable pub entry_of : Event → Entry
  entry_of e = record {
    size = (cap e.dump_count).0;
    code = e.error_code;
    unique = e.unique_id;
    final_status = e.nt_status;
    dump_data_size = (cap e.dump_count).1 * 4 % 2 ^ 16;
    dump = copied (cap e.dump_count).1 e.dump_data;
  }

  -- `CyLogEvent`: the entry that it writes, if IoAllocateErrorLogEntry gives it one.
  unfoldable pub log_event : Bool → Event → Option Entry
  log_event allocated e = if not allocated then none else some (entry_of e)

-- The routines that log an event, with their arguments.
pub data Occasion : Type 0 where
  driver_loaded : ℕ → ℕ → Occasion
  driver_unloaded : Occasion
  port_opened : ℕ → ℕ → ℕ → Occasion
  port_closed : ℕ → ℕ → ℕ → ℕ → Occasion
  buffer_overrun : ℕ → ℕ → Occasion
  fifo_overrun : ℕ → Occasion
  parity_errors framing_errors : ℕ → ℕ → Occasion
  no_chips_found : ℕ → Occasion
  memory_map_failed : ℕ → ℕ → Occasion
  interrupt_connect_failed : Status → Occasion
  power_suspend power_resume : ℕ → Occasion

-- `LowPart` and `HighPart` of a PHYSICAL_ADDRESS
abbrev low_part : ℕ → ℕ
low_part address = address % 2 ^ 32

abbrev high_part : ℕ → ℕ
high_part address = address / 2 ^ 32

module _ (ddk : Ddk) where
  abbrev with_data : ℕ → ℕ → List ℕ → ℕ → Status → Event
  with_data code id words count s = record {
    error_code = code;
    unique_id = id;
    dump_data = some words;
    dump_count = count;
    nt_status = s;
  }

  -- `CyLogDriverLoaded` and its siblings: what each gives to `CyLogEvent`.
  unfoldable pub event_of : Occasion → Event
  event_of (Occasion.driver_loaded chips ports) =
      with_data 0x41000001 0 (chips ∷ ports ∷ []) 2 Status.success
  event_of Occasion.driver_unloaded = record {
    error_code = 0x41000006;
    unique_id = 0;
    dump_data = none;
    dump_count = 0;
    nt_status = Status.success;
  }
  event_of (Occasion.port_opened i com_number baud) =
      with_data 0x41000002 i (i ∷ com_number ∷ baud ∷ []) 3 Status.success
  event_of (Occasion.port_closed i com_number tx rx) =
      with_data 0x41000003 i (i ∷ com_number ∷ tx ∷ rx ∷ []) 4 Status.success
  event_of (Occasion.buffer_overrun i lost) =
      with_data 0x81000100 i (i ∷ lost ∷ []) 2 Status.data_overrun
  event_of (Occasion.fifo_overrun i) = with_data 0x81000101 i (i ∷ []) 1 Status.data_overrun
  event_of (Occasion.parity_errors i n) = with_data 0x81000102 i (i ∷ n ∷ []) 2 Status.success
  event_of (Occasion.framing_errors i n) = with_data 0x81000103 i (i ∷ n ∷ []) 2 Status.success
  event_of (Occasion.no_chips_found address) =
      with_data 0xC1000200 0 (low_part address ∷ high_part address ∷ []) 2
        Status.device_does_not_exist
  event_of (Occasion.memory_map_failed address len) =
      with_data 0xC1000201 0 (low_part address ∷ high_part address ∷ len ∷ []) 3
        Status.insufficient_resources
  event_of (Occasion.interrupt_connect_failed s) = with_data 0xC1000202 0 (ddk.ulong s ∷ []) 1 s
  event_of (Occasion.power_suspend i) = with_data 0x41000004 i (i ∷ []) 1 Status.success
  event_of (Occasion.power_resume i) = with_data 0x41000005 i (i ∷ []) 1 Status.success
