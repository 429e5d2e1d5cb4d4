-- ===== src/Port.antt =====
-- CY_PDO_EXT, the extension of one serial port (fossil/cyclades/inc/cycommon.h), the IRPs that
-- wait on it and the statuses that the dispatch routines return.
mod Serial
mod Device
pub mod Queue
pub mod Settles
pub mod Pending
pub mod Whole
pub mod Keeps
pub use Serial.*
pub use Device.*
use netmodem2irc.Base.{ℕ, ◌+◌, ◌-◌, ◌^◌, ◌%◌, Bool, true, false, Option, List, if◌then◌else◌}
use netmodem2irc.Ring
use netmodem2irc.Ring.{Ring}

-- The part of CY_PDO_EXT that the port's handlers read or write. A pointer that is only tested
-- for NULL is a Bool; `lock_count` counts the acquisitions of RemoveLock that are not released. A
-- name that is there is given by the COM number in it, `\DosDevices\COM%lu` and
-- `\Device\CycladesCOM%lu`.
pub record Port : Type 0 where
  pub is_fdo : Bool
  pub pnp_state : PnpState
  pub previous_pnp_state : PnpState
  pub lock_count : ℕ
  pub system_power_state : ℕ
  pub device_power_state : DevicePower
  pub port_index : ℕ
  pub chip_index : ℕ
  pub channel : ℕ
  pub chip_base : ℕ
  pub chip_rev : ℕ
  pub is_60mhz : Bool
  pub is_open : Bool
  pub baud_rate : ℕ
  pub line_control : LineControl
  pub hand_flow : HandFlow
  pub special_chars : Chars
  pub timeouts : Timeouts
  pub modem_control : ℕ
  pub wait_mask : ℕ
  pub shadow_msvr : ℕ
  pub perf_stats : Stats
  pub interrupt : Bool
  pub interrupt_connected : Bool
  pub rx : Ring
  pub tx : Ring
  pub read_queue : List Irp
  pub write_queue : List Irp
  pub wait_irp : Option Irp
  pub event_history : ℕ
  pub sym_link_name : Option ℕ
  pub device_name : Option ℕ
  pub com_port_number : ℕ
  pub saved : Saved

-- What a port's handlers keep: both rings are well formed.
pub record IsValid (p : Port) : Type 0 where
  pub rx_valid : Ring.Fifo.IsValid p.rx
  pub tx_valid : Ring.Fifo.IsValid p.tx

-- What a dispatch routine leaves: the NTSTATUS that it returns, the port, and the IRPs that it
-- passed to IoCompleteRequest, in order.
pub record Outcome : Type 0 where
  pub result : Status
  pub port : Port
  pub completed : List Irp

-- IoAcquireRemoveLock has granted the lock; IoReleaseRemoveLock.
abbrev pub acquire : Port → Port
acquire p = record p { lock_count = p.lock_count + 1 }

abbrev pub release : Port → Port
release p = record p { lock_count = p.lock_count - 1 }
