-- ===== src/Ioctl/Switch.antt =====
-- What the switch of `CyDispatchIoCtl` leaves for the end of the routine.
use netmodem2irc.Base.{ℕ, List, []}
use netmodem2irc.Port.{Port, Irp, Status}

pub data Handled : Type 0 where
  -- `status`, `info`, the IRP with its buffer, the port, and other IRPs that were completed
  answered : Status → ℕ → Irp → Port → List Irp → Handled
  -- the IRP was pended, as WAIT_ON_MASK does
  pended : Port → Handled

-- `status = s; break;`
abbrev pub refused : Status → Irp → Port → Handled
refused s irp p = Handled.answered s 0 irp p []

-- `break;` with the initial status, STATUS_SUCCESS
abbrev pub accepted : Irp → Port → Handled
accepted irp p = Handled.answered Status.success 0 irp p []
