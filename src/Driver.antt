-- ===== src/Driver.antt =====
-- `DriverEntry` (fossil/cyclades/src/cyenum.c): the table by which the I/O manager finds the dispatch
-- routine of a request.
use netmodem2irc.Base.{ℕ, Bool, true}

-- IRP_MJ_*; `other` are those that the driver does not set.
pub data Major : Type 0 where
  pnp power create close read write device_control cleanup : Major
  other : ℕ → Major

-- A dispatch routine: those of the driver, and what the I/O manager puts into the table before.
pub data Routine : Type 0 where
  dispatch_pnp dispatch_power dispatch_create dispatch_close : Routine
  dispatch_read dispatch_write dispatch_ioctl dispatch_cleanup : Routine
  invalid_device_request : Routine

-- DRIVER_OBJECT, with whether `AddDevice` is CyAddDevice.
pub record DriverObject : Type 0 where
  pub major_function : Major → Routine
  pub adds_device : Bool

-- The writes to the table.
unfoldable pub major_table : (Major → Routine) → Major → Routine
major_table before Major.pnp = Routine.dispatch_pnp
major_table before Major.power = Routine.dispatch_power
major_table before Major.create = Routine.dispatch_create
major_table before Major.close = Routine.dispatch_close
major_table before Major.read = Routine.dispatch_read
major_table before Major.write = Routine.dispatch_write
major_table before Major.device_control = Routine.dispatch_ioctl
major_table before Major.cleanup = Routine.dispatch_cleanup
major_table before (Major.other n) = before (Major.other n)

-- `DriverEntry`, which returns STATUS_SUCCESS
unfoldable pub driver_entry : DriverObject → DriverObject
unfolding major_table
driver_entry d = record { major_function = major_table d.major_function; adds_device = true }
