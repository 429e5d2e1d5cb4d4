-- ===== src/System.antt =====
-- What can happen to a port while its driver runs: the requests, DPCs and PnP and power events of all
-- parts, one after the other. CyInterruptService is no step, as no code hands it to IoConnectInterrupt.
pub mod Idle
pub mod Whole
pub mod Cards
pub mod Keeping
use netmodem2irc.Base.{ℕ, Bool, List}
use netmodem2irc.Bus.{Device, Log}
use netmodem2irc.Port.{Port, Irp, Status}
use netmodem2irc.Card.{Card, Chip}
use netmodem2irc.Enum.Children.{new_port}
use netmodem2irc.Serial.{dispatch_create, dispatch_close, dispatch_cleanup}
use netmodem2irc.Read.{dispatch_read, read_dpc}
use netmodem2irc.Write.{dispatch_write, write_dpc}
use netmodem2irc.Ioctl.Properties.{Ntddser}
use netmodem2irc.Ioctl.{Code, dispatch_ioctl}
use netmodem2irc.Power
use netmodem2irc.Power.{dispatch_power}
use netmodem2irc.Pdo
use netmodem2irc.Pdo.{Kernel, dispatch_pnp}
use netmodem2irc.Isr.Connect.{connect_interrupt, disconnect_interrupt}

-- One call of the driver on a port, whatever the kernel and the chip answer.
pub data Step (dev : Device) (p : Port) : Port → Type 0 where
  create :
      (lock : Status) (irp : Irp) (log : Log)
      → Step dev p (dispatch_create dev lock irp p log).0.port
  close : (irp : Irp) (log : Log) → Step dev p (dispatch_close dev irp p log).0.port
  cleanup : (lock : Status) (irp : Irp) → Step dev p (dispatch_cleanup lock irp p).port
  read : (lock : Status) (tick : ℕ) (irp : Irp) → Step dev p (dispatch_read lock tick irp p).port
  write :
      (lock : Status) (irp : Irp) (log : Log)
      → Step dev p (dispatch_write dev lock irp p log).0.port
  control :
      (ser : Ntddser) (lock : Status) (code : Code) (in_len out_len : ℕ) (irp : Irp) (log : Log)
      → Step dev p (dispatch_ioctl dev ser lock code in_len out_len irp p log).0.port
  complete_reads : (tick : ℕ) → Step dev p (read_dpc tick p).0
  complete_writes : (log : Log) → Step dev p (write_dpc dev p log).0.0
  power :
      (lower : Status) (minor : Power.Minor) (irp : Irp) (log : Log)
      → Step dev p (dispatch_power dev lower minor irp p log).0.port
  pnp :
      (lock : Status) (k : Kernel) (size : ℕ) (minor : Pdo.Minor) (irp : Irp) (log : Log)
      → Step dev p (dispatch_pnp dev lock k size minor irp p log).0.0.port
  connect : (c : Card) → Step dev p (connect_interrupt c p).1
  disconnect : Step dev p (disconnect_interrupt p)

-- What a port can become that CyCreateChildPDOs has made.
pub data Reach (dev : Device) : Port → Type 0 where
  start : (index i : ℕ) (chip : Chip) (chan : ℕ) → Reach dev (new_port index i chip chan)
  next : (p q : Port) → Reach dev p → Step dev p q → Reach dev q
