-- ===== src/Lib.antt =====
-- The WDM serial port driver for Cyclades Cyclom-Y cards (fossil/cyclades), whose ports are channels
-- of CD1400 chips, and the serial functions of PCBoard over a Linux socket (fossil/linux).
--
-- A card has chips of four channels each, and each channel is one serial port. The interrupt service
-- routine moves bytes between the chips and two ring buffers of each port, RxBuf and TxBuf, and
-- queues DPCs. Read and write requests take bytes from RxBuf and put bytes into TxBuf; what cannot
-- be done at once waits in the read or the write queue of the port, and the DPCs complete it. Create,
-- close and cleanup requests set up and shut down the channel, and device control requests set the
-- line, flow control, modem lines, timeouts and event masks. The PnP manager starts a card, which
-- finds its memory and its chips and makes a port for each channel, and then starts the ports; the
-- power manager suspends a port, which saves the registers of its channel, and resumes it. The
-- serial functions of PCBoard do the same work for a program on Linux over one socket.
--
-- Base: shared names, C arrays as lists, Boolean tests, bits of words, and the routines that keep a log
--   of their outside calls (Base.Logged), which Bus and the System modules below use.
-- Cd1400: registers and bits of fossil/cyclades/inc/cd1400.h.
-- Bus: CyReadReg, CyWriteReg and CySelectChannel of fossil/cyclades/inc/cycommon.h. A routine that
--   touches the chip returns the log of its accesses, and the chip answers a read with any function
--   of the log (Device). Bus.Session says when the accesses of a routine stay on one channel.
-- Ring: the ring buffers of CY_PDO_EXT and the statements that store or fetch a byte.
-- Port: CY_PDO_EXT as the record Port; IRPs, statuses and the cancel-safe queues of
--   fossil/cyclades/src/cyserial.c; what a handler owes for the IRPs it is given (Port.Settles,
--   Port.Pending).
-- Serial: create, close and cleanup (fossil/cyclades/src/cyserial.c).
-- Isr: CyInterruptService and its services (fossil/cyclades/src/cyisr.c).
-- Read, Write: the dispatch routines and DPCs of fossil/cyclades/src/cyread.c and cywrite.c.
-- Ioctl: CyDispatchIoCtl and its callbacks (fossil/cyclades/src/cyioctl.c, and CySyncReadMSVR and
--   CySyncPurgeBuffers of cyisr.c); Ioctl.Bytes lays the structures of ntddser.h over the system
--   buffer, and Ioctl.Properties has what a port tells of itself.
-- Card: CY_FDO_EXT as the record Card. Enum: CyFdoPnP, CyDispatchPnP and CyAddDevice
--   (fossil/cyclades/src/cyenum.c), with CyScanForChips in Enum.Chips, CyCreateChildPDOs in
--   Enum.Children and the resources of START_DEVICE in Enum.Resources.
-- Pdo: CyPdoPnP and its queries (fossil/cyclades/src/cypdo.c).
-- Power: CyDispatchPower and its callbacks (fossil/cyclades/src/cypower.c). Bus.Memory reads the
--   registers of a channel off a log of accesses.
-- EventLog: CyLogEvent and the routines that call it (fossil/cyclades/src/cylog.c).
-- Linux: ASYNC_INIT to ASYNC_TURNOFFDTR of fossil/linux/async_linux.c. Linux.System has the system
--   calls: a routine returns the log of its calls, and the system answers each with any function of
--   the log (Os). Linux.Session has the sequences of calls that a program can make.
-- Install: fossil/cyclades/tools/cyinstall.c, the program that installs and removes the driver, with
--   the calls of Windows in Install.System as those of Linux are in Linux.System; DoStatus and main
--   are in Install.Main.
-- Loopback: fossil/cyclades/test/cyloopback.c, the test of a port with a loopback cable, with the
--   calls on the port in Loopback.System.
-- Detect, FossilTest, Stress: fossil/cyclades/test/cytest.c, cyftst.c and cystress.c, the programs that
--   look for the chips of a card, test a FOSSIL driver and load the driver. The calls of INT 14h and
--   of Windows are logged as in Install; Stress.Threads has the threads of the last phase of cystress.c
--   as a step relation, in which they and the phase move in any order.
-- CoInstall: fossil/cyclades/tools/cycoinstall.c, the co-installer that names a port.
-- Driver: DriverEntry (fossil/cyclades/src/cyenum.c) and its table of dispatch routines.
-- System: the steps that a port can make, over all parts, and what it can reach; System.Cards has the
--   steps of a card, which are those of its ports and the interrupts. Port.Whole, Port.Keeps and
--   Card.Stays say what these steps leave as it is.
-- Tests: the theorems at concrete inputs.
--
-- UCHAR and ULONG values are natural numbers with the wrap-around written out where the code can
-- reach it. The loops of the services and of the copies recurse on the rounds that the code allows
-- itself (256 for the interrupt, 12 for a service, the length of a request for a copy); the loops of
-- the DPCs and of cancellation recurse on the queue, which each round shortens by one; the chip scan
-- on its eight places, the loops over chips, channels, resources and addresses on their lists, a line
-- on the room in its buffer and the clearing of the input on its 64 rounds. Two loops have a bound on
-- their rounds: read_all of Loopback the bytes that are missing, which every round that goes on makes
-- fewer (Loopback.Reads shows that it is enough), and flood of Stress a number that is enough where
-- the clock advances (Stress.Flood).
--
-- A routine that runs under KeSynchronizeExecution or a lock is one step. What
-- IoAcquireRemoveLock returns and the tick count are arguments. IoCsqRemoveNextIrp takes what the
-- peek callback sees. Delays and trace output are left out. The macros of ntddser.h and the layout
-- of SERIAL_COMMPROP are a parameter (Ioctl.Properties.Ntddser), as are the statuses of the kernel
-- calls of PnP (Enum.Kernel, Pdo.Kernel), the status that a lower driver returns, and the sizes of
-- the event log's structures. A name that a port is given stands for its COM number. Not modelled:
-- the functions of async_linux.c without effect on a socket; the debug and trace macros, and a
-- port structure that no source uses; the parts in Pascal and assembler; the copy of Inno Setup,
-- which is third-party code.
pub mod Base
pub mod Bus
pub mod Card
pub mod Cd1400
pub mod CoInstall
pub mod Detect
pub mod Driver
pub mod Enum
pub mod EventLog
pub mod FossilTest
pub mod Install
pub mod Ioctl
pub mod Isr
pub mod Linux
pub mod Loopback
pub mod Pdo
pub mod Port
pub mod Power
pub mod Read
pub mod Ring
pub mod Serial
pub mod Stress
pub mod System
pub mod Tests
pub mod Write
