-- ===== src/System/Idle.antt =====
-- Nothing connects a port's interrupt, so no byte ever gets into a ring.
use netmodem2irc.Base.{ℕ, refl, List, [], ◌∷◌, arith}
use netmodem2irc.Bus.{Device, Log}
use netmodem2irc.Ring
use netmodem2irc.Port.{Port, Irp, Status}
use netmodem2irc.Read.{dispatch_read, read_open, queue_read, read_dpc, read_dpc_loop, dpc_read}
use netmodem2irc.Write.{
  dispatch_write, write_open, queue_write, write_dpc, write_dpc_loop, dpc_write,
}
use netmodem2irc.Enum.Children.{new_port}
use netmodem2irc.System.{Step, Reach}
use netmodem2irc.System.Keeping.Control.{dispatch_ioctl-Keeps}
use netmodem2irc.System.Keeping.Events.{
  cleanup-Keeps, connect-Keeps, disconnect-Keeps, create-Keeps, close-Keeps, power-Keeps, pnp-Keeps,
}
use netmodem2irc.Port.Keeps.{Quiet, Keeps-refl, Keeps-Quiet}

module _ (p : Port) (v : Quiet p) where
  read-Quiet : (lock : Status) (tick : ℕ) (irp : Irp) → Quiet (dispatch_read lock tick irp p).port
  unfolding dispatch_read read_open queue_read
  read-Quiet lock tick irp = ground (arith, v)

module _ (dev : Device) (p : Port) (v : Quiet p) (log : Log) where
  write-Quiet : (lock : Status) (irp : Irp) → Quiet (dispatch_write dev lock irp p log).0.port
  unfolding dispatch_write write_open queue_write
  write-Quiet lock irp = ground (arith, v)

dpc_read_idle : (irp : Irp) (p : Port) → Quiet p → Quiet (dpc_read irp p).2
unfolding dpc_read
dpc_read_idle irp p v = ground (arith, v)

read_dpc_loop-Quiet :
    (tick : ℕ) (queue : List Irp) (p : Port) → Quiet p → Quiet (read_dpc_loop tick queue p).1
unfolding read_dpc_loop
read_dpc_loop-Quiet tick [] p v = v
read_dpc_loop-Quiet tick (irp ∷ queue) p v =
    let w = dpc_read_idle irp p v in
    ground (arith, w, read_dpc_loop-Quiet tick queue (dpc_read irp p).2 w)

read_dpc-Quiet : (tick : ℕ) (p : Port) → Quiet p → Quiet (read_dpc tick p).0
unfolding read_dpc
read_dpc-Quiet tick p v =
    let w = read_dpc_loop-Quiet tick p.read_queue p v in
    record { off = w.off; no_rx = w.no_rx; no_tx = w.no_tx }

module _ (dev : Device) where
  dpc_write_idle :
      (irp : Irp) (p : Port) (log : Log) → Quiet p → Quiet (dpc_write dev irp p log).0.1
  unfolding dpc_write
  dpc_write_idle irp p log v = ground (arith, v)

  write_dpc_loop-Quiet :
      (queue : List Irp) (p : Port) (log : Log)
      → Quiet p
      → Quiet (write_dpc_loop dev queue p log).0.1
  unfolding write_dpc_loop
  write_dpc_loop-Quiet [] p log v = v
  write_dpc_loop-Quiet (irp ∷ queue) p log v =
      let w = dpc_write_idle irp p log v in
      let res = dpc_write dev irp p log in
      ground (arith, v, w, write_dpc_loop-Quiet queue res.0.1 res.1 w)

  write_dpc-Quiet : (p : Port) (log : Log) → Quiet p → Quiet (write_dpc dev p log).0.0
  unfolding write_dpc
  write_dpc-Quiet p log v =
      let w = write_dpc_loop-Quiet p.write_queue p log v in
      record { off = w.off; no_rx = w.no_rx; no_tx = w.no_tx }

Step-Quiet : (dev : Device) (p q : Port) → Quiet p → Step dev p q → Quiet q
Step-Quiet dev p _ v (Step.create lock irp log) =
    Keeps-Quiet p _ v (create-Keeps dev p (Keeps-refl p) log lock irp)
Step-Quiet dev p _ v (Step.close irp log) =
    Keeps-Quiet p _ v (close-Keeps dev p (Keeps-refl p) log irp)
Step-Quiet dev p _ v (Step.cleanup lock irp) =
    Keeps-Quiet p _ v (cleanup-Keeps p (Keeps-refl p) lock irp)
Step-Quiet dev p _ v (Step.read lock tick irp) = read-Quiet p v lock tick irp
Step-Quiet dev p _ v (Step.write lock irp log) = write-Quiet dev p v log lock irp
Step-Quiet dev p _ v (Step.control ser lock code i o irp log) =
    Keeps-Quiet p _ v (dispatch_ioctl-Keeps dev irp ser lock code i o p log (Keeps-refl p))
Step-Quiet dev p _ v (Step.complete_reads tick) = read_dpc-Quiet tick p v
Step-Quiet dev p _ v (Step.complete_writes log) = write_dpc-Quiet dev p log v
Step-Quiet dev p _ v (Step.power lower minor irp log) =
    Keeps-Quiet p _ v (power-Keeps dev p (Keeps-refl p) log lower minor irp)
Step-Quiet dev p _ v (Step.pnp lock k size minor irp log) =
    Keeps-Quiet p _ v (pnp-Keeps dev lock k size minor irp p log (Keeps-refl p))
Step-Quiet dev p _ v (Step.connect c) = Keeps-Quiet p _ v (connect-Keeps p (Keeps-refl p) c)
Step-Quiet dev p _ v Step.disconnect = Keeps-Quiet p _ v (disconnect-Keeps p (Keeps-refl p))

-- Whatever requests, DPCs and PnP and power events reach a port from its creation on, in any order,
-- and whatever the kernel and the chip answer, its interrupt is never connected and both of its
-- rings are empty.
pub Reach-Quiet : (dev : Device) (p : Port) → Reach dev p → Quiet p
unfolding new_port Ring.zeroed
Reach-Quiet dev _ (Reach.start index i chip chan) = record {
  off = refl;
  no_rx = refl;
  no_tx = refl;
}
Reach-Quiet dev _ (Reach.next p q r step) = Step-Quiet dev p q (Reach-Quiet dev p r) step
