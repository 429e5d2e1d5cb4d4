-- ===== src/System/Whole.antt =====
-- A port stays where CyCreateChildPDOs has put it, with well-formed rings, whatever reaches it.
use netmodem2irc.Base.{◌-◌, drop, ℕ, refl, List, [], ◌∷◌, arith}
use netmodem2irc.Bus.{Device, Log}
use netmodem2irc.Port.{Port, Irp, Status, acquire}
use netmodem2irc.Ring.Loops.{read_loop-Reads, write_loop-IsValid}
use netmodem2irc.Ring.{write_loop}
use netmodem2irc.Read.{
  sync_read_from_rx_buf, dispatch_read, read_open, queue_read, read_dpc, read_dpc_loop, dpc_read,
}
use netmodem2irc.Write.{
  sync_write_to_tx_buf, after_copy, start_offset, dispatch_write, write_open, queue_write,
  write_dpc, write_dpc_loop, dpc_write,
}
use netmodem2irc.System.{Step}
use netmodem2irc.Port.Whole.{Whole, same_Whole}
use netmodem2irc.System.Keeping.Control.{dispatch_ioctl-Keeps}
use netmodem2irc.System.Keeping.Events.{
  cleanup-Keeps, connect-Keeps, disconnect-Keeps, create-Keeps, close-Keeps, power-Keeps, pnp-Keeps,
}
use netmodem2irc.Port.Keeps.{Keeps-refl, Keeps-Whole}

sync_read-Whole :
    {home : Port} (irp : Irp) (p : Port) → Whole home p → Whole home (sync_read_from_rx_buf irp p).2
unfolding sync_read_from_rx_buf
sync_read-Whole irp p v =
    let w = read_loop-Reads irp.length 0 irp.buffer p.rx v.valid.rx_valid in
    record {
      at_index = v.at_index;
      at_base = v.at_base;
      at_chan = v.at_chan;
      valid = record { rx_valid = w.valid; tx_valid = v.valid.tx_valid };
    }

sync_write-Whole :
    {home : Port} (dev : Device) (bytes : List ℕ) (len : ℕ) (p : Port) (log : Log)
    → Whole home p
    → Whole home (sync_write_to_tx_buf dev bytes len p log).0.1
unfolding sync_write_to_tx_buf
sync_write-Whole {home} dev bytes len p log v =
    let res = write_loop len 0 bytes p.tx in
    let w : Whole home (record p { tx = res.1 }) = record {
      at_index = v.at_index;
      at_base = v.at_base;
      at_chan = v.at_chan;
      valid = record {
        rx_valid = v.valid.rx_valid;
        tx_valid = write_loop-IsValid len 0 bytes p.tx v.valid.tx_valid;
      };
    } in
    ground (arith, w)

acquire-Whole : {home p : Port} → Whole home p → Whole home (acquire p)
acquire-Whole v = same_Whole v refl refl refl refl refl

module _ {home : Port} (p : Port) (v : Whole home p) where
  read-Whole :
      (lock : Status) (tick : ℕ) (irp : Irp) → Whole home (dispatch_read lock tick irp p).port
  unfolding dispatch_read read_open queue_read
  read-Whole lock tick irp =
      let w = acquire-Whole v in ground (arith, v, w, sync_read-Whole irp (acquire p) w)

module _ {home : Port} (dev : Device) (p : Port) (v : Whole home p) (log : Log) where
  write-Whole : (lock : Status) (irp : Irp) → Whole home (dispatch_write dev lock irp p log).0.port
  unfolding dispatch_write write_open queue_write after_copy
  write-Whole lock irp =
      let w = acquire-Whole v in
      ground (arith, v, w, sync_write-Whole dev irp.buffer irp.length (acquire p) log w)

dpc_read-Whole : {home : Port} (irp : Irp) (p : Port) → Whole home p → Whole home (dpc_read irp p).2
unfolding dpc_read
dpc_read-Whole irp p v = ground (arith, v, sync_read-Whole irp p v)

read_dpc_loop-Whole :
    {home : Port} (tick : ℕ) (queue : List Irp) (p : Port)
    → Whole home p
    → Whole home (read_dpc_loop tick queue p).1
unfolding read_dpc_loop
read_dpc_loop-Whole tick [] p v = v
read_dpc_loop-Whole tick (irp ∷ queue) p v =
    let w = dpc_read-Whole irp p v in
    ground (arith, w, read_dpc_loop-Whole tick queue (dpc_read irp p).2 w)

read_dpc-Whole : {home : Port} (tick : ℕ) (p : Port) → Whole home p → Whole home (read_dpc tick p).0
unfolding read_dpc
read_dpc-Whole tick p v =
    let w = read_dpc_loop-Whole tick p.read_queue p v in same_Whole w refl refl refl refl refl

module _ {home : Port} (dev : Device) where
  dpc_write-Whole :
      (irp : Irp) (p : Port) (log : Log) → Whole home p → Whole home (dpc_write dev irp p log).0.1
  unfolding dpc_write
  dpc_write-Whole irp p log v = ground (
    arith,
    v,
    sync_write-Whole dev (drop (start_offset irp) irp.buffer) (irp.length - start_offset irp) p log
        v,
  )

  write_dpc_loop-Whole :
      (queue : List Irp) (p : Port) (log : Log)
      → Whole home p
      → Whole home (write_dpc_loop dev queue p log).0.1
  unfolding write_dpc_loop
  write_dpc_loop-Whole [] p log v = v
  write_dpc_loop-Whole (irp ∷ queue) p log v =
      let w = dpc_write-Whole irp p log v in
      let res = dpc_write dev irp p log in
      ground (arith, v, w, write_dpc_loop-Whole queue res.0.1 res.1 w)

  write_dpc-Whole : (p : Port) (log : Log) → Whole home p → Whole home (write_dpc dev p log).0.0
  unfolding write_dpc
  write_dpc-Whole p log v =
      let w = write_dpc_loop-Whole p.write_queue p log v in same_Whole w refl refl refl refl refl

pub Step-Whole :
    {home : Port} (dev : Device) (p q : Port) → Whole home p → Step dev p q → Whole home q
Step-Whole dev p _ v (Step.create lock irp log) =
    Keeps-Whole v (create-Keeps dev p (Keeps-refl p) log lock irp)
Step-Whole dev p _ v (Step.close irp log) = Keeps-Whole v (close-Keeps dev p (Keeps-refl p) log irp)
Step-Whole dev p _ v (Step.cleanup lock irp) =
    Keeps-Whole v (cleanup-Keeps p (Keeps-refl p) lock irp)
Step-Whole dev p _ v (Step.read lock tick irp) = read-Whole p v lock tick irp
Step-Whole dev p _ v (Step.write lock irp log) = write-Whole dev p v log lock irp
Step-Whole dev p _ v (Step.control ser lock code i o irp log) =
    Keeps-Whole v (dispatch_ioctl-Keeps dev irp ser lock code i o p log (Keeps-refl p))
Step-Whole dev p _ v (Step.complete_reads tick) = read_dpc-Whole tick p v
Step-Whole dev p _ v (Step.complete_writes log) = write_dpc-Whole dev p log v
Step-Whole dev p _ v (Step.power lower minor irp log) =
    Keeps-Whole v (power-Keeps dev p (Keeps-refl p) log lower minor irp)
Step-Whole dev p _ v (Step.pnp lock k size minor irp log) =
    Keeps-Whole v (pnp-Keeps dev lock k size minor irp p log (Keeps-refl p))
Step-Whole dev p _ v (Step.connect c) = Keeps-Whole v (connect-Keeps p (Keeps-refl p) c)
Step-Whole dev p _ v Step.disconnect = Keeps-Whole v (disconnect-Keeps p (Keeps-refl p))
