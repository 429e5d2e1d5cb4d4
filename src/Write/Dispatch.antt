-- ===== src/Write/Dispatch.antt =====
-- `CyDispatchWrite` settles every request, on every path.
use netmodem2irc.Base.{
  ℕ, ◌-◌, ◌≤◌, ◌<◌, min, ◌≡◌, ◌++◌, List, [], ◌∷◌, length, take, true, false, arith, ltb, ◌==◌,
  if◌then◌else◌,
}
use netmodem2irc.Bus.{Device, Log}
use netmodem2irc.Ring.{ring_size}
use netmodem2irc.Ring.Fifo.{contents}
use netmodem2irc.Port.{Port, Irp, Status, IsValid, finish, acquire}
use netmodem2irc.Port.Queue.{csq_insert}
use netmodem2irc.Port.Settles.{Settled, ids-csq_insert}
use netmodem2irc.Write.{
  dispatch_write, queue_write, write_open, after_copy, sync_write_to_tx_buf, start_offset,
  write_dpc, write_dpc_loop, dpc_write,
}
use netmodem2irc.Write.Copy.{sync_write-Appends}

queue_write-Settled :
    (irp : Irp) (p : Port)
    → Settled irp p.write_queue (queue_write irp p).port.write_queue (queue_write irp p)
unfolding queue_write
queue_write-Settled irp p = ground (arith, ids-csq_insert irp p.write_queue)

queue_write_keeps :
    (irp : Irp) (p : Port)
    → let o = queue_write irp p in
      (o.port.lock_count ≡ p.lock_count - 1) × (o.port.rx ≡ p.rx) × (o.port.tx ≡ p.tx)
unfolding queue_write
queue_write_keeps irp p = ground arith

after_copy-Settled :
    (irp : Irp) (n : ℕ) (p : Port)
    → let o = after_copy irp (n, p) in
      Settled irp p.write_queue o.port.write_queue o
      × (o.port.lock_count ≡ p.lock_count - 1)
      × (o.port.rx ≡ p.rx)
      × (o.port.tx ≡ p.tx)
unfolding after_copy
after_copy-Settled irp n p =
    let irp' : Irp = record irp { offset = n } in
    ground (
      arith,
      queue_write-Settled irp p,
      queue_write_keeps irp p,
      queue_write-Settled irp' p,
      queue_write_keeps irp' p,
    )

module _ (dev : Device) where
  write_open-Settled :
      (irp : Irp) (p : Port) (log : Log)
      → IsValid p
      → irp.length ≤ length irp.buffer
      → let o = (write_open dev irp p log).0 in
        Settled irp p.write_queue o.port.write_queue o
        × (o.port.lock_count ≡ p.lock_count - 1)
        × IsValid o.port
  unfolding write_open
  write_open-Settled irp p log v fits =
      let w = sync_write-Appends dev irp.buffer irp.length p log v fits in
      let res = (sync_write_to_tx_buf dev irp.buffer irp.length p log).0 in
      ground (
        arith,
        w,
        after_copy-Settled irp res.0 res.1,
        queue_write-Settled irp p,
        queue_write_keeps irp p,
      )

  -- Every write request is settled: it is the one IRP completed, with the status that is returned,
  -- and the queue is as before, or the call returns STATUS_PENDING with the IRP at the end of the
  -- write queue. The remove lock is balanced and both rings stay well formed. The port is well
  -- formed and the buffer holds as many bytes as are to be written.
  pub dispatch_write-Settled :
      (lock : Status) (irp : Irp) (p : Port) (log : Log)
      → IsValid p
      → irp.length ≤ length irp.buffer
      → let o = (dispatch_write dev lock irp p log).0 in
        Settled irp p.write_queue o.port.write_queue o
        × (o.port.lock_count ≡ p.lock_count)
        × IsValid o.port
  unfolding dispatch_write
  dispatch_write-Settled lock irp p log v fits =
      let valid : IsValid (acquire p) = record { rx_valid = v.rx_valid; tx_valid = v.tx_valid } in
      ground (arith, write_open-Settled irp (acquire p) log valid fits)

  -- On an open port whose interrupt is connected a write puts its first bytes behind those of
  -- TxBuf at once, as many as fit, whatever waits in the write queue. It succeeds where all fit;
  -- else it is queued, with their number for its offset unless that is 0. The port is well formed,
  -- the lock is granted and the buffer holds as many bytes as are to be written.
  pub dispatch_write_copies :
      (irp : Irp) (p : Port) (log : Log)
      → IsValid p
      → irp.length ≤ length irp.buffer
      → p.is_fdo ≡ false
      → p.is_open ≡ true
      → p.interrupt_connected ≡ true
      → let n = min irp.length (ring_size - p.tx.count) in
        let o = (dispatch_write dev Status.success irp p log).0 in
        (contents o.port.tx ≡ contents p.tx ++ take n irp.buffer)
        × (o.result ≡ (if n == irp.length then Status.success else Status.pending))
        × (o.completed ≡ (if n == irp.length then finish Status.success n irp ∷ [] else []))
        × (o.port.write_queue ≡ (
            if n == irp.length
            then p.write_queue
            else p.write_queue ++ ((if ltb 0 n then record irp { offset = n } else irp) ∷ [])))
  unfolding dispatch_write write_open after_copy queue_write csq_insert
  dispatch_write_copies irp p log v fits pdo opened connected =
      let valid : IsValid (acquire p) = record { rx_valid = v.rx_valid; tx_valid = v.tx_valid } in
      ground (arith, sync_write-Appends dev irp.buffer irp.length (acquire p) log valid fits)

  -- While the interrupt is not connected, no write reaches TxBuf: on an open port every request is
  -- queued, and the DPC puts the first pending write of at least one byte back at the end of the
  -- queue, touching neither TxBuf nor a register.
  pub write_unconnected :
      (irp first : Irp) (queue : List Irp) (p : Port) (log : Log)
      → p.is_fdo ≡ false
      → p.is_open ≡ true
      → p.interrupt_connected ≡ false
      → p.write_queue ≡ first ∷ queue
      → start_offset first < first.length
      → p.tx.count < ring_size
      → let o = (dispatch_write dev Status.success irp p log).0 in
        (o.result ≡ Status.pending)
        × (o.port.tx ≡ p.tx)
        × (o.port.write_queue ≡ p.write_queue ++ (irp ∷ []))
        × (write_dpc dev p log ≡ (
          (
            record p { write_queue = queue ++ (record first { offset = start_offset first } ∷ []) },
            [],
          ),
          log,
        ))
  unfolding dispatch_write write_open queue_write csq_insert write_dpc write_dpc_loop dpc_write
  write_unconnected irp first queue p log pdo opened off waiting going room =
      (ground arith, ground arith, ground arith, rw waiting (ground arith))
