-- ===== src/Read/Dispatch.antt =====
-- `CyDispatchRead` settles every request, on every path.
use netmodem2irc.Base.{
  ℕ, ◌-◌, ◌≤◌, ◌<◌, min, ◌≡◌, ◌++◌, [], ◌∷◌, length, take, drop, true, false, arith,
}
use netmodem2irc.Ring.Fifo.{contents}
use netmodem2irc.Port.{Port, Irp, Status, IsValid, finish, acquire}
use netmodem2irc.Port.Settles.{Settled, ids-csq_insert}
use netmodem2irc.Read.{dispatch_read, queue_read, read_open, sync_read_from_rx_buf, read_deadline}
use netmodem2irc.Read.Copy.{sync_read-Copies}

queue_read-Settled :
    (tick : ℕ) (irp : Irp) (p : Port)
    → Settled irp p.read_queue (queue_read tick irp p).port.read_queue (queue_read tick irp p)
unfolding queue_read
queue_read-Settled tick irp p = ground (
  arith,
  ids-csq_insert (record irp { deadline = read_deadline p.timeouts irp.length tick }) p.read_queue,
)

queue_read_keeps :
    (tick : ℕ) (irp : Irp) (p : Port)
    → let o = queue_read tick irp p in
      (o.port.lock_count ≡ p.lock_count - 1) × (o.port.rx ≡ p.rx) × (o.port.tx ≡ p.tx)
unfolding queue_read
queue_read_keeps tick irp p = ground arith

module _ (tick : ℕ) (irp : Irp) (p : Port) (v : IsValid p)
    (fits : irp.length ≤ length irp.buffer) where
  read_open-Settled :
      Settled irp p.read_queue (read_open tick irp p).port.read_queue (read_open tick irp p)
  unfolding read_open sync_read_from_rx_buf
  read_open-Settled =
      let got = sync_read_from_rx_buf irp p in
      ground (arith, queue_read-Settled tick irp p, queue_read-Settled tick got.1 got.2)

  read_open_keeps :
      let o = read_open tick irp p in (o.port.lock_count ≡ p.lock_count - 1) × IsValid o.port
  unfolding read_open
  read_open_keeps =
      let got = sync_read_from_rx_buf irp p in
      ground (
        arith,
        queue_read_keeps tick irp p,
        queue_read_keeps tick got.1 got.2,
        sync_read-Copies irp p v fits,
      )

-- Every read request is settled: it is the one IRP completed, with the status that is returned, and
-- the queue is as before, or the call returns STATUS_PENDING with the IRP at the end of the read
-- queue. The remove lock is balanced and both rings stay well formed. The port is well formed and
-- the buffer holds as many bytes as are asked for.
pub dispatch_read-Settled :
    (lock : Status) (tick : ℕ) (irp : Irp) (p : Port)
    → IsValid p
    → irp.length ≤ length irp.buffer
    → let o = dispatch_read lock tick irp p in
      Settled irp p.read_queue o.port.read_queue o
      × (o.port.lock_count ≡ p.lock_count)
      × IsValid o.port
unfolding dispatch_read
dispatch_read-Settled lock tick irp p v fits =
    let valid : IsValid (acquire p) = record { rx_valid = v.rx_valid; tx_valid = v.tx_valid } in
    ground (
      arith,
      read_open-Settled tick irp (acquire p) valid fits,
      read_open_keeps tick irp (acquire p) valid fits,
    )

-- On an open port whose interrupt is connected and whose RxBuf holds bytes, a request for at least
-- one byte succeeds at once with the oldest bytes, as many as were asked for or are there, which
-- leave RxBuf. The port is well formed, the lock is granted and the buffer holds as many bytes as
-- are asked for.
pub dispatch_read_fast :
    (tick : ℕ) (irp : Irp) (p : Port)
    → IsValid p
    → irp.length ≤ length irp.buffer
    → p.is_fdo ≡ false
    → p.is_open ≡ true
    → p.interrupt_connected ≡ true
    → 0 < p.rx.count
    → 0 < irp.length
    → let o = dispatch_read Status.success tick irp p in
      let n = min irp.length p.rx.count in
      (o.result ≡ Status.success)
      × (o.completed
          ≡ finish Status.success n
              (record irp { buffer = take irp.length (contents p.rx) ++ drop n irp.buffer })
            ∷ [])
      × (contents o.port.rx ≡ drop irp.length (contents p.rx))
unfolding dispatch_read read_open
dispatch_read_fast tick irp p v fits pdo opened connected some_left asked =
    let valid : IsValid (acquire p) = record { rx_valid = v.rx_valid; tx_valid = v.tx_valid } in
    ground (arith, sync_read-Copies irp (acquire p) valid fits)
