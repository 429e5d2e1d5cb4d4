-- ===== src/Read/Dpc.antt =====
-- The read DPC hands the stream in RxBuf to the pending reads, in order.
use netmodem2irc.Base.{
  rotate, ℕ, ◌≤◌, ◌≡◌, refl, ◌++◌, List, [], ◌∷◌, length, take, drop, false, arith, ltb, ◌||◌,
  append_assoc, Bool-cases, inl, inr,
}
use netmodem2irc.Ring.Fifo.{contents}
use netmodem2irc.Port.{Port, Irp, IsValid}
use netmodem2irc.Port.Queue.{csq_insert}
use netmodem2irc.Port.Settles.{ids, ids-csq_insert}
use netmodem2irc.Read.{read_dpc, read_dpc_loop, dpc_read, timed_out, sync_read_from_rx_buf}
use netmodem2irc.Read.Copy.{sync_read-Copies, sync_read_stream}

-- The bytes that a completed read delivers: the first `Information` bytes of its buffer.
abbrev pub delivered : List Irp → List ℕ
delivered [] = []
delivered (irp ∷ irps) = take irp.information irp.buffer ++ delivered irps

-- Every buffer holds as many bytes as its request asks for.
abbrev pub Fit : List Irp → Type 0
Fit [] = Unit {0}
Fit (irp ∷ irps) = (irp.length ≤ length irp.buffer) × Fit irps

dpc_read_lem :
    (irp : Irp) (p : Port)
    → IsValid p
    → irp.length ≤ length irp.buffer
    → let got = dpc_read irp p in
      (take got.0 got.1.buffer ++ contents got.2.rx ≡ contents p.rx)
      × IsValid got.2
      × (got.1.id ≡ irp.id)
unfolding dpc_read
dpc_read_lem irp p v fits =
    ground (arith, sync_read-Copies irp p v fits, sync_read_stream irp p v fits)

dpc_read-id : (irp : Irp) (p : Port) → (dpc_read irp p).1.id ≡ irp.id
unfolding dpc_read sync_read_from_rx_buf
dpc_read-id irp p = ground arith

read_dpc_loop_stream :
    (tick : ℕ) (queue : List Irp) (p : Port)
    → IsValid p
    → Fit queue
    → let res = read_dpc_loop tick queue p in
      (delivered res.2 ++ contents res.1.rx ≡ contents p.rx) × IsValid res.1
unfolding read_dpc_loop
read_dpc_loop_stream tick [] p v fits = (refl, v)
read_dpc_loop_stream tick (irp ∷ queue) p v fits =
    let one = dpc_read_lem irp p v fits.0 in
    let got = dpc_read irp p in
    let ih = read_dpc_loop_stream tick queue got.2 one.1 fits.1 in
    elim (Bool-cases (ltb 0 got.0 || timed_out tick irp)) [
      | inl done ↦ rw done (rw append_assoc (rw (ih.0) one.0), ih.1)
      | inr waits ↦
          rw waits
            (let none : got.0 ≡ 0 = ground arith in let same = one.0 in (rw none at same, one.1))
    ]

read_dpc_loop_order :
    (tick : ℕ) (queue : List Irp) (p : Port)
    → let res = read_dpc_loop tick queue p in
      let n = length res.2 in
      (ids res.2 ≡ take n (ids queue)) × (ids res.0 ≡ rotate (drop n (ids queue)))
unfolding read_dpc_loop
read_dpc_loop_order tick [] p = (refl, refl)
read_dpc_loop_order tick (irp ∷ queue) p =
    let got = dpc_read irp p in
    let ih = read_dpc_loop_order tick queue got.2 in
    let same : got.1.id ≡ irp.id = dpc_read-id irp p in
    elim (Bool-cases (ltb 0 got.0 || timed_out tick irp)) [
      | inl done ↦ rw done (cc (same, ih.0), ih.1)
      | inr waits ↦ rw waits (refl, rw (ids-csq_insert, same))
    ]

-- The read DPC hands the bytes of RxBuf to the pending reads in the order in which they wait: the
-- bytes delivered, with what stays in RxBuf behind them, are what RxBuf held. The reads completed
-- are the first of the queue; the next one has moved to its end, behind the reads that came after
-- it. The rings stay well formed. The port is well formed, and every pending buffer holds as many
-- bytes as its read asks for.
pub read_dpc_lem :
    (tick : ℕ) (p : Port)
    → IsValid p
    → Fit p.read_queue
    → let (p', completed) = read_dpc tick p in
      let n = length completed in
      (delivered completed ++ contents p'.rx ≡ contents p.rx)
      × (ids completed ≡ take n (ids p.read_queue))
      × (ids p'.read_queue ≡ rotate (drop n (ids p.read_queue)))
      × IsValid p'
unfolding read_dpc
read_dpc_lem tick p v fits =
    let stream = read_dpc_loop_stream tick p.read_queue p v fits in
    let order = read_dpc_loop_order tick p.read_queue p in
    (
      stream.0,
      order.0,
      order.1,
      record { rx_valid = stream.1.rx_valid; tx_valid = stream.1.tx_valid },
    )

-- While RxBuf is empty and no deadline has passed, the DPC completes nothing, and the read that has
-- waited longest moves to the end of the queue, behind every later one.
read_dpc_overtakes :
    (tick : ℕ) (irp : Irp) (queue : List Irp) (p : Port)
    → p.read_queue ≡ irp ∷ queue
    → p.rx.count ≡ 0
    → timed_out tick irp ≡ false
    → read_dpc tick p ≡ (record p { read_queue = queue ++ (irp ∷ []) }, [])
unfolding read_dpc read_dpc_loop dpc_read csq_insert
read_dpc_overtakes tick irp queue p waiting empty early = rw waiting (ground arith)
