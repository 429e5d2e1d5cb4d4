-- ===== src/Write/Dpc.antt =====
-- The write DPC moves the pending bytes to TxBuf in the order in which it takes the writes, and
-- puts a write that it cannot finish behind the later ones.
use netmodem2irc.Base.{
  ltb→lt, rotate, take-add, ℕ, ◌+◌, ◌-◌, ◌≤◌, ◌<◌, ◌≡◌, refl, ◌++◌, ◌⊎◌, inl, inr, List, [], ◌∷◌,
  length, take, drop, arith, ltb, Bool-cases, append_assoc, length-drop, drop-drop, append-nil, ◌∙◌,
}
use netmodem2irc.Bus.{Device, Log}
use netmodem2irc.Ring.{Ring, ring_size}
use netmodem2irc.Ring
use netmodem2irc.Ring.Fifo.{contents}
use netmodem2irc.Port.{Port, Irp, IsValid}
use netmodem2irc.Port.Queue.{csq_insert}
use netmodem2irc.Port.Settles.{ids}
use netmodem2irc.Write.{write_dpc, write_dpc_loop, dpc_write, start_offset}
use netmodem2irc.Write.Copy.{sync_write-Appends}

-- The bytes of a pending write that are not in TxBuf yet.
abbrev pub to_go : Irp → List ℕ
to_go irp = take (irp.length - start_offset irp) (drop (start_offset irp) irp.buffer)

abbrev pub backlog : List Irp → List ℕ
backlog [] = []
backlog (irp ∷ queue) = to_go irp ++ backlog queue

-- Every buffer holds as many bytes as its request is to write.
abbrev pub Fit : List Irp → Type 0
Fit [] = Unit {0}
Fit (irp ∷ irps) = (irp.length ≤ length irp.buffer) × Fit irps

-- The offset of a write lies within it.
start_offset-le : (irp : Irp) → start_offset irp ≤ irp.length
unfolding start_offset
start_offset-le irp = ground arith

-- A write that is put back keeps the rest of its bytes to go.
start_offset_again :
    (irp : Irp) (n : ℕ)
    → n < irp.length - start_offset irp
    → start_offset (record irp { offset = start_offset irp + n }) ≡ start_offset irp + n
unfolding start_offset
start_offset_again irp n h = ground arith

to_go_split :
    (irp : Irp) (n : ℕ)
    → irp.length ≤ length irp.buffer
    → n < irp.length - start_offset irp
    → to_go irp
      ≡ take n (drop (start_offset irp) irp.buffer)
        ++ to_go (record irp { offset = start_offset irp + n })
to_go_split irp n fits h =
    let s = start_offset irp in
    let parts : irp.length - s ≡ n + (irp.length - (s + n)) = omega arith in
    rw (start_offset_again irp n h, parts, take-add, drop-drop)

module _ (dev : Device) where
  dpc_write_lem :
      (irp : Irp) (p : Port) (log : Log)
      → IsValid p
      → irp.length ≤ length irp.buffer
      → let res = (dpc_write dev irp p log).0 in
        (contents res.1.tx ≡ contents p.tx ++ take res.0 (drop (start_offset irp) irp.buffer))
        × (res.0 ≤ irp.length - start_offset irp)
        × IsValid res.1
  unfolding dpc_write
  dpc_write_lem irp p log v fits =
      let bytes = drop (start_offset irp) irp.buffer in
      let enough : irp.length - start_offset irp ≤ length bytes =
        omega (arith, length-drop (start_offset irp) irp.buffer, start_offset-le irp) in
      ground (
        arith,
        sync_write-Appends dev bytes (irp.length - start_offset irp) p log v enough,
        append-nil (contents p.tx),
      )

  -- What the loop has done: the writes it leaves are `left`, of which the first may have been put
  -- back at the end.
  pub record Feeds (before : List Irp) (p : Port) (after : List Irp) (p' : Port) : Type 0 where
    pub left : List Irp
    pub stream : contents p'.tx ++ backlog left ≡ contents p.tx ++ backlog before
    pub order : (after ≡ left) ⊎ (after ≡ rotate left)
    pub valid : IsValid p'

  write_dpc_loop-Feeds :
      (queue : List Irp) (p : Port) (log : Log)
      → IsValid p
      → Fit queue
      → let res = (write_dpc_loop dev queue p log).0 in Feeds queue p res.0 res.1
  unfolding write_dpc_loop csq_insert
  write_dpc_loop-Feeds [] p log v fits = record {
    left = [];
    stream = refl;
    order = inl refl;
    valid = v;
  }
  write_dpc_loop-Feeds (irp ∷ queue) p log v fits =
      let one = dpc_write_lem irp p log v fits.0 in
      let res = (dpc_write dev irp p log).0 in
      let ih = write_dpc_loop-Feeds queue res.1 (dpc_write dev irp p log).1 one.2 fits.1 in
      elim (Bool-cases (ltb p.tx.count ring_size)) [
        | inr full ↦
            rw full (record { left = irp ∷ queue; stream = refl; order = inl refl; valid = v })
        | inl room ↦ rw room (elim (Bool-cases (ltb res.0 (irp.length - start_offset irp))) [
          | inl cut ↦ rw cut (record {
            left = record irp { offset = start_offset irp + res.0 } ∷ queue;
            stream =
                let parted = to_go_split irp res.0 fits.0 (ltb→lt _ _ cut) in
                rw (one.0, parted) (simp append_assoc);
            order = inr refl;
            valid = one.2;
          })
          | inr whole ↦ rw whole (record {
            left = ih.left;
            stream =
                let all : res.0 ≡ irp.length - start_offset irp = ground (arith, one.1) in
                ih.stream ∙ (rw (one.0, all) (simp append_assoc));
            order = ih.order;
            valid = ih.valid;
          })
        ])
      ]

  write_dpc_loop-order :
      (queue : List Irp) (p : Port) (log : Log)
      → let res = (write_dpc_loop dev queue p log).0 in ids res.2 ≡ take (length res.2) (ids queue)
  unfolding write_dpc_loop
  write_dpc_loop-order [] p log = refl
  write_dpc_loop-order (irp ∷ queue) p log =
      let res = (dpc_write dev irp p log).0 in
      ground (arith, write_dpc_loop-order queue res.1 (dpc_write dev irp p log).1)

  -- The write DPC moves the bytes of the pending writes to TxBuf in the order of the queue: the
  -- bytes of TxBuf, with what the writes that are left still have to go behind them, are the bytes
  -- of TxBuf before with what all of them had to go. The writes completed are the first of the
  -- queue. Of those that are left the first may have moved to the end of the queue. The rings stay
  -- well formed. The port is well formed, and every pending buffer holds as many bytes as its write
  -- is to send.
  pub write_dpc_lem :
      (p : Port) (log : Log)
      → IsValid p
      → Fit p.write_queue
      → let (p', completed) = (write_dpc dev p log).0 in
        Feeds p.write_queue p p'.write_queue p'
        × (ids completed ≡ take (length completed) (ids p.write_queue))
  unfolding write_dpc
  write_dpc_lem p log v fits =
      let w = write_dpc_loop-Feeds p.write_queue p log v fits in
      (
        record {
          left = w.left;
          stream = w.stream;
          order = w.order;
          valid = record { rx_valid = w.valid.rx_valid; tx_valid = w.valid.tx_valid };
        },
        write_dpc_loop-order p.write_queue p log,
      )
