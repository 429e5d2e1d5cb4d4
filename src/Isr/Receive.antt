-- ===== src/Isr/Receive.antt =====
-- The branch of `CyIsrServiceReceive` for a vector with its lowest bit clear moves the chip's bytes to RxBuf in order, and counts
-- those that do not fit.
use netmodem2irc.Base.{
  ℕ, zero, suc, ◌+◌, ◌-◌, ◌≤◌, ◌<◌, ◌≡◌, refl, List, [], ◌∷◌, ◌++◌, append-nil, take, take-nil,
  length, ltb→lt, true, Bool-cases, inl, inr, arith, has_bits, ◌∙◌, ap, ltb,
}
use netmodem2irc.Cd1400
use netmodem2irc.Bus.{Device, Log, read_reg}
use netmodem2irc.Ring.{ring_size}
use netmodem2irc.Ring.Fifo.{contents, contents-store, count-store}
use netmodem2irc.Port.{Port, Stats, IsValid}
use netmodem2irc.Isr.{
  note, count_line_errors, add_ulong, rx_buf_put, receive_exception, receive_body,
}
use netmodem2irc.Port.Whole.{same_rings}
use netmodem2irc.Isr.Bodies.{count_line_errors-Alike}

-- A byte is stored where there is room, and else only counted.
rx_buf_put_room :
    (x : ℕ) (p : Port)
    → IsValid p
    → p.rx.count < ring_size
    → let q = (rx_buf_put x p).1 in
      (contents q.rx ≡ contents p.rx ++ (x ∷ []))
      × (q.rx.count ≡ p.rx.count + 1)
      × (q.perf_stats.buffer_overruns ≡ p.perf_stats.buffer_overruns)
      × (q.perf_stats.received ≡ p.perf_stats.received)
unfolding rx_buf_put
rx_buf_put_room x p v h =
    ground (arith, contents-store p.rx x v.rx_valid h, count-store p.rx x v.rx_valid h)

rx_buf_put_full :
    (x : ℕ) (p : Port)
    → ring_size ≤ p.rx.count
    → let q = (rx_buf_put x p).1 in
      (q.rx ≡ p.rx)
      × (q.perf_stats.buffer_overruns ≡ add_ulong p.perf_stats.buffer_overruns 1)
      × (q.perf_stats.received ≡ p.perf_stats.received)
unfolding rx_buf_put
rx_buf_put_full x p h = ground arith

rx_buf_put_stores :
    (x : ℕ) (p : Port)
    → IsValid p
    → let q = (rx_buf_put x p).1 in
      (contents q.rx ≡ contents p.rx ++ take (ring_size - p.rx.count) (x ∷ []))
      × (q.perf_stats.received ≡ p.perf_stats.received)
rx_buf_put_stores x p v = elim (Bool-cases (ltb p.rx.count ring_size)) [
  | inl room ↦
      let put = rx_buf_put_room x p v (ltb→lt _ _ room) in
      let some_room : ring_size - p.rx.count ≡ suc (ring_size - (p.rx.count + 1)) =
        omega (arith, ltb→lt p.rx.count ring_size room) in
      (rw (some_room, take-nil) put.0, put.3)
  | inr full ↦
      let over : ring_size ≤ p.rx.count = ground arith in
      let put = rx_buf_put_full x p over in
      let none : ring_size - p.rx.count ≡ 0 = omega arith in (rw (none, append-nil, put.0), put.2)
]

note-received :
    (status bit ev : ℕ) (count_error : Stats → Stats) (p : Port)
    → (count_error p.perf_stats).received ≡ p.perf_stats.received
    → (note status bit ev count_error p).perf_stats.received ≡ p.perf_stats.received
unfolding note
note-received status bit ev count_error p h = ground (arith, h)

count_line_errors-received :
    (s : ℕ) (p : Port) → (count_line_errors s p).perf_stats.received ≡ p.perf_stats.received
unfolding count_line_errors
count_line_errors-received s p =
    note-received s _ _ _ _ refl
    ∙ (note-received s _ _ _ _ refl ∙ (note-received s _ _ _ _ refl ∙ note-received s _ _ _ p refl))

module _ (dev : Device) (base : ℕ) where
  -- What `n` reads of RDSR in a row give.
  abbrev pub rdsr_bytes : ℕ → Log → List ℕ
  rdsr_bytes zero log = []
  rdsr_bytes (suc n) log = let got = read_reg dev base Cd1400.rdsr log in got.0 ∷ rdsr_bytes n got.1

  -- What receiving `bytes` has done to a port.
  pub record Receives (bytes : List ℕ) (p q : Port) : Type 0 where
    pub stored : contents q.rx ≡ contents p.rx ++ take (ring_size - p.rx.count) bytes
    pub lost :
        q.perf_stats.buffer_overruns
        ≡ add_ulong p.perf_stats.buffer_overruns (length bytes - (ring_size - p.rx.count))
    pub received : q.perf_stats.received ≡ p.perf_stats.received

  -- A receive service whose vector has its lowest bit set delivers one byte, the second that RDSR
  -- gives, whatever RDCR says: it goes to the end of RxBuf, if that has room. The vectors for a
  -- normal and for an exceptional receive in cd1400.h both have that bit. The port is well formed.
  pub receive_body_exception :
      (rivr : ℕ) (p : Port) (log : Log)
      → IsValid p
      → has_bits rivr 0x01 ≡ true
      → let status = read_reg dev base Cd1400.rdsr log in
        let byte = read_reg dev base Cd1400.rdsr status.1 in
        let res = receive_body dev base rivr p log in
        (contents res.0.rx ≡ contents p.rx ++ take (ring_size - p.rx.count) (byte.0 ∷ []))
        × (res.0.perf_stats.received ≡ add_ulong p.perf_stats.received 1)
        × (res.1 ≡ byte.1)
        × (has_bits Cd1400.ivr_rx_ok 0x01 ≡ true)
        × (has_bits Cd1400.ivr_rx_ex 0x01 ≡ true)
  unfolding receive_body receive_exception has_bits
  receive_body_exception rivr p log v exceptional =
      let status = read_reg dev base Cd1400.rdsr log in
      let byte = read_reg dev base Cd1400.rdsr status.1 in
      let noted = count_line_errors status.0 p in
      let same = count_line_errors-Alike status.0 p in
      let put = rx_buf_put_stores byte.0 noted (same_rings p noted same.same_rx same.same_tx v) in
      let count_same = count_line_errors-received status.0 p in
      rw exceptional (
        put.0 ∙ (rw same.same_rx refl),
        ap (λ k. add_ulong k 1) (put.1 ∙ count_same),
        refl,
        refl,
        refl,
      )
