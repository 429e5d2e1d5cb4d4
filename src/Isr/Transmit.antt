-- ===== src/Isr/Transmit.antt =====
-- `CyIsrServiceTransmit` sends the oldest bytes of TxBuf, in order, and stops the transmitter's
-- interrupt when none is left.
use netmodem2irc.Base.{
  ℕ, zero, suc, ◌+◌, ◌-◌, ◌%◌, ◌<◌, min, ◌≡◌, refl, List, [], ◌∷◌, take, drop, some, none,
  Bool-cases, inl, inr, arith, clear_bits, if◌then◌else◌, ◌∙◌, ltb, leb, ltb→lt,
}
use netmodem2irc.Cd1400
use netmodem2irc.Bus.{Device, Log, wr, address, read_reg, write_reg}
use netmodem2irc.Ring.{fetch}
use netmodem2irc.Ring.Fifo.{cells, contents, contents-fetch, count-fetch}
use netmodem2irc.Port.{Port, IsValid}
use netmodem2irc.Isr.{add_ulong, tx_buf_get, transmit_loop, transmit_body, disable_tx_rdy}
use netmodem2irc.Isr.Bodies.{tx_buf_get-IsValid}

tx_buf_get_empty : (p : Port) → p.tx.count ≡ 0 → tx_buf_get p ≡ (none, p)
unfolding tx_buf_get
tx_buf_get_empty p h = ground arith

tx_buf_get-some :
    (p : Port)
    → IsValid p
    → 0 < p.tx.count
    → ((tx_buf_get p).0 ≡ some (fetch p.tx).0)
      × (contents p.tx ≡ (fetch p.tx).0 ∷ contents (tx_buf_get p).1.tx)
      × ((tx_buf_get p).1.tx.count ≡ p.tx.count - 1)
      × ((tx_buf_get p).1.perf_stats ≡ p.perf_stats)
unfolding tx_buf_get
tx_buf_get-some p v h =
    ground (arith, contents-fetch p.tx v.tx_valid h, count-fetch p.tx v.tx_valid h)

contents-none : (p : Port) → p.tx.count ≡ 0 → contents p.tx ≡ []
unfolding cells
contents-none p h = rw h refl

module _ (dev : Device) (base : ℕ) where
  -- The accesses that write `bytes` to TDR one by one, after those of `log`.
  abbrev pub tdr_writes : List ℕ → Log → Log
  tdr_writes [] log = log
  tdr_writes (x ∷ xs) log = tdr_writes xs (wr (address dev base Cd1400.tdr) (x % 256) ∷ log)

  -- What at most `n` rounds have done, `sent` bytes being sent before.
  pub record Sends (n sent : ℕ) (p : Port) (log : Log) (res : (ℕ × Port) × Log) : Type 0 where
    pub count : res.0.0 ≡ sent + min n p.tx.count
    pub rest : contents res.0.1.tx ≡ drop n (contents p.tx)
    pub left : res.0.1.tx.count ≡ p.tx.count - n
    pub stats : res.0.1.perf_stats ≡ p.perf_stats
    pub wires : res.1 ≡ tdr_writes (take n (contents p.tx)) log

  transmit_loop-Sends :
      (n sent : ℕ) (p : Port) (log : Log)
      → IsValid p
      → Sends n sent p log (transmit_loop dev n sent base p log)
  unfolding transmit_loop write_reg
  transmit_loop-Sends zero sent p log v = record {
    count = omega arith;
    rest = refl;
    left = omega arith;
    stats = refl;
    wires = refl;
  }
  transmit_loop-Sends (suc n) sent p log v = elim (Bool-cases (ltb 0 p.tx.count)) [
    | inl more ↦
        let got = tx_buf_get-some p v (ltb→lt _ _ more) in
        let ih =
          transmit_loop-Sends n (sent + 1) (tx_buf_get p).1
            (wr (address dev base Cd1400.tdr) ((fetch p.tx).0 % 256) ∷ log)
            (tx_buf_get-IsValid p v) in
        rw (got.0, transmit_loop)
          (record {
            count = omega (arith, ih.count, got.2, ltb→lt 0 p.tx.count more);
            rest = rw got.1 ih.rest;
            left = omega (arith, ih.left, got.2, ltb→lt 0 p.tx.count more);
            stats = ih.stats ∙ got.3;
            wires = rw got.1 ih.wires;
          })
    | inr done ↦
        let none_left : p.tx.count ≡ 0 = ground arith in
        rw (tx_buf_get_empty p none_left, transmit_loop)
          (record {
            count = omega arith;
            rest = rw (contents-none p none_left);
            left = omega arith;
            stats = refl;
            wires = rw (contents-none p none_left);
          })
  ]

  -- A transmit service writes to TDR the oldest bytes of TxBuf in order, 12 at most, takes them off
  -- TxBuf, and counts them as transmitted. If that leaves TxBuf empty, it then reads SRER and
  -- writes it back without TxRdy; else it touches no other register. The port is well formed.
  pub transmit_body_lem :
      (tivr : ℕ) (p : Port) (log : Log)
      → IsValid p
      → let bytes = take Cd1400.max_char_fifo (contents p.tx) in
        let sent = tdr_writes bytes log in
        let srer = read_reg dev base Cd1400.srer sent in
        let res = transmit_body dev base tivr p log in
        (contents res.0.tx ≡ drop Cd1400.max_char_fifo (contents p.tx))
        × (res.0.perf_stats.transmitted
            ≡ add_ulong p.perf_stats.transmitted (min Cd1400.max_char_fifo p.tx.count))
        × (res.1 ≡ (
            if leb p.tx.count Cd1400.max_char_fifo
            then wr (address dev base Cd1400.srer) (clear_bits srer.0 Cd1400.tx_rdy % 256) ∷ srer.1
            else sent))
  unfolding transmit_body disable_tx_rdy write_reg
  transmit_body_lem tivr p log v =
      let w = transmit_loop-Sends Cd1400.max_char_fifo 0 p log v in
      ground (arith, w.count, w.rest, w.left, w.stats, w.wires)
