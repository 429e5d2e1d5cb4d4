-- ===== src/Write/Copy.antt =====
-- `CySyncWriteToTxBuf` appends bytes to TxBuf, and starts the transmitter where it was idle.
use netmodem2irc.Base.{
  ℕ, ◌-◌, ◌≤◌, ◌+◌, min, ◌≡◌, refl, sym, ◌++◌, ◌&&◌, List, length, length-append, length-take, take,
  ltb, ◌==◌, if◌then◌else◌, ap, arith, Bool-cases, inl, inr,
}
use netmodem2irc.Bus.{Device, Log}
use netmodem2irc.Ring.{Ring, ring_size, write_loop}
use netmodem2irc.Ring.Fifo.{contents, length-contents}
use netmodem2irc.Ring.Loops.{Writes, write_loop-Writes}
use netmodem2irc.Port.{Port, IsValid}
use netmodem2irc.Write.{sync_write_to_tx_buf, enable_tx_rdy}

module _ (dev : Device) where
  -- What a call has done with the first `len` of `bytes`, the accesses so far being `log`.
  pub record Appends (bytes : List ℕ) (len : ℕ) (p : Port) (log : Log) (res : (ℕ × Port) × Log)
      : Type 0 where
    pub written : res.0.0 ≡ min len (ring_size - p.tx.count)
    pub added : contents res.0.1.tx ≡ contents p.tx ++ take res.0.0 bytes
    pub others : res.0.1 ≡ record p { tx = res.0.1.tx }
    pub valid : IsValid res.0.1
    pub kicked :
        res.1 ≡ (if (p.tx.count == 0) && ltb 0 res.0.0 then (enable_tx_rdy dev p log).1 else log)

  -- The call appends to TxBuf the first bytes of the caller's, as many as are to go and fit, and
  -- changes nothing else of the port. It enables the transmitter's interrupt on the port's channel
  -- if TxBuf was empty and now is not, and else touches no register. The port is well formed and
  -- the buffer holds `len` bytes.
  pub sync_write-Appends :
      (bytes : List ℕ) (len : ℕ) (p : Port) (log : Log)
      → IsValid p
      → len ≤ length bytes
      → Appends bytes len p log (sync_write_to_tx_buf dev bytes len p log)
  unfolding sync_write_to_tx_buf
  sync_write-Appends bytes len p log v fits =
      let res : ℕ × Ring = write_loop len 0 bytes p.tx in
      let w : Writes len 0 bytes p.tx res =
        write_loop-Writes len 0 bytes p.tx v.tx_valid (omega arith) in
      let p' : Port = record p { tx = res.1 } in
      let valid : IsValid p' = record { rx_valid = v.rx_valid; tx_valid = w.valid } in
      let all : res.0 ≡ min len (ring_size - p.tx.count) = omega (arith, w.written) in
      let grown : res.1.count ≡ p.tx.count + res.0 = omega (
        arith,
        ap length w.added,
        length-contents res.1,
        length-contents p.tx,
        length-append (contents p.tx) (take (min len (ring_size - p.tx.count)) bytes),
        length-take (min len (ring_size - p.tx.count)) bytes,
        all,
        w.valid,
        w.valid.count_in,
      ) in
      let same : (p.tx.count == 0) && ltb 0 res.1.count ≡ ((p.tx.count == 0) && ltb 0 res.0) =
        ground arith in
      elim (Bool-cases ((p.tx.count == 0) && ltb 0 res.1.count)) [
        | inl idle ↦ rw idle (record {
          written = all;
          added = rw all w.added;
          others = refl;
          valid = valid;
          kicked = rw (sym same) (rw idle refl);
        })
        | inr busy ↦ rw busy (record {
          written = all;
          added = rw all w.added;
          others = refl;
          valid = valid;
          kicked = rw (sym same) (rw busy refl);
        })
      ]
