-- ===== src/Read/Copy.antt =====
-- `CySyncReadFromRxBuf` hands over the oldest bytes of RxBuf, in order.
use netmodem2irc.Base.{
  ℕ, ◌≤◌, min, ◌≡◌, refl, ◌++◌, length, take, drop, length-take, take-append, take-append-drop, ◌∙◌,
  ap, arith,
}
use netmodem2irc.Ring.{read_loop}
use netmodem2irc.Ring.Fifo.{contents, length-contents}
use netmodem2irc.Ring.Loops.{Reads, read_loop-Reads, overlay_start}
use netmodem2irc.Port.{Port, Irp, IsValid}
use netmodem2irc.Read.{sync_read_from_rx_buf}

-- What a call has done with a buffer that has room for the bytes asked for.
pub record Copies (irp : Irp) (p : Port) (res : ℕ × Irp × Port) : Type 0 where
  pub actual : res.0 ≡ min irp.length p.rx.count
  pub bytes : res.1.buffer ≡ take irp.length (contents p.rx) ++ drop res.0 irp.buffer
  pub rest : contents res.2.rx ≡ drop irp.length (contents p.rx)
  pub request : res.1 ≡ record irp { buffer = res.1.buffer }
  pub others : res.2 ≡ record p { rx = res.2.rx }
  pub valid : IsValid res.2

-- The call copies the oldest bytes of RxBuf, as many as were asked for or are there, to the start
-- of the buffer, takes them off RxBuf, leaves the rest of both as it was, and keeps the rings well
-- formed, if the buffer holds as many bytes as are asked for.
pub sync_read-Copies :
    (irp : Irp) (p : Port)
    → IsValid p
    → irp.length ≤ length irp.buffer
    → Copies irp p (sync_read_from_rx_buf irp p)
unfolding sync_read_from_rx_buf
sync_read-Copies irp p v fits =
    let w : Reads irp.length 0 irp.buffer p.rx (read_loop irp.length 0 irp.buffer p.rx) =
      read_loop-Reads irp.length 0 irp.buffer p.rx v.rx_valid in
    let shown : length (take irp.length (contents p.rx)) ≡ min irp.length p.rx.count =
      omega (arith, length-take irp.length (contents p.rx), length-contents p.rx) in
    let counted : length (take irp.length (contents p.rx))
        ≡ (read_loop irp.length 0 irp.buffer p.rx).0 =
      omega (arith, w.copied, shown) in
    record {
      actual = omega (arith, w.copied);
      bytes =
          w.bytes
          ∙ overlay_start (take irp.length (contents p.rx)) irp.buffer (omega arith)
          ∙ ap (λ k. take irp.length (contents p.rx) ++ drop k irp.buffer) counted;
      rest = w.rest;
      request = refl;
      others = refl;
      valid = record { rx_valid = w.valid; tx_valid = v.tx_valid };
    }

-- The bytes handed over, with what is left in RxBuf behind them, are what RxBuf held.
pub sync_read_stream :
    (irp : Irp) (p : Port)
    → IsValid p
    → irp.length ≤ length irp.buffer
    → let res = sync_read_from_rx_buf irp p in
      take res.0 res.1.buffer ++ contents res.2.rx ≡ contents p.rx
sync_read_stream irp p v fits =
    let w : Copies irp p (sync_read_from_rx_buf irp p) = sync_read-Copies irp p v fits in
    let shown = take irp.length (contents p.rx) in
    let counted : (sync_read_from_rx_buf irp p).0 ≡ length shown =
      omega (arith, w.actual, length-take irp.length (contents p.rx), length-contents p.rx) in
    rw (w.bytes, w.rest, counted, take-append) (take-append-drop irp.length (contents p.rx))
