-- ===== src/Isr.antt =====
-- fossil/cyclades/src/cyisr.c: the interrupt service routine. It serves the chips of one card until
-- none asks, and says which DPCs it queues.
mod Defs
pub mod Bodies
pub mod Ports
pub mod Connect
pub mod Receive
pub mod Transmit
pub mod Protocol
unfoldable pub use Defs.*
use netmodem2irc.Base.{
  ℕ, zero, suc, ◌+◌, ◌-◌, ◌*◌, ◌/◌, ◌%◌, ◌^◌, Bool, true, false, not, Option, some, none, List, [],
  ◌∷◌, ◌++◌, ltb, leb, ◌==◌, if◌then◌else◌, take, set_bits, clear_bits, has_bits,
}
use netmodem2irc.Cd1400
use netmodem2irc.Bus.{Device, Bus, pure, ◌>>=◌, ◌>>◌, read_reg, write_reg}
use netmodem2irc.Ring
use netmodem2irc.Card.{Card, bases}
use netmodem2irc.Port.{
  Port, Stats, ev_rxchar, ev_txempty, ev_cts, ev_dsr, ev_rlsd, ev_break, ev_err, ev_ring,
}

-- A ULONG counter that wraps.
abbrev pub add_ulong : ℕ → ℕ → ℕ
add_ulong a b = (a + b) % 2 ^ 32

-- `CyRxBufPut`: FALSE, and one more overrun, where the buffer is full.
unfoldable pub rx_buf_put : ℕ → Port → Bool × Port
rx_buf_put byte p =
    if leb Ring.ring_size p.rx.count
    then (
      false,
      record p {
        perf_stats = record (p.perf_stats) {
          buffer_overruns = add_ulong p.perf_stats.buffer_overruns 1;
        };
      },
    )
    else (true, record p { rx = Ring.store p.rx byte })

-- `CyTxBufGet`: nothing where the buffer is empty.
unfoldable pub tx_buf_get : Port → Option ℕ × Port
tx_buf_get p =
    if p.tx.count == 0
    then (none, p)
    else (some (Ring.fetch p.tx).0, record p { tx = (Ring.fetch p.tx).1 })

-- `EventHistory |= ev;`
abbrev pub add_event : ℕ → Port → Port
add_event ev p = record p { event_history = set_bits p.event_history ev }

-- `if (status & bit) { ...; EventHistory |= ev; }`, where the dots count the error.
unfoldable pub note : ℕ → ℕ → ℕ → (Stats → Stats) → Port → Port
note status bit ev count_error p =
    if has_bits status bit
    then record p {
      perf_stats = count_error p.perf_stats;
      event_history = set_bits p.event_history ev;
    }
    else p

-- What an exception's line status adds to the counters and events. A break counts as a parity
-- error.
unfoldable pub count_line_errors : ℕ → Port → Port
count_line_errors line_status p =
    note line_status Cd1400.overrun_bit ev_err
      (λ s. record s { serial_overruns = add_ulong s.serial_overruns 1 })
      (note line_status Cd1400.frame_bit ev_err
        (λ s. record s { frame_errors = add_ulong s.frame_errors 1 })
        (note line_status Cd1400.parity_bit ev_err
          (λ s. record s { parity_errors = add_ulong s.parity_errors 1 })
          (note line_status Cd1400.break_bit ev_break
            (λ s. record s { parity_errors = add_ulong s.parity_errors 1 }) p)))

-- `PerfStats.ReceivedCount += n`, `PerfStats.TransmittedCount += n`
abbrev pub count_received : ℕ → Port → Port
count_received n p = record p {
  perf_stats = record (p.perf_stats) { received = add_ulong p.perf_stats.received n };
}

abbrev pub count_transmitted : ℕ → Port → Port
count_transmitted n p = record p {
  perf_stats = record (p.perf_stats) { transmitted = add_ulong p.perf_stats.transmitted n };
}

-- `CY_ISR_MAX_RX_BYTES` caps RDCR.
abbrev pub capped : ℕ → ℕ
capped rdcr = if ltb 12 rdcr then 12 else rdcr

-- `if (misr & bit) EventHistory |= ev;`
unfoldable pub note_line : ℕ → ℕ → ℕ → Port → Port
note_line misr bit ev p = if has_bits misr bit then add_event ev p else p

-- The events of `CyIsrServiceModem`.
unfoldable pub note_modem : ℕ → Port → Port
note_modem misr p = note_line misr Cd1400.ri ev_ring (
    note_line misr Cd1400.dcd ev_rlsd
      (note_line misr Cd1400.dsr ev_dsr (note_line misr Cd1400.cts ev_cts p)))

-- `CY_ISR_MAX_ITERATIONS`
abbrev pub max_iterations : ℕ
max_iterations = 256

module _ (dev : Device) where
  -- The exception branch of `CyIsrServiceReceive`: the status, then the byte.
  unfoldable pub receive_exception : ℕ → Port → Bus Port
  receive_exception base p = do
    line_status ← read_reg dev base Cd1400.rdsr
    byte ← read_reg dev base Cd1400.rdsr
    pure (count_received 1 (rx_buf_put byte (count_line_errors line_status p)).1)

  -- The loop of the normal branch, over the bytes that are still to be read.
  unfoldable pub receive_loop : ℕ → ℕ → Port → Bus Port
  receive_loop zero base p = pure p
  receive_loop (suc n) base p = do
    byte ← read_reg dev base Cd1400.rdsr
    receive_loop n base (rx_buf_put byte p).1

  unfoldable pub receive_normal : ℕ → Port → Bus Port
  receive_normal base p = do
    rdcr ← read_reg dev base Cd1400.rdcr
    p' ← receive_loop (capped rdcr) base p
    pure (count_received (capped rdcr) p')

  unfoldable pub receive_body : ℕ → ℕ → Port → Bus Port
  receive_body base rivr p = do
    p' ← (if has_bits rivr 0x01 then receive_exception base p else receive_normal base p)
    pure (add_event ev_rxchar p')

  -- The loop of `CyIsrServiceTransmit`: the rounds left, `bytesSent`.
  unfoldable pub transmit_loop : ℕ → ℕ → ℕ → Port → Bus (ℕ × Port)
  transmit_loop zero sent base p = pure (sent, p)
  transmit_loop (suc n) sent base p = elim ((tx_buf_get p).0) [
    | none ↦ pure (sent, p)
    | some byte ↦ do
      write_reg dev base Cd1400.tdr byte
      transmit_loop n (sent + 1) base (tx_buf_get p).1
  ]

  -- `srer_val &= ~CyTxRdy` on the channel that the chip has selected.
  unfoldable pub disable_tx_rdy : ℕ → Bus (Unit {0})
  disable_tx_rdy base = do
    srer ← read_reg dev base Cd1400.srer
    write_reg dev base Cd1400.srer (clear_bits srer Cd1400.tx_rdy)

  unfoldable pub transmit_body : ℕ → ℕ → Port → Bus Port
  transmit_body base tivr p = do
    res ← transmit_loop Cd1400.max_char_fifo 0 base p
    let p' : Port = count_transmitted res.0 res.1
    (if p'.tx.count == 0 then (disable_tx_rdy base >> pure (add_event ev_txempty p')) else pure p')

  unfoldable pub modem_body : ℕ → ℕ → Port → Bus Port
  modem_body base mivr p = do
    misr ← read_reg dev base Cd1400.misr
    msvr1 ← read_reg dev base Cd1400.msvr1
    msvr2 ← read_reg dev base Cd1400.msvr2
    pure (note_modem misr (record p { shadow_msvr = set_bits msvr1 msvr2 }))

  -- `CyWriteReg(chipBase, CyEOSRR, 0)`
  abbrev pub end_service : ℕ → Bus (Unit {0})
  end_service base = write_reg dev base Cd1400.eosrr 0

  -- What the three services do past the look-up: without a started port the service only ends; else
  -- the body runs on the port, `*dpcFlags` gets its bit, and the service ends by EOSRR.
  unfoldable pub run_service :
      (ℕ → ℕ → Port → Bus Port) → Card → ℕ → ℕ → ℕ → ℕ → Option Port → Bus (Card × ℕ)
  run_service body card base flags v index none = do end_service base; pure (card, flags)
  run_service body card base flags v index (some p) = do
    p' ← body base v p
    end_service base
    pure (put_port card index p', set_bits flags (2 ^ index % 2 ^ 32))

  -- The vector register names the channel, and so the port. The results are the card and
  -- `*dpcFlags`.
  unfoldable pub service : ℕ → (ℕ → ℕ → Port → Bus Port) → Card → ℕ → ℕ → Bus (Card × ℕ)
  service vector body card base flags = do
    v ← read_reg dev base vector
    let index : ℕ = port_index card base (v / 4 % 4)
    run_service body card base flags v index (started_port card index)

  -- `CyIsrServiceReceive`
  unfoldable pub service_receive : Card → ℕ → ℕ → Bus (Card × ℕ)
  service_receive = service Cd1400.rivr receive_body

  -- `CyIsrServiceTransmit`
  unfoldable pub service_transmit : Card → ℕ → ℕ → Bus (Card × ℕ)
  service_transmit = service Cd1400.tivr transmit_body

  -- `CyIsrServiceModem`
  unfoldable pub service_modem : Card → ℕ → ℕ → Bus (Card × ℕ)
  service_modem = service Cd1400.mivr modem_body

  -- The three tests of one chip's SVRR.
  unfoldable pub serve_receive : ℕ → ℕ → Scan → Bus Scan
  serve_receive base svrr s =
      if has_bits svrr Cd1400.sr_receive
      then (do
        res ← service_receive s.card base s.rx_flags
        pure (active (record s { card = res.0; rx_flags = res.1 })))
      else pure s

  unfoldable pub serve_transmit : ℕ → ℕ → Scan → Bus Scan
  serve_transmit base svrr s =
      if has_bits svrr Cd1400.sr_transmit
      then (do
        res ← service_transmit s.card base s.tx_flags
        pure (active (record s { card = res.0; tx_flags = res.1 })))
      else pure s

  unfoldable pub serve_modem : ℕ → ℕ → Scan → Bus Scan
  serve_modem base svrr s =
      if has_bits svrr Cd1400.sr_modem
      then (do
        res ← service_modem s.card base s.mdm_flags
        pure (active (record s { card = res.0; mdm_flags = res.1 })))
      else pure s

  -- One chip of the inner loop.
  unfoldable pub serve_chip : ℕ → Scan → Bus Scan
  serve_chip base s = do
    svrr ← read_reg dev base Cd1400.svrr
    (if svrr == 0 then pure s else (do
      s1 ← serve_receive base svrr s
      s2 ← serve_transmit base svrr s1
      serve_modem base svrr s2))

  -- The inner loop, over the bases of the chips.
  unfoldable pub scan_chips : List ℕ → Scan → Bus Scan
  scan_chips [] s = pure s
  scan_chips (base ∷ bases) s = do s' ← serve_chip base s; scan_chips bases s'

  -- The outer loop, over the iterations left.
  unfoldable pub isr_loop : ℕ → List ℕ → Scan → Bus Scan
  isr_loop zero bases s = pure s
  isr_loop (suc n) bases s = do
    s' ← scan_chips bases (record s { any_activity = false })
    let more : Bus Scan = isr_loop n bases s'
    (if s'.any_activity then more else pure s')

  -- `CyInterruptService`: what it returns, the card, and the DPCs that it queues, in order.
  unfoldable pub interrupt_service : Card → Bus (Bool × Card × List Dpc)
  interrupt_service card = do
    s ← isr_loop max_iterations (bases (take card.num_chips card.chips)) (record {
      card = card;
      rx_flags = 0;
      tx_flags = 0;
      mdm_flags = 0;
      any_activity = false;
      serviced = false;
    })
    pure (s.serviced, s.card, queue_dpcs 0 (take card.num_pdos s.card.child_pdos) s)
