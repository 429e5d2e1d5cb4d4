-- ===== src/Isr/Protocol.antt =====
-- The service protocol of the CD1400: reading a vector register opens a service, in which the chip
-- selects the channel itself, and writing EOSRR ends it.
use netmodem2irc.Base.{
  ℕ, zero, suc, ◌≡◌, refl, ◌≢◌, ◌⊎◌, ◌<◌, take, inl, inr, Option, some, none, Option-cases, List,
  [], ◌∷◌, arith, false,
}
use netmodem2irc.Cd1400
use netmodem2irc.Bus.{Device, Bus, Log, rd, wr, address, read_reg, write_reg}
use netmodem2irc.Port.{Port}
use netmodem2irc.Card.{Card, bases}
use mathlib.Core.List.{Memᴰ}
use netmodem2irc.Isr.{
  Scan, max_iterations, tx_buf_get, receive_exception, receive_loop, receive_normal, receive_body,
  transmit_loop, transmit_body, disable_tx_rdy, modem_body, run_service, service, service_receive,
  service_transmit, service_modem, serve_receive, serve_transmit, serve_modem, serve_chip,
  scan_chips, isr_loop, interrupt_service,
}

-- A vector register.
abbrev pub IsVector : ℕ → Type 0
IsVector reg = (reg ≡ Cd1400.rivr) ⊎ (reg ≡ Cd1400.tivr) ⊎ (reg ≡ Cd1400.mivr)

-- A register of the chip that a service may use: not EOSRR, not CAR, which is the chip's meanwhile, and none
-- that polls or opens another service.
abbrev pub InService : ℕ → Type 0
InService reg =
    (reg ≢ Cd1400.eosrr)
    × (reg ≢ Cd1400.car)
    × (reg ≢ Cd1400.svrr)
    × (reg ≢ Cd1400.rivr)
    × (reg ≢ Cd1400.tivr)
    × (reg ≢ Cd1400.mivr)
    × (reg < 0x0100)

-- The accesses of an open service.
pub data Body (dev : Device) (base : ℕ) (before : Log) : Log → Type 0 where
  opened : Body dev base before before
  reads :
      {log : Log} (reg v : ℕ)
      → InService reg
      → Body dev base before log
      → Body dev base before (rd (address dev base reg) v ∷ log)
  writes :
      {log : Log} (reg v : ℕ)
      → InService reg
      → Body dev base before log
      → Body dev base before (wr (address dev base reg) v ∷ log)

-- From the first log to the second, SVRR is polled, and each service runs from the read of a vector
-- to the write of EOSRR on one chip. The chips lie at `chips`.
pub data Services (dev : Device) (chips : List ℕ) (before : Log) : Log → Type 0 where
  idle : Services dev chips before before
  polls :
      {log : Log} (base v : ℕ)
      → Memᴰ base chips
      → Services dev chips before log
      → Services dev chips before (rd (address dev base Cd1400.svrr) v ∷ log)
  serves :
      {log after : Log} (base vector v : ℕ)
      → Memᴰ base chips
      → IsVector vector
      → Services dev chips before log
      → Body dev base (rd (address dev base vector) v ∷ log) after
      → Services dev chips before (wr (address dev base Cd1400.eosrr) 0 ∷ after)

module _ (dev : Device) (base : ℕ) (before : Log) where
  receive_loop-Body :
      (n : ℕ) (p : Port) (log : Log)
      → Body dev base before log
      → Body dev base before (receive_loop dev n base p log).1
  unfolding receive_loop read_reg
  receive_loop-Body zero p log b = b
  receive_loop-Body (suc n) p log b = receive_loop-Body n _ _ (reads Cd1400.rdsr _ (omega arith) b)

  receive_exception-Body :
      (p : Port) (log : Log)
      → Body dev base before log
      → Body dev base before (receive_exception dev base p log).1
  unfolding receive_exception read_reg
  receive_exception-Body p log b =
      reads Cd1400.rdsr _ (omega arith) (reads Cd1400.rdsr _ (omega arith) b)

  receive_normal-Body :
      (p : Port) (log : Log)
      → Body dev base before log
      → Body dev base before (receive_normal dev base p log).1
  unfolding receive_normal read_reg
  receive_normal-Body p log b = receive_loop-Body _ p _ (reads Cd1400.rdcr _ (omega arith) b)

  receive_body-Body :
      (v : ℕ) (p : Port) (log : Log)
      → Body dev base before log
      → Body dev base before (receive_body dev base v p log).1
  unfolding receive_body
  receive_body-Body v p log b =
      ground (arith, receive_exception-Body p log b, receive_normal-Body p log b)

  transmit_loop-Body :
      (n sent : ℕ) (p : Port) (log : Log)
      → Body dev base before log
      → Body dev base before (transmit_loop dev n sent base p log).1
  unfolding transmit_loop write_reg
  transmit_loop-Body zero sent p log b = b
  transmit_loop-Body (suc n) sent p log b = elim (Option-cases ((tx_buf_get p).0)) [
    | inl empty ↦ rw (empty, transmit_loop) b
    | inr (byte, e) ↦
        rw (e, transmit_loop) (transmit_loop-Body n _ _ _ (writes Cd1400.tdr _ (omega arith) b))
  ]

  disable_tx_rdy-Body :
      (log : Log) → Body dev base before log → Body dev base before (disable_tx_rdy dev base log).1
  unfolding disable_tx_rdy read_reg write_reg
  disable_tx_rdy-Body log b =
      writes Cd1400.srer _ (omega arith) (reads Cd1400.srer _ (omega arith) b)

  transmit_body-Body :
      (v : ℕ) (p : Port) (log : Log)
      → Body dev base before log
      → Body dev base before (transmit_body dev base v p log).1
  unfolding transmit_body
  transmit_body-Body v p log b =
      let sent = transmit_loop-Body Cd1400.max_char_fifo 0 p log b in
      ground (arith, sent, disable_tx_rdy-Body _ sent)

  modem_body-Body :
      (v : ℕ) (p : Port) (log : Log)
      → Body dev base before log
      → Body dev base before (modem_body dev base v p log).1
  unfolding modem_body read_reg
  modem_body-Body v p log b =
      reads Cd1400.msvr2 _ (omega arith)
        (reads Cd1400.msvr1 _ (omega arith) (reads Cd1400.misr _ (omega arith) b))

module _ (dev : Device) (chips : List ℕ) (before : Log) where
  run_service-Services :
      (vector : ℕ) (body : ℕ → ℕ → Port → Bus Port) (card : Card) (base flags v index : ℕ)
      (o : Option Port) (log : Log)
      → Memᴰ base chips
      → IsVector vector
      → ((p : Port) (l : Log)
          → Body dev base (rd (address dev base vector) v ∷ log) l
          → Body dev base (rd (address dev base vector) v ∷ log) (body base v p l).1)
      → Services dev chips before log
      → Services dev chips before
          (run_service dev body card base flags v index o (rd (address dev base vector) v ∷ log)).1
  unfolding run_service write_reg
  run_service-Services vector body card base flags v index none log at is keeps s =
      serves base vector v at is s opened
  run_service-Services vector body card base flags v index (some p) log at is keeps s =
      serves base vector v at is s (keeps p _ opened)

  service-Services :
      (vector : ℕ) (body : ℕ → ℕ → Port → Bus Port) (card : Card) (base flags : ℕ) (log : Log)
      → Memᴰ base chips
      → IsVector vector
      → ((l0 : Log) (v : ℕ) (p : Port) (l : Log)
          → Body dev base l0 l
          → Body dev base l0 (body base v p l).1)
      → Services dev chips before log
      → Services dev chips before (service dev vector body card base flags log).1
  unfolding service read_reg
  service-Services vector body card base flags log at is keeps s =
      run_service-Services vector body card base flags _ _ _ log at is (keeps _ _) s

  serve_receive-Services :
      (base svrr : ℕ) (s : Scan) (log : Log)
      → Memᴰ base chips
      → Services dev chips before log
      → Services dev chips before (serve_receive dev base svrr s log).1
  unfolding serve_receive service_receive
  serve_receive-Services base svrr s log at h = ground (
    arith,
    h,
    service-Services Cd1400.rivr (receive_body dev) s.card base s.rx_flags log at (inl refl)
        (receive_body-Body dev base) h,
  )

  serve_transmit-Services :
      (base svrr : ℕ) (s : Scan) (log : Log)
      → Memᴰ base chips
      → Services dev chips before log
      → Services dev chips before (serve_transmit dev base svrr s log).1
  unfolding serve_transmit service_transmit
  serve_transmit-Services base svrr s log at h = ground (
    arith,
    h,
    service-Services Cd1400.tivr (transmit_body dev) s.card base s.tx_flags log at (inr (inl refl))
        (transmit_body-Body dev base) h,
  )

  serve_modem-Services :
      (base svrr : ℕ) (s : Scan) (log : Log)
      → Memᴰ base chips
      → Services dev chips before log
      → Services dev chips before (serve_modem dev base svrr s log).1
  unfolding serve_modem service_modem
  serve_modem-Services base svrr s log at h = ground (
    arith,
    h,
    service-Services Cd1400.mivr (modem_body dev) s.card base s.mdm_flags log at (inr (inr refl))
        (modem_body-Body dev base) h,
  )

  serve_chip-Services :
      (base : ℕ) (s : Scan) (log : Log)
      → Memᴰ base chips
      → Services dev chips before log
      → Services dev chips before (serve_chip dev base s log).1
  unfolding serve_chip read_reg
  serve_chip-Services base s log at h =
      let svrr = read_reg dev base Cd1400.svrr log in
      let r1 = serve_receive dev base svrr.0 s svrr.1 in
      let r2 = serve_transmit dev base svrr.0 r1.0 r1.1 in
      let polled : Services dev chips before svrr.1 = polls base svrr.0 at h in
      ground (
        arith,
        polled,
        serve_modem-Services base svrr.0 r2.0 r2.1 at (
            serve_transmit-Services base svrr.0 r1.0 r1.1 at
              (serve_receive-Services base svrr.0 s svrr.1 at polled)),
      )

  scan_chips-Services :
      (bases : List ℕ) (s : Scan) (log : Log)
      → ((base : ℕ) → Memᴰ base bases → Memᴰ base chips)
      → Services dev chips before log
      → Services dev chips before (scan_chips dev bases s log).1
  unfolding scan_chips
  scan_chips-Services [] s log all h = h
  scan_chips-Services (base ∷ bases) s log all h =
      scan_chips-Services bases _ _ (λ b m. all b (Memᴰ.tail m))
        (serve_chip-Services base s log (all base (Memᴰ.head refl)) h)

  isr_loop-Services :
      (n : ℕ) (s : Scan) (log : Log)
      → Services dev chips before log
      → Services dev chips before (isr_loop dev n chips s log).1
  unfolding isr_loop
  isr_loop-Services zero s log h = h
  isr_loop-Services (suc n) s log h =
      let s' = scan_chips dev chips (record s { any_activity = false }) log in
      let h' = scan_chips-Services chips (record s { any_activity = false }) log (λ b m. m) h in
      ground (arith, h', isr_loop-Services n s'.0 s'.1 h')

-- An interrupt polls SVRR of the card's chips and serves them: each read of a vector register is
-- followed, before any other poll or vector read, by the write of EOSRR on the same chip, and in
-- between the service touches only registers of that chip and neither EOSRR nor CAR; whatever the
-- chips answer and whichever ports are there.
pub interrupt_service-Services :
    (dev : Device) (card : Card) (log : Log)
    → Services dev (bases (take card.num_chips card.chips)) log (interrupt_service dev card log).1
unfolding interrupt_service
interrupt_service-Services dev card log =
    let chips = bases (take card.num_chips card.chips) in
    isr_loop-Services dev chips log max_iterations _ log idle
