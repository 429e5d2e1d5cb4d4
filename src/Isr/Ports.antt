-- ===== src/Isr/Ports.antt =====
-- The interrupt service routine keeps the ports of a card where they are, and their rings well formed.
use netmodem2irc.Base.{
  ℕ, zero, suc, ◌/◌, ◌%◌, false, ◌≡◌, refl, Option, some, none, List, [], ◌∷◌, get_or, arith,
}
use netmodem2irc.Cd1400
use netmodem2irc.Bus.{Device, Bus, Log, read_reg}
use netmodem2irc.Port.{Port}
use netmodem2irc.Port.Whole.{Whole}
use netmodem2irc.Card.{Card}
use netmodem2irc.Card.Stays.{AllValid, AllWhole-of_valid, AllWhole-AllValid, Stays, set_port-Stays}
use netmodem2irc.Isr.{
  Scan, run_service, max_iterations, started_port, port_index, put_port, receive_body,
  transmit_body, modem_body, service, service_receive, service_transmit, service_modem,
  serve_receive, serve_transmit, serve_modem, serve_chip, scan_chips, isr_loop, interrupt_service,
}
use netmodem2irc.Isr.Bodies.{receive_body-Whole, transmit_body-Whole, modem_body-Whole}

started_port-there :
    (card : Card) (i : ℕ) (p : Port)
    → started_port card i ≡ some p
    → get_or card.child_pdos i none ≡ some p
unfolding started_port
started_port-there card i p e = ground (arith, e)

module _ (home : Card) (dev : Device) where
  run_service-Stays :
      (body : ℕ → ℕ → Port → Bus Port) (card : Card) (base flags v index : ℕ) (o : Option Port)
      (log : Log)
      → ((h p : Port) (l : Log) → Whole h p → Whole h (body base v p l).0)
      → Stays home card
      → ((p : Port) → o ≡ some p → get_or card.child_pdos index none ≡ some p)
      → Stays home (run_service dev body card base flags v index o log).0.0
  unfolding run_service put_port
  run_service-Stays body card base flags v index none log keeps s known = s
  run_service-Stays body card base flags v index (some p) log keeps s known =
      set_port-Stays home card index p (body base v p log).0 s (known p refl)
        (λ h w. keeps h p log w)

  -- A service keeps the ports in place if its body keeps a port so.
  service-Stays :
      (vector : ℕ) (body : ℕ → ℕ → Port → Bus Port) (card : Card) (base flags : ℕ) (log : Log)
      → ((v : ℕ) (h p : Port) (l : Log) → Whole h p → Whole h (body base v p l).0)
      → Stays home card
      → Stays home (service dev vector body card base flags log).0.0
  unfolding service
  service-Stays vector body card base flags log keeps s =
      let v = read_reg dev base vector log in
      let index = port_index card base (v.0 / 4 % 4) in
      run_service-Stays body card base flags v.0 index (started_port card index) v.1 (keeps v.0) s
        (λ p e. started_port-there card index p e)

  abbrev Holds : Scan → Type 0
  Holds s = Stays home s.card

  serve_receive_keeps :
      (base svrr : ℕ) (s : Scan) (log : Log) → Holds s → Holds (serve_receive dev base svrr s log).0
  unfolding serve_receive service_receive
  serve_receive_keeps base svrr s log v = ground (
    arith,
    service-Stays Cd1400.rivr (receive_body dev) s.card base s.rx_flags log
        (λ v h p l w. receive_body-Whole dev h base v p l w) v,
  )

  serve_transmit_keeps :
      (base svrr : ℕ) (s : Scan) (log : Log)
      → Holds s
      → Holds (serve_transmit dev base svrr s log).0
  unfolding serve_transmit service_transmit
  serve_transmit_keeps base svrr s log v = ground (
    arith,
    service-Stays Cd1400.tivr (transmit_body dev) s.card base s.tx_flags log
        (λ v h p l w. transmit_body-Whole dev h base v p l w) v,
  )

  serve_modem_keeps :
      (base svrr : ℕ) (s : Scan) (log : Log) → Holds s → Holds (serve_modem dev base svrr s log).0
  unfolding serve_modem service_modem
  serve_modem_keeps base svrr s log v = ground (
    arith,
    service-Stays Cd1400.mivr (modem_body dev) s.card base s.mdm_flags log
        (λ v h p l w. modem_body-Whole dev h base v p l w) v,
  )

  serve_chip_keeps :
      (base : ℕ) (s : Scan) (log : Log) → Holds s → Holds (serve_chip dev base s log).0
  unfolding serve_chip
  serve_chip_keeps base s log v =
      let svrr = read_reg dev base Cd1400.svrr log in
      let r1 = serve_receive dev base svrr.0 s svrr.1 in
      let r2 = serve_transmit dev base svrr.0 r1.0 r1.1 in
      ground (
        arith,
        serve_modem_keeps base svrr.0 r2.0 r2.1 (
            serve_transmit_keeps base svrr.0 r1.0 r1.1
              (serve_receive_keeps base svrr.0 s svrr.1 v)),
      )

  scan_chips_keeps :
      (bases : List ℕ) (s : Scan) (log : Log) → Holds s → Holds (scan_chips dev bases s log).0
  unfolding scan_chips
  scan_chips_keeps [] s log v = v
  scan_chips_keeps (base ∷ bases) s log v =
      scan_chips_keeps bases _ _ (serve_chip_keeps base s log v)

  isr_loop_keeps :
      (n : ℕ) (bases : List ℕ) (s : Scan) (log : Log)
      → Holds s
      → Holds (isr_loop dev n bases s log).0
  unfolding isr_loop
  isr_loop_keeps zero bases s log v = v
  isr_loop_keeps (suc n) bases s log v =
      let s' = scan_chips dev bases (record s { any_activity = false }) log in
      let v' = scan_chips_keeps bases (record s { any_activity = false }) log v in
      ground (arith, isr_loop_keeps n bases s'.0 s'.1 v')

  pub interrupt_service-Stays :
      (card : Card) (log : Log) → Stays home card → Stays home (interrupt_service dev card log).0.1
  unfolding interrupt_service
  interrupt_service-Stays card log s = isr_loop_keeps max_iterations _ _ log s

-- Whatever the chips answer, an interrupt leaves the rings of every port of the card well formed,
-- if they were so.
pub interrupt_service-AllValid :
    (dev : Device) (card : Card) (log : Log)
    → AllValid card.child_pdos
    → AllValid (interrupt_service dev card log).0.1.child_pdos
interrupt_service-AllValid dev card log v =
    let same : Stays card card = record {
      same_base = refl;
      same_chips = refl;
      same_num = refl;
      same_pdos = refl;
      children = AllWhole-of_valid card.child_pdos v;
    } in
    AllWhole-AllValid card.child_pdos _ (interrupt_service-Stays card dev card log same).children
