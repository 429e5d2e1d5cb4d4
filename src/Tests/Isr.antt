-- ===== src/Tests/Isr.antt =====
-- Examples of the theorems on Isr.
use netmodem2irc.Cd1400
use netmodem2irc.Base.{
  ℕ, ◌%◌, ◌≡◌, refl, [], ◌∷◌, ◌-◌, ◌++◌, take, true, has_bits, min, drop, clear_bits, if◌then◌else◌,
  leb,
}
use netmodem2irc.Bus.{Device, Log, read_reg, wr, address}
use netmodem2irc.Port.{Port}
use netmodem2irc.Card.{Card, bases}
use netmodem2irc.Card.Stays.{AllValid}
use netmodem2irc.Isr.{receive_body, transmit_body, interrupt_service, add_ulong}
use netmodem2irc.Isr.Ports.{interrupt_service-AllValid}
use netmodem2irc.Ring.{ring_size}
use netmodem2irc.Ring.Fifo.{contents}
use netmodem2irc.Isr.Receive.{receive_body_exception}
use netmodem2irc.Isr.Transmit.{tdr_writes, transmit_body_lem}
use netmodem2irc.Isr.Protocol.{Services, interrupt_service-Services}
use netmodem2irc.Tests.Fixtures.{stub, port, port-IsValid, card}

interrupt_service-AllValid_example :
    let dev : Device = stub in
    let card : Card = card in
    let log : Log = [] in AllValid (interrupt_service dev card log).0.1.child_pdos
interrupt_service-AllValid_example = interrupt_service-AllValid stub card ([]) ((port-IsValid, tt))

receive_body_exception_example :
    let dev : Device = stub in
    let base : ℕ = 0x1000 in
    let rivr : ℕ = 3 in
    let p : Port = port in
    let log : Log = [] in
    let status = read_reg dev base Cd1400.rdsr log in
    let byte = read_reg dev base Cd1400.rdsr status.1 in
    let res = receive_body dev base rivr p log in
    (contents res.0.rx ≡ contents p.rx ++ take (ring_size - p.rx.count) (byte.0 ∷ []))
    × (res.0.perf_stats.received ≡ add_ulong p.perf_stats.received 1)
    × (res.1 ≡ byte.1)
    × (has_bits Cd1400.ivr_rx_ok 0x01 ≡ true)
    × (has_bits Cd1400.ivr_rx_ex 0x01 ≡ true)
unfolding has_bits
receive_body_exception_example = receive_body_exception stub 0x1000 3 port ([]) port-IsValid refl

transmit_body_lem_example :
    let dev : Device = stub in
    let base : ℕ = 0x1000 in
    let tivr : ℕ = 2 in
    let p : Port = port in
    let log : Log = [] in
    let bytes = take Cd1400.max_char_fifo (contents p.tx) in
    let sent = tdr_writes stub 0x1000 bytes log in
    let srer = read_reg dev base Cd1400.srer sent in
    let res = transmit_body dev base tivr p log in
    (contents res.0.tx ≡ drop Cd1400.max_char_fifo (contents p.tx))
    × (res.0.perf_stats.transmitted
        ≡ add_ulong p.perf_stats.transmitted (min Cd1400.max_char_fifo p.tx.count))
    × (res.1 ≡ (
        if leb p.tx.count Cd1400.max_char_fifo
        then wr (address dev base Cd1400.srer) (clear_bits srer.0 Cd1400.tx_rdy % 256) ∷ srer.1
        else sent))
transmit_body_lem_example = transmit_body_lem stub 0x1000 2 port ([]) port-IsValid

interrupt_service-Services_example :
    let dev : Device = stub in
    let card : Card = card in
    let log : Log = [] in
    Services dev (bases (take card.num_chips card.chips)) log (interrupt_service dev card log).1
interrupt_service-Services_example = interrupt_service-Services stub card ([])
