-- ===== src/Tests/System.antt =====
-- Examples of the theorems on System.
use netmodem2irc.Pdo
use netmodem2irc.Base.{ℕ, refl, some, get_or, arith, [], false}
use netmodem2irc.Bus.{read_reg}
use netmodem2irc.Port.{Port, Status}
use netmodem2irc.Card.{Card, Chip}
use netmodem2irc.Isr.{interrupt_service}
use netmodem2irc.Enum.{start_mapped, start_children, set_card_state}
use netmodem2irc.Enum.Children.{new_port, create_on_chip, create_on_chips, create_child_pdos}
use netmodem2irc.System.{Step, Reach}
use netmodem2irc.System.Cards.{CardStep, CardReach, Serves, CardReach-Serves}
use netmodem2irc.Pdo.{dispatch_pnp, pdo_pnp, pdo_minor, pdo_start, pdo_remove, name_port}
use netmodem2irc.Port.Keeps.{Quiet}
use netmodem2irc.System.Idle.{Reach-Quiet}
use netmodem2irc.Tests.Fixtures.{
  stub, request, card_kernel, new_card, port_kernel, pdo_port, card_chip,
}
use netmodem2irc.Enum.Scan.{steady}
use netmodem2irc.Enum.Chips.{scan_for_chips, scan_loop, is_cd1400}

CardReach-Serves_example :
    let d : Card =
      (interrupt_service
        (steady 0 (λ a. 0x46))
        (start_mapped (steady 0 (λ a. 0x46)) card_kernel (some 0x1000) new_card []).0.1
        []).0.1 in
    let m : ℕ = 2 in
    let ch : ℕ = 3 in
    let x : Chip = record { base = 0; revision = 0; is_60mhz = false } in
    (p : Port) × Serves d (get_or d.chips m x) ch p
unfolding start_mapped start_children create_child_pdos set_card_state scan_for_chips scan_loop
    read_reg create_on_chips create_on_chip is_cd1400
CardReach-Serves_example =
    CardReach-Serves (steady 0 (λ a. 0x46)) card_kernel 0x1000 new_card
      ((interrupt_service (steady 0 (λ a. 0x46))
        (start_mapped (steady 0 (λ a. 0x46)) card_kernel (some 0x1000) new_card []).0.1 []).0.1)
      ([]) 2 3 (record { base = 0; revision = 0; is_60mhz = false }) (λ i j. refl) tt (omega arith)
      (omega arith) (omega arith) (omega arith)
      (CardReach.next _ _ CardReach.start (CardStep.interrupt []))

Reach-Quiet_example : let p : Port = pdo_port in Quiet p
Reach-Quiet_example = Reach-Quiet stub pdo_port (
    Reach.next (new_port 0 0 card_chip 1) pdo_port (Reach.start 0 0 card_chip 1)
      (Step.pnp Status.success port_kernel 64 Pdo.Minor.start_device request []))
