-- ===== src/Enum/Fresh.antt =====
-- The ports that START_DEVICE makes have well-formed rings.
use netmodem2irc.Base.{
  ℕ, zero, suc, ◌+◌, Option, none, some, List, [], ◌∷◌, set, take, Bool-cases, inl, inr, ltb, ◌==◌,
  Bool, true, false, if◌then◌else◌,
}
use netmodem2irc.Cd1400
use netmodem2irc.Bus.{Device, Log}
use netmodem2irc.Ring.Fifo.{zeroed-IsValid}
use netmodem2irc.Port.{Port, Status, IsValid, nt_success}
use netmodem2irc.Card.{Card, Chip}
use netmodem2irc.Card.Stays.{AllValid}
use netmodem2irc.Enum.{Kernel, start_mapped, start_children, set_card_state}
use netmodem2irc.Enum.Chips.{scan_for_chips}
use netmodem2irc.Enum.Children.{Kids, new_port, create_on_chip, create_on_chips, create_child_pdos}

set-AllValid :
    (ports : List (Option Port)) (i : ℕ) (p : Port)
    → AllValid ports
    → IsValid p
    → AllValid (set ports i (some p))
set-AllValid [] i p v h = tt
set-AllValid (none ∷ ports) zero p v h = (h, v)
set-AllValid (none ∷ ports) (suc i) p v h = set-AllValid ports i p v h
set-AllValid (some q ∷ ports) zero p v h = (h, v.1)
set-AllValid (some q ∷ ports) (suc i) p v h = (v.0, set-AllValid ports i p v.1 h)

new_port-IsValid : (index i : ℕ) (chip : Chip) (chan : ℕ) → IsValid (new_port index i chip chan)
unfolding new_port
new_port-IsValid index i chip chan = record { rx_valid = zeroed-IsValid; tx_valid = zeroed-IsValid }

-- A round of the loop over the channels.
round-AllValid :
    (made : Bool) (index i chan : ℕ) (chip : Chip) (ports : List (Option Port))
    → AllValid ports
    → let kids : Kids =
        if made
        then (index + 1, set ports index (some (new_port index i chip chan)))
        else (index, ports) in
      AllValid kids.1
round-AllValid true index i chan chip ports v =
    set-AllValid ports index (new_port index i chip chan) v (new_port-IsValid index i chip chan)
round-AllValid false index i chan chip ports v = v

module _ (create_device : ℕ → ℕ → Status) where
  create_on_chip-AllValid :
      (n chan i : ℕ) (chip : Chip) (kids : Kids)
      → AllValid kids.1
      → AllValid (create_on_chip create_device n chan i chip kids).1
  unfolding create_on_chip
  create_on_chip-AllValid zero chan i chip kids v = v
  create_on_chip-AllValid (suc n) chan i chip (index, ports) v =
      create_on_chip-AllValid n (chan + 1) i chip _
        (round-AllValid (nt_success (create_device i chan)) index i chan chip ports v)

  create_on_chips-AllValid :
      (i : ℕ) (chips : List Chip) (kids : Kids)
      → AllValid kids.1
      → AllValid (create_on_chips create_device i chips kids).1
  unfolding create_on_chips
  create_on_chips-AllValid i [] kids v = v
  create_on_chips-AllValid i (chip ∷ chips) kids v =
      create_on_chips-AllValid (i + 1) chips
        (create_on_chip create_device Cd1400.ports_per_chip 0 i chip kids)
        (create_on_chip-AllValid Cd1400.ports_per_chip 0 i chip kids v)

start_children-AllValid :
    (k : Kernel) (c : Card) → AllValid c.child_pdos → AllValid (start_children k c).1.child_pdos
unfolding start_children create_child_pdos set_card_state
start_children-AllValid k c v =
    let kids = create_on_chips k.create_device 0 (take c.num_chips c.chips) (0, c.child_pdos) in
    let w =
      create_on_chips-AllValid k.create_device 0 (take c.num_chips c.chips) (0, c.child_pdos) v in
    elim (Bool-cases (c.num_chips == 0)) [
      | inl e ↦ simp e v
      | inr ne ↦ elim (Bool-cases (ltb 0 kids.0)) [
        | inl y ↦ simp (ne, y) w
        | inr x ↦ simp (ne, x) w
      ]
    ]

pub start_mapped-AllValid :
    (dev : Device) (k : Kernel) (b : ℕ) (c : Card) (log : Log)
    → AllValid c.child_pdos
    → AllValid (start_mapped dev k (some b) c log).0.1.child_pdos
unfolding start_mapped scan_for_chips
start_mapped-AllValid dev k b c log v =
    let dev' : Device = record dev { bus_index = c.bus_index } in
    start_children-AllValid k (scan_for_chips dev' (record c { card_base = b }) log).0 v
