-- ===== src/Enum/Layout.antt =====
-- Where `CyCreateChildPDOs` puts the ports: with a device object for each, the port of the channel
-- `j` of the chip number `i` is the child number 4 i + j.
use netmodem2irc.Base.{
  ℕ, zero, suc, ◌+◌, ◌*◌, ◌<◌, ◌≤◌, ◌≡◌, refl, true, Option, some, none, List, [], ◌∷◌, length,
  get_or, set, get_or-set_self, get_or-set_ne, length-set, arith, le-cases, inl, inr,
}
use netmodem2irc.Cd1400
use netmodem2irc.Port.{Port, Status, nt_success}
use netmodem2irc.Card.{Chip}
use netmodem2irc.Enum.Children.{Kids, new_port, create_on_chip, create_on_chips}

abbrev fill : ℕ → ℕ → ℕ → Chip → List (Option Port) → List (Option Port)
fill index chan i chip ports = set ports index (some (new_port index i chip chan))

module _ (create_device : ℕ → ℕ → Status) (all : (i j : ℕ) → nt_success (create_device i j) ≡ true)
    (i : ℕ) (chip : Chip) where
  -- One round, with a device object.
  create_on_chip-made :
      (n chan index : ℕ) (ports : List (Option Port))
      → create_on_chip create_device (suc n) chan i chip (index, ports)
        ≡ create_on_chip create_device n (chan + 1) i chip (index + 1, fill index chan i chip ports)
  unfolding create_on_chip
  create_on_chip-made n chan index ports = rw (all i chan, create_on_chip) refl

  create_on_chip-index :
      (n chan index : ℕ) (ports : List (Option Port))
      → (create_on_chip create_device n chan i chip (index, ports)).0 ≡ index + n
  unfolding create_on_chip
  create_on_chip-index zero chan index ports = omega arith
  create_on_chip-index (suc n) chan index ports =
      rw (create_on_chip-made n chan index ports) (
        omega (arith, create_on_chip-index n (chan + 1) (index + 1) (fill index chan i chip ports)))

  length-create_on_chip :
      (n chan index : ℕ) (ports : List (Option Port))
      → length (create_on_chip create_device n chan i chip (index, ports)).1 ≡ length ports
  unfolding create_on_chip
  length-create_on_chip zero chan index ports = refl
  length-create_on_chip (suc n) chan index ports =
      rw
        (
          create_on_chip-made n chan index ports,
          length-create_on_chip n (chan + 1) (index + 1) (fill index chan i chip ports),
        )
        (length-set ports index _)

  create_on_chip-below :
      (n chan index : ℕ) (ports : List (Option Port)) (k : ℕ)
      → k < index
      → get_or (create_on_chip create_device n chan i chip (index, ports)).1 k none
        ≡ get_or ports k none
  unfolding create_on_chip
  create_on_chip-below zero chan index ports k h = refl
  create_on_chip-below (suc n) chan index ports k h =
      rw
        (
          create_on_chip-made n chan index ports,
          create_on_chip-below n (chan + 1) (index + 1) (fill index chan i chip ports) k
              (omega arith),
        )
        (get_or-set_ne ports {i = index} {j = k} _ none
          (λ (e : index ≡ k). absurd (omega (arith, e))))

  create_on_chip-at :
      (n chan index : ℕ) (ports : List (Option Port)) (k c : ℕ)
      → index ≤ k
      → k < index + n
      → index + c ≡ k + chan
      → index + n ≤ length ports
      → get_or (create_on_chip create_device n chan i chip (index, ports)).1 k none
        ≡ some (new_port k i chip c)
  create_on_chip-at zero chan index ports k c above below same room = absurd (omega arith)
  create_on_chip-at (suc n) chan index ports k c above below same room =
      let rest = fill index chan i chip ports in
      rw (create_on_chip-made n chan index ports) (elim (le-cases above) [
        | inl e ↦
            let here : c ≡ chan = omega arith in
            rw (e, here, create_on_chip-below n (chan + 1) (index + 1) rest index (omega arith))
              (get_or-set_self ports index _ none (omega arith))
        | inr lt ↦
            create_on_chip-at n (chan + 1) (index + 1) rest k c (omega arith) (omega arith)
              (omega arith)
              (rw (length-set ports index (some (new_port index i chip chan))) (omega arith))
      ])

module _ (create_device : ℕ → ℕ → Status)
    (all : (i j : ℕ) → nt_success (create_device i j) ≡ true) where
  abbrev after : ℕ → Chip → Kids → Kids
  after i chip kids = create_on_chip create_device Cd1400.ports_per_chip 0 i chip kids

  pub create_on_chips-index :
      (i : ℕ) (chips : List Chip) (kids : Kids)
      → (create_on_chips create_device i chips kids).0 ≡ kids.0 + 4 * length chips
  unfolding create_on_chips
  create_on_chips-index i [] kids = omega arith
  create_on_chips-index i (chip ∷ chips) kids = omega (
    arith,
    create_on_chips-index (i + 1) chips (after i chip kids),
    create_on_chip-index create_device all i chip 4 0 kids.0 kids.1,
  )

  pub length-create_on_chips :
      (i : ℕ) (chips : List Chip) (kids : Kids)
      → length (create_on_chips create_device i chips kids).1 ≡ length kids.1
  unfolding create_on_chips
  length-create_on_chips i [] kids = refl
  length-create_on_chips i (chip ∷ chips) kids =
      rw (length-create_on_chips (i + 1) chips (after i chip kids))
        (length-create_on_chip create_device all i chip 4 0 kids.0 kids.1)

  create_on_chips-below :
      (i : ℕ) (chips : List Chip) (kids : Kids) (k : ℕ)
      → k < kids.0
      → get_or (create_on_chips create_device i chips kids).1 k none ≡ get_or kids.1 k none
  unfolding create_on_chips
  create_on_chips-below i [] kids k h = refl
  create_on_chips-below i (chip ∷ chips) kids k h =
      let grown = create_on_chip-index create_device all i chip 4 0 kids.0 kids.1 in
      rw (create_on_chips-below (i + 1) chips (after i chip kids) k (omega (arith, grown)))
        (create_on_chip-below create_device all i chip 4 0 kids.0 kids.1 k h)

  pub create_on_chips-at :
      (i : ℕ) (chips : List Chip) (kids : Kids) (m c k j : ℕ) (d : Chip)
      → m < length chips
      → c < 4
      → k ≡ kids.0 + 4 * m + c
      → j ≡ i + m
      → kids.0 + 4 * length chips ≤ length kids.1
      → get_or (create_on_chips create_device i chips kids).1 k none
        ≡ some (new_port k j (get_or chips m d) c)
  unfolding create_on_chips
  create_on_chips-at i [] kids m c k j d hm hc ek ej room = absurd (omega arith)
  create_on_chips-at i (chip ∷ chips) kids zero c k j d hm hc ek ej room =
      let grown = create_on_chip-index create_device all i chip 4 0 kids.0 kids.1 in
      let same : j ≡ i = omega arith in
      rw (same, create_on_chips-below (i + 1) chips (after i chip kids) k (omega (arith, grown)))
        (create_on_chip-at create_device all i chip 4 0 kids.0 kids.1 k c (omega arith)
          (omega arith) (omega arith) (omega arith))
  create_on_chips-at i (chip ∷ chips) kids (suc m) c k j d hm hc ek ej room =
      let grown = create_on_chip-index create_device all i chip 4 0 kids.0 kids.1 in
      let long = length-create_on_chip create_device all i chip 4 0 kids.0 kids.1 in
      create_on_chips-at (i + 1) chips (after i chip kids) m c k j d (omega arith) hc
        (omega (arith, grown)) (omega arith) (omega (arith, grown, long))
