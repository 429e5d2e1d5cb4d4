-- ===== src/Enum/Start.antt =====
-- START_DEVICE of a card succeeds exactly where it leaves the card started, and then the interrupt
-- service routine finds the port of every channel of every chip.
use netmodem2irc.Base.{
  ℕ, ◌≡◌, refl, Bool, false, Bool-cases, Option, none, some, List, take, arith, inl, inr, ◌==◌, ◌∙◌,
  [], ◌∷◌, ltb,
}
use netmodem2irc.Cd1400
use netmodem2irc.Bus.{Device, Log}
use netmodem2irc.Port.{Status, nt_success}
use netmodem2irc.Card.{Card}
use netmodem2irc.Enum.{Kernel, find_memory, fdo_start, start_mapped, start_children, set_card_state}
use netmodem2irc.Enum.Resources.{
  Resource, note_resource, parse_resources, probe, scan_isa, isa_addresses,
}
use netmodem2irc.Enum.Chips.{scan_for_chips}
use netmodem2irc.Enum.Children.{create_child_pdos, create_on_chips}

abbrev Found : Type 0
Found = Card × Bool × Bool

start_children-started :
    (k : Kernel) (c : Card)
    → c.started ≡ false
    → nt_success (start_children k c).0 ≡ (start_children k c).1.started
unfolding start_children create_child_pdos set_card_state
start_children-started k c h =
    let kids = create_on_chips k.create_device 0 (take c.num_chips c.chips) (0, c.child_pdos) in
    elim (Bool-cases (c.num_chips == 0)) [
      | inl e ↦ rw (e, h) refl
      | inr ne ↦ elim (Bool-cases (ltb 0 kids.0)) [
        | inl some_port ↦ rw (ne, some_port) refl
        | inr no_port ↦ rw (ne, no_port, h) refl
      ]
    ]

start_children-lock_count :
    (k : Kernel) (c : Card) → (start_children k c).1.lock_count ≡ c.lock_count
unfolding start_children create_child_pdos set_card_state
start_children-lock_count k c =
    let kids = create_on_chips k.create_device 0 (take c.num_chips c.chips) (0, c.child_pdos) in
    elim (Bool-cases (c.num_chips == 0)) [
      | inl e ↦ simp e
      | inr ne ↦ elim (Bool-cases (ltb 0 kids.0)) [ inl y ↦ simp (ne, y) | inr x ↦ simp (ne, x) ]
    ]

-- The steps before the memory is mapped leave these two alone.
abbrev Keeps : Card → Card → Type 0
Keeps c c' = (c'.started ≡ c.started) × (c'.lock_count ≡ c.lock_count)

note_resource-Keeps : (r : Resource) (found : Found) → Keeps found.0 (note_resource r found).0
unfolding note_resource
note_resource-Keeps (Resource.memory start len) found = ground arith
note_resource-Keeps (Resource.interrupt level vector affinity latched) found = ground arith
note_resource-Keeps Resource.other_resource found = (refl, refl)

parse_resources-Keeps :
    (rs : List Resource) (found : Found) → Keeps found.0 (parse_resources rs found).0
unfolding parse_resources
parse_resources-Keeps [] found = (refl, refl)
parse_resources-Keeps (r ∷ rs) found =
    let first = note_resource-Keeps r found in
    let rest = parse_resources-Keeps rs (note_resource r found) in
    (rest.0 ∙ first.0, rest.1 ∙ first.1)

module _ (dev : Device) where
  scan_isa-Keeps :
      (map_io_space : ℕ → ℕ → Option ℕ) (addresses : List ℕ) (c : Card) (log : Log)
      → Keeps c (scan_isa dev map_io_space addresses c log).0
  unfolding scan_isa
  scan_isa-Keeps map_io_space [] c log = (refl, refl)
  scan_isa-Keeps map_io_space (phys ∷ addresses) c log =
      let got = probe dev map_io_space (map_io_space phys Cd1400.isa_window) log in
      elim (Bool-cases got.0) [
        | inl y ↦ rw y (refl, refl)
        | inr x ↦ rw x (scan_isa-Keeps map_io_space addresses c got.1)
      ]

  find_memory-Keeps :
      (k : Kernel) (resources : List Resource) (c : Card) (log : Log)
      → Keeps c (find_memory dev k resources c log).0
  unfolding find_memory
  find_memory-Keeps k resources c log =
      let parsed = parse_resources resources (c, false, false) in
      let same = parse_resources-Keeps resources (c, false, false) in
      let scanned = scan_isa-Keeps k.map_io_space isa_addresses parsed.0 log in
      elim (Bool-cases parsed.1) [
        | inl pci ↦ rw pci same
        | inr isa ↦ rw isa (scanned.0 ∙ same.0, scanned.1 ∙ same.1)
      ]

  start_mapped-started :
      (k : Kernel) (base : Option ℕ) (c : Card) (log : Log)
      → c.started ≡ false
      → nt_success (start_mapped dev k base c log).0.0 ≡ (start_mapped dev k base c log).0.1.started
  unfolding start_mapped scan_for_chips
  start_mapped-started k none c log h = rw h refl
  start_mapped-started k (some b) c log h =
      start_children-started k
        (scan_for_chips (record dev { bus_index = c.bus_index }) (record c { card_base = b }) log).0
        h

  -- START_DEVICE of a card, whatever its resources, the hardware and the kernel answer, returns a
  -- success exactly where it leaves the card started.
  pub fdo_start-started :
      (k : Kernel) (lower : Status) (resources : List Resource) (c : Card) (log : Log)
      → nt_success (fdo_start dev k lower resources c log).0.0
        ≡ (fdo_start dev k lower resources c log).0.1.started
  unfolding fdo_start
  fdo_start-started k lower resources c log =
      let found = find_memory dev k resources c log in
      elim (Bool-cases c.started) [
        | inl s ↦ simp s
        | inr not_yet ↦ elim (Bool-cases (nt_success lower)) [
          | inr failed ↦ simp (not_yet, failed)
          | inl passed ↦ simp (
            not_yet,
            passed,
            start_mapped-started k (k.map_io_space (found.0).physical_base (found.0).mapped_length)
                found.0 found.1 ((find_memory-Keeps k resources c log).0 ∙ not_yet),
          )
        ]
      ]

  start_mapped-lock_count :
      (k : Kernel) (base : Option ℕ) (c : Card) (log : Log)
      → (start_mapped dev k base c log).0.1.lock_count ≡ c.lock_count
  unfolding start_mapped scan_for_chips
  start_mapped-lock_count k none c log = refl
  start_mapped-lock_count k (some b) c log =
      start_children-lock_count k
        (scan_for_chips (record dev { bus_index = c.bus_index }) (record c { card_base = b }) log).0

  pub fdo_start-lock_count :
      (k : Kernel) (lower : Status) (resources : List Resource) (c : Card) (log : Log)
      → (fdo_start dev k lower resources c log).0.1.lock_count ≡ c.lock_count
  unfolding fdo_start
  fdo_start-lock_count k lower resources c log =
      let found = find_memory dev k resources c log in
      let same = (find_memory-Keeps k resources c log).1 in
      elim (Bool-cases c.started) [
        | inl s ↦ simp s
        | inr not_yet ↦ elim (Bool-cases (nt_success lower)) [
          | inr failed ↦ simp (not_yet, failed)
          | inl passed ↦ simp (
            not_yet,
            passed,
            start_mapped-lock_count k
                  (k.map_io_space (found.0).physical_base (found.0).mapped_length) found.0 found.1
                ∙ same,
          )
        ]
      ]
