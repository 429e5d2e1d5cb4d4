-- ===== src/Enum/Scan.antt =====
-- What `CyScanForChips` finds: the first of the eight places that hold a CD1400, without a gap.
use netmodem2irc.Base.{
  ap, ◌∙◌, Option, some, none, true, false, ◌==◌, ◌^◌, ℕ, zero, suc, ◌+◌, ◌*◌, ◌%◌, ◌≤◌, ◌<◌, ◌≡◌,
  refl, Bool-cases, inl, inr, List, [], ◌∷◌, ◌++◌, length, drop, take, get_or, take-append,
  if◌then◌else◌, arith,
}
use netmodem2irc.Cd1400
use netmodem2irc.Bus.{Device, Log, read_reg}
use netmodem2irc.Card.{Card, Chip}
use netmodem2irc.Enum.Chips.{is_cd1400, chip_at, scan_loop, scan_for_chips}

-- A card whose registers answer the same every time.
abbrev pub steady : ℕ → (ℕ → ℕ) → Device
steady bus f = record { bus_index = bus; answer = λ log a. f a }

-- What lies at an address, by the byte that its GFRCR gives: a CD1400 of revision G, or of
-- revision J, which runs at 60 MHz, or nothing.
abbrev pub chip_of : ℕ → ℕ → Option Chip
chip_of base gfrcr =
    if gfrcr == 0x46
    then some (record { base = base; revision = 0x46; is_60mhz = false })
    else if gfrcr == 0x48
    then some (record { base = base; revision = 0x48; is_60mhz = true })
    else none

-- What lies at each of the places of a card, 0x400 apart, GFRCR being at the offset 0x80.
abbrev pub chips_at : ℕ → (ℕ → ℕ) → List ℕ → List (Option Chip)
chips_at bus f [] = []
chips_at bus f (base ∷ bases) =
    chip_of base (f (base + 0x80 * 2 ^ bus) % 256) ∷ chips_at bus f bases

abbrev pub places : ℕ → List ℕ
places base =
    base
    ∷ (base + 0x0400)
    ∷ (base + 0x0800)
    ∷ (base + 0x0C00)
    ∷ (base + 0x1000)
    ∷ (base + 0x1400)
    ∷ (base + 0x1800)
    ∷ (base + 0x1C00)
    ∷ []

-- Up to the first place without a chip.
abbrev pub while_present : List (Option Chip) → List Chip
while_present [] = []
while_present (none ∷ found) = []
while_present (some c ∷ found) = c ∷ while_present found

-- The chips lie one behind the other, from the place `i` on.
abbrev pub Spaced : ℕ → ℕ → List Chip → Type 0
Spaced card_base i [] = Unit {0}
Spaced card_base i (c ∷ chips) =
    (c.base ≡ card_base + i * Cd1400.reg_size) × Spaced card_base (i + 1) chips

pub get_or-Spaced :
    (card_base i : ℕ) (chips : List Chip) (m : ℕ) (d : Chip)
    → Spaced card_base i chips
    → m < length chips
    → (get_or chips m d).base ≡ card_base + (i + m) * Cd1400.reg_size
get_or-Spaced card_base i [] m d s h = absurd (omega arith)
get_or-Spaced card_base i (c ∷ chips) zero d s h = omega (arith, s.0)
get_or-Spaced card_base i (c ∷ chips) (suc m) d s h =
    omega (arith, get_or-Spaced card_base (i + 1) chips m d s.1 (omega arith))

-- The places from the `i`th on.
abbrev places_from : ℕ → ℕ → ℕ → List ℕ
places_from base i zero = []
places_from base i (suc n) = (base + i * 0x0400) ∷ places_from base (i + 1) n

chip_of-chip_at :
    (card_base i rev : ℕ)
    → chip_of (card_base + i * 0x0400) rev
      ≡ (if is_cd1400 rev then some (chip_at card_base i rev) else none)
unfolding is_cd1400 chip_at
chip_of-chip_at card_base i rev = ground arith

scan_loop-while_present :
    (bus : ℕ) (f : ℕ → ℕ) (n i card_base : ℕ) (log : Log)
    → (scan_loop (steady bus f) n i card_base log).0
      ≡ while_present (chips_at bus f (places_from card_base i n))
unfolding scan_loop read_reg
scan_loop-while_present bus f zero i card_base log = refl
scan_loop-while_present bus f (suc n) i card_base log =
    let got = read_reg (steady bus f) (card_base + i * Cd1400.reg_size) Cd1400.gfrcr log in
    elim (Bool-cases (is_cd1400 got.0)) [
      | inl y ↦
          rw
            (
              chip_of-chip_at card_base i got.0,
              y,
              scan_loop-while_present bus f n (i + 1) card_base got.1,
            )
            refl
      | inr x ↦ rw (chip_of-chip_at card_base i got.0, x) refl
    ]

module _ (dev : Device) where
  length-scan_loop :
      (n i card_base : ℕ) (log : Log) → length (scan_loop dev n i card_base log).0 ≤ n
  unfolding scan_loop
  length-scan_loop zero i card_base log = omega arith
  length-scan_loop (suc n) i card_base log =
      let got = read_reg dev (card_base + i * Cd1400.reg_size) Cd1400.gfrcr log in
      ground (arith, length-scan_loop n (i + 1) card_base got.1)

  scan_loop-Spaced :
      (n i card_base : ℕ) (log : Log) → Spaced card_base i (scan_loop dev n i card_base log).0
  unfolding scan_loop chip_at
  scan_loop-Spaced zero i card_base log = tt
  scan_loop-Spaced (suc n) i card_base log =
      let got = read_reg dev (card_base + i * Cd1400.reg_size) Cd1400.gfrcr log in
      elim (Bool-cases (is_cd1400 got.0)) [
        | inl y ↦ rw y (refl, scan_loop-Spaced n (i + 1) card_base got.1)
        | inr x ↦ rw x tt
      ]

  -- What the scan leaves in the card: at most eight chips, one behind the other from the card's base
  -- on, and nothing else is changed.
  pub scan_for_chips-Spaced :
      (c : Card) (log : Log)
      → ((scan_for_chips dev c log).0.num_chips ≤ 8)
        × (Spaced c.card_base 0
              (take (scan_for_chips dev c log).0.num_chips (scan_for_chips dev c log).0.chips)
            × (length
                  (take (scan_for_chips dev c log).0.num_chips (scan_for_chips dev c log).0.chips)
                ≡ (scan_for_chips dev c log).0.num_chips))
  unfolding scan_for_chips
  scan_for_chips-Spaced c log =
      let found = (scan_loop dev 8 0 c.card_base log).0 in
      (
        length-scan_loop 8 0 c.card_base log,
        rw (take-append found (drop (length found) c.chips))
            (scan_loop-Spaced 8 0 c.card_base log, refl),
      )

-- The scan of a card whose registers answer the same every time finds what lies at the eight places
-- of the card up to the first without a CD1400, each chip with its address, its revision and its
-- clock: NumChips is their number, and they are at the front of the array, whose other entries stay.
pub scan_for_chips-while_present :
    (bus : ℕ) (f : ℕ → ℕ) (c : Card) (log : Log)
    → let found = while_present (chips_at bus f (places c.card_base)) in
      (scan_for_chips (steady bus f) c log).0
      ≡ record c { num_chips = length found; chips = found ++ drop (length found) c.chips }
unfolding scan_for_chips
scan_for_chips-while_present bus f c log =
    let eight : places_from c.card_base 0 8 ≡ places c.card_base = ground arith in
    rw
      (scan_loop-while_present bus f 8 0 c.card_base log
        ∙ ap (λ (l : List ℕ). while_present (chips_at bus f l)) eight)
      refl
