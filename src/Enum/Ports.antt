-- ===== src/Enum/Ports.antt =====
-- How a card's ports and its interrupt service routine fit: the routine computes the index of a
-- port from its chip's address and its channel, and START_DEVICE puts that port there.
use netmodem2irc.Base.{
  ℕ, ◌+◌, ◌*◌, ◌^◌, ◌≤◌, ◌<◌, ◌≡◌, sym, true, false, Bool-cases, none, some, length, take, get_or,
  get_or-take, arith, inl, inr, ◌==◌, ltb, ◌∙◌, ap,
}
use netmodem2irc.Cd1400
use netmodem2irc.Bus.{Device, Log}
use netmodem2irc.Port.{PnpState, nt_success}
use netmodem2irc.Card.{Card, Chip}
use netmodem2irc.Isr.{port_index}
use netmodem2irc.Enum.{Kernel, start_mapped, start_children, set_card_state}
use netmodem2irc.Enum.Chips.{scan_for_chips}
use netmodem2irc.Enum.Children.{new_port, create_child_pdos, create_on_chips}
use netmodem2irc.Enum.Layout.{create_on_chips-at, create_on_chips-index}
use netmodem2irc.Enum.Scan.{Spaced, get_or-Spaced, scan_for_chips-Spaced}

-- The index by which the service routine finds a port is the one that the chip's place gives.
port_index-at :
    (c : Card) (base m ch : ℕ)
    → base ≡ c.card_base + m * Cd1400.reg_size
    → m < 8
    → ch < 4
    → c.card_base + 0x2000 ≤ 2 ^ 64
    → port_index c base ch ≡ 4 * m + ch
unfolding port_index
port_index-at c base m ch e hm hc room = omega arith

-- The port of the channel `ch` of the chip number `m` is there, counts, and is where the service
-- routine looks for it.
pub record Placed (c : Card) (m ch : ℕ) (chip : Chip) : Type 0 where
  pub found : port_index c chip.base ch ≡ 4 * m + ch
  pub counted : 4 * m + ch < c.num_pdos
  pub there : get_or c.child_pdos (4 * m + ch) none ≡ some (new_port (4 * m + ch) m chip ch)

-- What START_DEVICE makes of a card with ports.
abbrev filled : Kernel → Card → Card
filled k c =
    set_card_state PnpState.started
      (record ((create_child_pdos k.create_device c).1) { started = true })

start_children-num_chips : (k : Kernel) (c : Card) → (start_children k c).1.num_chips ≡ c.num_chips
unfolding start_children create_child_pdos set_card_state
start_children-num_chips k c =
    let kids = create_on_chips k.create_device 0 (take c.num_chips c.chips) (0, c.child_pdos) in
    elim (Bool-cases (c.num_chips == 0)) [
      | inl e ↦ simp e
      | inr ne ↦ elim (Bool-cases (ltb 0 kids.0)) [ inl y ↦ simp (ne, y) | inr x ↦ simp (ne, x) ]
    ]

module _ (k : Kernel) (all : (i j : ℕ) → nt_success (k.create_device i j) ≡ true) where
  start_children-filled :
      (c : Card)
      → length (take c.num_chips c.chips) ≡ c.num_chips
      → 0 < c.num_chips
      → (start_children k c).1 ≡ filled k c
  unfolding start_children create_child_pdos
  start_children-filled c counted some_chip =
      let chips = take c.num_chips c.chips in
      let grown = create_on_chips-index k.create_device all 0 chips (0, c.child_pdos) in
      let ne : (c.num_chips == 0) ≡ false = ground (arith, some_chip) in
      let made : ltb 0 (create_on_chips k.create_device 0 chips (0, c.child_pdos)).0 ≡ true =
        ground (arith, some_chip, counted, grown) in
      simp (ne, made)

  filled-Placed :
      (m ch : ℕ) (d : Chip) (c : Card)
      → ch < 4
      → c.num_chips ≤ 8
      → Spaced c.card_base 0 (take c.num_chips c.chips)
      → length (take c.num_chips c.chips) ≡ c.num_chips
      → 32 ≤ length c.child_pdos
      → c.card_base + 0x2000 ≤ 2 ^ 64
      → m < c.num_chips
      → Placed (filled k c) m ch (get_or c.chips m d)
  unfolding create_child_pdos set_card_state
  filled-Placed m ch d c hc few spaced counted room fits here =
      let chips = take c.num_chips c.chips in
      let grown = create_on_chips-index k.create_device all 0 chips (0, c.child_pdos) in
      let same : get_or chips m d ≡ get_or c.chips m d = get_or-take c.chips c.num_chips m d here in
      let base = get_or-Spaced c.card_base 0 chips m d spaced (omega arith) in
      record {
        found =
            port_index-at (filled k c) (get_or c.chips m d).base m ch
              (omega (arith, sym (ap (λ (x : Chip). x.base) same) ∙ base)) (omega arith) hc fits;
        counted = omega (arith, grown);
        there =
            create_on_chips-at k.create_device all 0 chips (0, c.child_pdos) m ch (4 * m + ch) m d
              (omega arith) hc (omega arith) (omega arith) (omega arith)
            ∙ ap (λ (x : Chip). some (new_port (4 * m + ch) m x ch)) same;
      }

  -- START_DEVICE of a card whose memory is mapped at `b` and for whose ports the kernel makes every
  -- device object: for each chip that it finds and each of the four channels, the interrupt service
  -- routine computes from the chip's address and the channel an index below NumPDOs, and the child
  -- there is the port of that chip and that channel.
  pub start_mapped-Placed :
      (dev : Device) (b : ℕ) (c : Card) (log : Log) (m ch : ℕ) (d : Chip)
      → 32 ≤ length c.child_pdos
      → b + 0x2000 ≤ 2 ^ 64
      → m < (start_mapped dev k (some b) c log).0.1.num_chips
      → ch < 4
      → Placed
          (start_mapped dev k (some b) c log).0.1
          m
          ch
          (get_or (start_mapped dev k (some b) c log).0.1.chips m d)
  unfolding start_mapped scan_for_chips set_card_state create_child_pdos
  start_mapped-Placed dev b c log m ch d room fits here hc =
      let dev' : Device = record dev { bus_index = c.bus_index } in
      let c' : Card = (scan_for_chips dev' (record c { card_base = b }) log).0 in
      let found = scan_for_chips-Spaced dev' (record c { card_base = b }) log in
      let m_in : m < c'.num_chips = omega (arith, here, start_children-num_chips k c') in
      rw (start_children-filled c' found.1.1 (omega arith))
        (filled-Placed m ch d c' hc found.0 found.1.0 found.1.1 room fits m_in)
