-- ===== src/System/Cards.antt =====
-- What can happen to a started card: the steps of its ports and interrupts, in any order. The service
-- routine is a step here, as it is meant to be, although no code connects it.
use netmodem2irc.Base.{
  ℕ, ◌+◌, ◌*◌, ◌<◌, ◌≤◌, ◌≡◌, refl, ◌∙◌, sym, ap, ◌^◌, true, none, some, List, length, get_or, set,
  arith,
}
use netmodem2irc.Bus.{Device, Log}
use netmodem2irc.Port.{Port, IsValid, nt_success}
use netmodem2irc.Port.Whole.{Whole}
use netmodem2irc.Card.{Card, Chip}
use netmodem2irc.Card.Stays.{AllValid, AllWhole-of_valid, Stays, set_port-Stays, home_at}
use netmodem2irc.Isr.{port_index, interrupt_service}
use netmodem2irc.Isr.Ports.{interrupt_service-Stays}
use netmodem2irc.Enum.{Kernel, start_mapped}
use netmodem2irc.Enum.Children.{new_port}
use netmodem2irc.Enum.Ports.{Placed, start_mapped-Placed}
use netmodem2irc.Enum.Fresh.{start_mapped-AllValid}
use netmodem2irc.System.{Step}
use netmodem2irc.System.Whole.{Step-Whole}

-- An interrupt, or a step of the port at a place.
pub data CardStep (dev : Device) (c : Card) : Card → Type 0 where
  interrupt : (log : Log) → CardStep dev c (interrupt_service dev c log).0.1
  on_port :
      (i : ℕ) (p q : Port)
      → get_or c.child_pdos i none ≡ some p
      → Step dev p q
      → CardStep dev c (record c { child_pdos = set c.child_pdos i (some q) })

pub data CardReach (dev : Device) (home : Card) : Card → Type 0 where
  start : CardReach dev home home
  next : (c d : Card) → CardReach dev home c → CardStep dev c d → CardReach dev home d

CardStep-Stays : (dev : Device) (home c d : Card) → Stays home c → CardStep dev c d → Stays home d
CardStep-Stays dev home c _ s (CardStep.interrupt log) = interrupt_service-Stays home dev c log s
CardStep-Stays dev home c _ s (CardStep.on_port i p q here step) =
    set_port-Stays home c i p q s here (λ h w. Step-Whole dev p q w step)

CardReach-Stays :
    (dev : Device) (home c : Card) → AllValid home.child_pdos → CardReach dev home c → Stays home c
CardReach-Stays dev home _ v CardReach.start = record {
  same_base = refl;
  same_chips = refl;
  same_num = refl;
  same_pdos = refl;
  children = AllWhole-of_valid home.child_pdos v;
}
CardReach-Stays dev home d v (CardReach.next c _ before step) =
    CardStep-Stays dev home c d (CardReach-Stays dev home c v before) step

-- The service routine finds a port for the chip and the channel, at an index that counts, and it is
-- the port of that chip and channel, with well-formed rings.
pub record Serves (c : Card) (chip : Chip) (ch : ℕ) (p : Port) : Type 0 where
  pub counted : port_index c chip.base ch < c.num_pdos
  pub there : get_or c.child_pdos (port_index c chip.base ch) none ≡ some p
  pub of_index : p.port_index ≡ port_index c chip.base ch
  pub of_chip : p.chip_base ≡ chip.base
  pub of_channel : p.channel ≡ ch
  pub valid : IsValid p

-- The index of a port depends on the card's memory only.
port_index-moved :
    (c d : Card) (base ch : ℕ)
    → d.card_base ≡ c.card_base
    → port_index d base ch ≡ port_index c base ch
unfolding port_index
port_index-moved c d base ch e = rw e refl

Serves-moved :
    (home d : Card) (m ch : ℕ) (x : Chip) (p : Port)
    → Stays home d
    → Placed home m ch (get_or home.chips m x)
    → get_or d.child_pdos (4 * m + ch) none ≡ some p
    → Whole (new_port (4 * m + ch) m (get_or home.chips m x) ch) p
    → Serves d (get_or d.chips m x) ch p
unfolding new_port
Serves-moved home d m ch x p s placed there w =
    let chip : get_or d.chips m x ≡ get_or home.chips m x =
      ap (λ (l : List Chip). get_or l m x) s.same_chips in
    let index : port_index d (get_or d.chips m x).base ch ≡ 4 * m + ch =
      ap (λ (y : Chip). port_index d y.base ch) chip
      ∙ (port_index-moved home d (get_or home.chips m x).base ch s.same_base ∙ placed.found) in
    record {
      counted = omega (arith, index, placed.counted, s.same_pdos);
      there = ap (λ (i : ℕ). get_or d.child_pdos i none) index ∙ there;
      of_index = w.at_index ∙ sym index;
      of_chip = w.at_base ∙ sym (ap (λ (y : Chip). y.base) chip);
      of_channel = w.at_chan;
      valid = w.valid;
    }

-- A card that START_DEVICE has started with its memory mapped at `b`, the kernel having made every
-- device object, in whatever order requests, DPCs and PnP and power events then reach its ports and
-- interrupts the card, and whatever the chips and the kernel answer: for each chip and each of the four
-- channels, the interrupt service routine finds a port, at the index of its `PortIndex`, and that is the
-- port of this chip's address and this channel, with well-formed rings.
pub CardReach-Serves :
    (dev : Device) (k : Kernel) (b : ℕ) (c d : Card) (log : Log) (m ch : ℕ) (x : Chip)
    → ((i j : ℕ) → nt_success (k.create_device i j) ≡ true)
    → AllValid c.child_pdos
    → 32 ≤ length c.child_pdos
    → b + 0x2000 ≤ 2 ^ 64
    → m < (start_mapped dev k (some b) c log).0.1.num_chips
    → ch < 4
    → CardReach dev (start_mapped dev k (some b) c log).0.1 d
    → (p : Port) × Serves d (get_or d.chips m x) ch p
CardReach-Serves dev k b c d log m ch x all v room fits here hc r =
    let home = (start_mapped dev k (some b) c log).0.1 in
    let s = CardReach-Stays dev home d (start_mapped-AllValid dev k b c log v) r in
    let placed = start_mapped-Placed k all dev b c log m ch x room fits here hc in
    let at =
      home_at home.child_pdos d.child_pdos (4 * m + ch)
        (new_port (4 * m + ch) m (get_or home.chips m x) ch) s.children placed.there in
    (at.0, Serves-moved home d m ch x at.0 s placed at.1 at.2)
