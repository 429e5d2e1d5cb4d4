-- ===== src/Enum/Resources.antt =====
-- The resources that START_DEVICE gives a card, and the search for an ISA card where they name no
-- memory.
use netmodem2irc.Base.{
  ℕ, ◌+◌, ◌%◌, Bool, true, false, Option, some, none, List, [], ◌∷◌, leb, if◌then◌else◌,
}
use netmodem2irc.Cd1400
use netmodem2irc.Bus.{Device, Bus, pure, ◌>>=◌, read_at}
use netmodem2irc.Card.{Card}
use netmodem2irc.Enum.Chips.{is_cd1400}

-- `CM_PARTIAL_RESOURCE_DESCRIPTOR`: memory by its start and length, an interrupt by its level,
-- vector and affinity and whether it is latched, or another resource.
pub data Resource : Type 0 where
  memory : ℕ → ℕ → Resource
  interrupt : ℕ → ℕ → ℕ → Bool → Resource
  other_resource : Resource

-- The card, `foundMemory` and `foundInterrupt`.
abbrev Found : Type 0
Found = Card × Bool × Bool

-- One round of the loop: the first memory and the first interrupt count.
unfoldable pub note_resource : Resource → Card × Bool × Bool → Card × Bool × Bool
note_resource (Resource.memory start len) (c, mem, irq) = if mem then (c, mem, irq) else (
  record c {
    physical_base = start;
    mapped_length = len;
    bus_index = if leb 0x100000 start then 1 else 0;
  },
  true,
  irq,
)
note_resource (Resource.interrupt level vector affinity latched) (c, mem, irq) =
    if irq then (c, mem, irq) else (
      record c {
        interrupt_level = level % 256;
        interrupt_vector = vector;
        interrupt_affinity = affinity;
        interrupt_latched = latched;
      },
      mem,
      true,
    )
note_resource Resource.other_resource found = found

-- The loop over the resources: the card, and `foundMemory`.
unfoldable pub parse_resources : List Resource → Card × Bool × Bool → Card × Bool
parse_resources [] (c, mem, irq) = (c, mem)
parse_resources (r ∷ rs) found = parse_resources rs (note_resource r found)

-- `isaAddresses`
abbrev pub isa_addresses : List ℕ
isa_addresses = 0xD0000 ∷ 0xD4000 ∷ 0xD8000 ∷ 0xDC000 ∷ 0xC8000 ∷ 0xCC000 ∷ 0xC0000 ∷ 0xC4000 ∷ []

abbrev isa_card : ℕ → Card → Card
isa_card phys c = record c {
  physical_base = phys;
  mapped_length = Cd1400.isa_window;
  bus_index = 0;
}

module _ (dev : Device) (map_io_space : ℕ → ℕ → Option ℕ) where
  -- READ_REGISTER_UCHAR of GFRCR through a mapping, if there is one
  unfoldable pub probe : Option ℕ → Bus Bool
  probe none = pure false
  probe (some base) = do rev ← read_at dev (base + Cd1400.gfrcr); pure (is_cd1400 rev)

  -- The loop over the standard addresses: the first that has a card, or the default one.
  unfoldable pub scan_isa : List ℕ → Card → Bus Card
  scan_isa [] c = pure (isa_card Cd1400.default_membase c)
  scan_isa (phys ∷ addresses) c = do
    found ← probe (map_io_space phys Cd1400.isa_window)
    let rest : Bus Card = scan_isa addresses c
    (if found then pure (isa_card phys c) else rest)
