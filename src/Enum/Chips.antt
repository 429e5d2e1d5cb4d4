-- ===== src/Enum/Chips.antt =====
-- `CyScanForChips`: the chips of a card lie one behind the other, and the first place without a
-- chip ends them.
use netmodem2irc.Base.{
  ℕ, zero, suc, ◌+◌, ◌*◌, Bool, ◌||◌, List, [], ◌∷◌, ◌++◌, length, drop, ◌==◌, if◌then◌else◌,
}
use netmodem2irc.Cd1400
use netmodem2irc.Bus.{Device, Bus, pure, ◌>>=◌, read_reg}
use netmodem2irc.Card.{Card, Chip}

-- The revisions that a scan takes for a CD1400.
unfoldable pub is_cd1400 : ℕ → Bool
is_cd1400 rev = (rev == Cd1400.rev_g) || (rev == Cd1400.rev_j)

unfoldable pub chip_at : ℕ → ℕ → ℕ → Chip
chip_at card_base i rev = record {
  base = card_base + i * Cd1400.reg_size;
  revision = rev;
  is_60mhz = rev == Cd1400.rev_j;
}

module _ (dev : Device) where
  -- The loop, from chip `i` on: the places left.
  unfoldable pub scan_loop : ℕ → ℕ → ℕ → Bus (List Chip)
  scan_loop zero i card_base = pure []
  scan_loop (suc n) i card_base = do
    rev ← read_reg dev (card_base + i * Cd1400.reg_size) Cd1400.gfrcr
    let rest : Bus (List Chip) = do
      chips ← scan_loop n (i + 1) card_base
      pure (chip_at card_base i rev ∷ chips)
    (if is_cd1400 rev then rest else pure [])

  -- `CyScanForChips`; it returns NumChips
  unfoldable pub scan_for_chips : Card → Bus Card
  scan_for_chips c = do
    chips ← scan_loop Cd1400.max_chips 0 c.card_base
    pure (record c { num_chips = length chips; chips = chips ++ drop (length chips) c.chips })
