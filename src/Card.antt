-- ===== src/Card.antt =====
-- CY_FDO_EXT, the extension of a card (fossil/cyclades/inc/cycommon.h).
pub mod Stays
use netmodem2irc.Base.{ℕ, Bool, Option, List, [], ◌∷◌}
use netmodem2irc.Port.{Port, PnpState}

-- An entry of `Chips`.
pub record Chip : Type 0 where
  pub base : ℕ
  pub revision : ℕ
  pub is_60mhz : Bool

-- A child that is NULL is `none`, and so is its device object's extension; `card_base` is 0 where it
-- is NULL. `lock_count` counts the acquisitions of RemoveLock that are not released.
pub record Card : Type 0 where
  pub pnp_state : PnpState
  pub previous_pnp_state : PnpState
  pub lock_count : ℕ
  pub physical_base : ℕ
  pub card_base : ℕ
  pub mapped_length : ℕ
  pub num_chips : ℕ
  pub bus_index : ℕ
  pub interrupt_level : ℕ
  pub interrupt_vector : ℕ
  pub interrupt_affinity : ℕ
  pub interrupt_latched : Bool
  pub chips : List Chip
  pub num_pdos : ℕ
  pub child_pdos : List (Option Port)
  pub started : Bool

-- `Chips[chip].Base` of each entry
abbrev pub bases : List Chip → List ℕ
bases [] = []
bases (c ∷ chips) = c.base ∷ bases chips
