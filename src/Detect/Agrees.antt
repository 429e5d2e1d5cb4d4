-- ===== src/Detect/Agrees.antt =====
-- The chips that the utility reports, against those that the driver's `CyScanForChips` finds.
use netmodem2irc.Base.{ℕ, List, [], ◌∷◌, if◌then◌else◌}
use netmodem2irc.Cd1400
use netmodem2irc.Card.{Card, Chip}
use netmodem2irc.Enum.Chips.{is_cd1400}
use netmodem2irc.Detect.{Row}

abbrev pub revisions : List Row → List ℕ
revisions [] = []
revisions (r ∷ rows) = r.revision ∷ revisions rows

abbrev pub chip_revisions : List Chip → List ℕ
chip_revisions [] = []
chip_revisions (c ∷ chips) = c.revision ∷ chip_revisions chips

-- Up to the first revision that the driver does not take.
abbrev pub first_known : List ℕ → List ℕ
first_known [] = []
first_known (v ∷ revs) = let rest = first_known revs in if is_cd1400 v then v ∷ rest else []
