-- ===== src/Card/Stays.antt =====
-- What stays of a card and its ports while requests and interrupts reach them.
use netmodem2irc.Base.{ℕ, zero, suc, ◌≡◌, refl, Option, some, none, List, [], ◌∷◌, get_or, set}
use mathlib.Core.Path.{subst, subst⁻¹}
use mathlib.Core.Option.{some-injective}
use netmodem2irc.Port.{Port, IsValid}
use netmodem2irc.Port.Whole.{Whole}
use netmodem2irc.Card.{Card}

-- Every port that is there has well-formed rings.
abbrev pub AllValid : List (Option Port) → Type 0
AllValid [] = Unit {0}
AllValid (none ∷ ports) = AllValid ports
AllValid (some p ∷ ports) = IsValid p × AllValid ports

-- The ports of the second list lie where those of the first do, at the same places.
abbrev pub AllWhole : List (Option Port) → List (Option Port) → Type 0
AllWhole [] [] = Unit {0}
AllWhole (none ∷ homes) (none ∷ ports) = AllWhole homes ports
AllWhole (some h ∷ homes) (some p ∷ ports) = Whole h p × AllWhole homes ports
AllWhole [] (o ∷ ports) = ⊥
AllWhole (o ∷ homes) [] = ⊥
AllWhole (none ∷ homes) (some p ∷ ports) = ⊥
AllWhole (some h ∷ homes) (none ∷ ports) = ⊥

pub AllWhole-of_valid : (ports : List (Option Port)) → AllValid ports → AllWhole ports ports
AllWhole-of_valid [] v = tt
AllWhole-of_valid (none ∷ ports) v = AllWhole-of_valid ports v
AllWhole-of_valid (some p ∷ ports) v = (
  record { at_index = refl; at_base = refl; at_chan = refl; valid = v.0 },
  AllWhole-of_valid ports v.1,
)

pub AllWhole-AllValid : (homes ports : List (Option Port)) → AllWhole homes ports → AllValid ports
AllWhole-AllValid [] [] w = tt
AllWhole-AllValid (none ∷ homes) (none ∷ ports) w = AllWhole-AllValid homes ports w
AllWhole-AllValid (some h ∷ homes) (some p ∷ ports) w =
    (w.0.valid, AllWhole-AllValid homes ports w.1)
AllWhole-AllValid [] (o ∷ ports) w = absurd w
AllWhole-AllValid (o ∷ homes) [] w = absurd w
AllWhole-AllValid (none ∷ homes) (some p ∷ ports) w = absurd w
AllWhole-AllValid (some h ∷ homes) (none ∷ ports) w = absurd w

-- The port at a place, and the one that it is compared with.
pub get_or-AllWhole :
    (homes ports : List (Option Port)) (i : ℕ) (p : Port)
    → AllWhole homes ports
    → get_or ports i none ≡ some p
    → (h : Port) × (get_or homes i none ≡ some h) × Whole h p
get_or-AllWhole [] [] i p w e = cc
get_or-AllWhole (none ∷ homes) (none ∷ ports) zero p w e = cc
get_or-AllWhole (none ∷ homes) (none ∷ ports) (suc i) p w e = get_or-AllWhole homes ports i p w e
get_or-AllWhole (some h ∷ homes) (some q ∷ ports) zero p w e =
    (h, refl, subst (λ (x : Port). Whole h x) (some-injective q p e) w.0)
get_or-AllWhole (some h ∷ homes) (some q ∷ ports) (suc i) p w e =
    get_or-AllWhole homes ports i p w.1 e
get_or-AllWhole [] (o ∷ ports) i p w e = absurd w
get_or-AllWhole (o ∷ homes) [] i p w e = absurd w
get_or-AllWhole (none ∷ homes) (some q ∷ ports) i p w e = absurd w
get_or-AllWhole (some h ∷ homes) (none ∷ ports) i p w e = absurd w

-- The other way round.
pub home_at :
    (homes ports : List (Option Port)) (i : ℕ) (h : Port)
    → AllWhole homes ports
    → get_or homes i none ≡ some h
    → (p : Port) × (get_or ports i none ≡ some p) × Whole h p
home_at [] [] i h w e = cc
home_at (none ∷ homes) (none ∷ ports) zero h w e = cc
home_at (none ∷ homes) (none ∷ ports) (suc i) h w e = home_at homes ports i h w e
home_at (some g ∷ homes) (some q ∷ ports) zero h w e =
    (q, refl, subst (λ (x : Port). Whole x q) (some-injective g h e) w.0)
home_at (some g ∷ homes) (some q ∷ ports) (suc i) h w e = home_at homes ports i h w.1 e
home_at [] (o ∷ ports) i h w e = absurd w
home_at (o ∷ homes) [] i h w e = absurd w
home_at (none ∷ homes) (some q ∷ ports) i h w e = absurd w
home_at (some g ∷ homes) (none ∷ ports) i h w e = absurd w

pub set-AllWhole :
    (homes ports : List (Option Port)) (i : ℕ) (h p : Port)
    → AllWhole homes ports
    → get_or homes i none ≡ some h
    → Whole h p
    → AllWhole homes (set ports i (some p))
set-AllWhole [] [] i h p w e v = tt
set-AllWhole (none ∷ homes) (none ∷ ports) zero h p w e v = cc
set-AllWhole (none ∷ homes) (none ∷ ports) (suc i) h p w e v = set-AllWhole homes ports i h p w e v
set-AllWhole (some g ∷ homes) (some q ∷ ports) zero h p w e v =
    (subst⁻¹ (λ (x : Port). Whole x p) (some-injective g h e) v, w.1)
set-AllWhole (some g ∷ homes) (some q ∷ ports) (suc i) h p w e v =
    (w.0, set-AllWhole homes ports i h p w.1 e v)
set-AllWhole [] (o ∷ ports) i h p w e v = absurd w
set-AllWhole (o ∷ homes) [] i h p w e v = absurd w
set-AllWhole (none ∷ homes) (some q ∷ ports) i h p w e v = absurd w
set-AllWhole (some g ∷ homes) (none ∷ ports) i h p w e v = absurd w

-- A card keeps its memory, its chips, and the place of each port.
pub record Stays (home c : Card) : Type 0 where
  pub same_base : c.card_base ≡ home.card_base
  pub same_chips : c.chips ≡ home.chips
  pub same_num : c.num_chips ≡ home.num_chips
  pub same_pdos : c.num_pdos ≡ home.num_pdos
  pub children : AllWhole home.child_pdos c.child_pdos

-- A port of the card changes, and lies where it did.
pub set_port-Stays :
    (home c : Card) (i : ℕ) (p q : Port)
    → Stays home c
    → get_or c.child_pdos i none ≡ some p
    → ((h : Port) → Whole h p → Whole h q)
    → Stays home (record c { child_pdos = set c.child_pdos i (some q) })
set_port-Stays home c i p q s here keeps =
    let at = get_or-AllWhole home.child_pdos c.child_pdos i p s.children here in
    record {
      same_base = s.same_base;
      same_chips = s.same_chips;
      same_num = s.same_num;
      same_pdos = s.same_pdos;
      children =
          set-AllWhole home.child_pdos c.child_pdos i at.0 q s.children at.1 (keeps at.0 at.2);
    }
