-- ===== src/Ioctl/Rates.antt =====
-- The baud rates that the entries of the tables give, by the formula of
-- fossil/cyclades/inc/cd1400.h: clock / (period * divisor), where the clock option selects the
-- divisor 8, 32, 128, 512 or 2048.
use netmodem2irc.Base.{
  ℕ, ◌*◌, ◌^◌, ◌≡◌, refl, Bool, true, false, not, ◌&&◌, ◌||◌, some, List, [], ◌∷◌, leb, ◌==◌,
  if◌then◌else◌, arith, ◌∙◌, ap, sym, Bool-cases, inl, inr,
}
use netmodem2irc.Ioctl.Baud.{BaudEntry, baud_table_25mhz, baud_table_60mhz, find_baud, lookup_baud}

-- Clock cycles per bit.
abbrev pub cycles : BaudEntry → ℕ
cycles e = e.baud_period * (8 * 4 ^ e.clock_opt)

-- The rate of an entry is within 5 percent of the one that it is listed under.
abbrev pub near : ℕ → BaudEntry → Bool
near clock e =
    leb (19 * (e.baud * cycles e)) (20 * clock) && leb (20 * clock) (21 * (e.baud * cycles e))

abbrev pub clock_of : Bool → ℕ
clock_of is_60mhz = if is_60mhz then 60000000 else 25000000

abbrev pub is_right : Bool → ℕ → Bool
is_right is_60mhz rate = not is_60mhz && (leb rate 150 || (rate == 115200))

abbrev same : Bool → Bool → Bool
same true b = b
same false b = not b

abbrev all_same : Bool → List BaudEntry → Bool
all_same k [] = true
all_same k (e ∷ table) = same (near (clock_of k) e) (is_right k e.baud) && all_same k table

same→eq : (a b : Bool) → same a b ≡ true → a ≡ b
same→eq true b h = sym h
same→eq false b h = ground arith

and-true : (a b : Bool) → (a && b) ≡ true → (a ≡ true) × (b ≡ true)
and-true a b h = ground arith

find_baud_lem :
    (k : Bool) (rate : ℕ) (table : List BaudEntry) (e : BaudEntry)
    → all_same k table ≡ true
    → find_baud rate table ≡ some e
    → (e.baud ≡ rate) × (near (clock_of k) e ≡ is_right k e.baud)
unfolding find_baud
find_baud_lem k rate [] e ok found = cc
find_baud_lem k rate (x ∷ table) e ok found =
    let parts = and-true (same (near (clock_of k) x) (is_right k x.baud)) (all_same k table) ok in
    elim (Bool-cases (x.baud == rate)) [
      | inl hit ↦
          let same_entry : x ≡ e = grind arith in
          rw (sym same_entry) (ground arith, same→eq _ _ parts.0)
      | inr miss ↦ find_baud_lem k rate table e parts.1 (grind arith)
    ]

-- The entry that the look-up finds is listed under the rate that was asked for. The bit clock that
-- it programs is within 5 percent of that rate at 25 MHz only for 150 baud and less and for 115200
-- baud, and at 60 MHz for no rate.
pub lookup_baud_rates :
    (is_60mhz : Bool) (rate : ℕ) (e : BaudEntry)
    → lookup_baud is_60mhz rate ≡ some e
    → (e.baud ≡ rate) × (near (clock_of is_60mhz) e ≡ is_right is_60mhz rate)
unfolding lookup_baud baud_table_25mhz baud_table_60mhz
lookup_baud_rates true rate e found =
    let listed = find_baud_lem true rate baud_table_60mhz e refl found in
    (listed.0, listed.1 ∙ ap (is_right true) listed.0)
lookup_baud_rates false rate e found =
    let listed = find_baud_lem false rate baud_table_25mhz e refl found in
    (listed.0, listed.1 ∙ ap (is_right false) listed.0)
