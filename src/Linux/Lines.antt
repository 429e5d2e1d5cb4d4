-- ===== src/Linux/Lines.antt =====
-- `ASYNC_CGETSTR` reads a line, and `ASYNC_CLEARINBUF` ends.
use netmodem2irc.Base.{
  ℕ, zero, suc, ◌+◌, ◌-◌, ◌≤◌, ◌<◌, ◌≡◌, refl, Bool, true, false, Bool-cases, inl, inr, List, [],
  ◌∷◌, ◌++◌, ◌==◌, length, ◌||◌, arith,
}
use netmodem2irc.Linux.System.{ℤ, is_neg, to_nat, Calls, Os}
use netmodem2irc.Linux.{Comm, async_comminkey, read_key, async_cgetstr, getstr_loop}

-- CR and LF
abbrev is_eol : ℕ → Bool
is_eol x = (x == 13) || (x == 10)

-- Every element is a byte, and only the last may end a line.
abbrev pub OneLine : List ℕ → Type 0
OneLine [] = Unit {0}
OneLine (x ∷ []) = x < 256
OneLine (x ∷ y ∷ xs) = (x < 256) × ((is_eol x ≡ false) × OneLine (y ∷ xs))

module _ (os : Os) where
  -- `ASYNC_COMMINKEY` returns a byte or -1.
  pub comminkey-Byte :
      (c : Comm) (l : Calls)
      → is_neg (async_comminkey os c l).0.0 ≡ false
      → (to_nat (async_comminkey os c l).0.0 < 256)
        × ((async_comminkey os c l).0.1.in_bytes ≡ c.in_bytes + 1)
  unfolding async_comminkey read_key
  comminkey-Byte c l h = ground (arith, h)

  comminkey-none :
      (c : Comm) (l : Calls)
      → is_neg (async_comminkey os c l).0.0 ≡ true
      → (async_comminkey os c l).0.1.in_bytes ≡ c.in_bytes
  unfolding async_comminkey read_key
  comminkey-none c l h = ground (arith, h)

  cons-OneLine : (x : ℕ) (xs : List ℕ) → x < 256 → is_eol x ≡ false → OneLine xs → OneLine (x ∷ xs)
  cons-OneLine x [] b e o = b
  cons-OneLine x (y ∷ xs) b e o = (b, (e, o))

  getstr_loop-OneLine :
      (room : ℕ) (c : Comm) (l : Calls)
      → OneLine (getstr_loop os room c l).0.0
        × ((length (getstr_loop os room c l).0.0 ≤ room)
            × ((getstr_loop os room c l).0.1.in_bytes
                ≡ c.in_bytes + length (getstr_loop os room c l).0.0))
  unfolding getstr_loop
  getstr_loop-OneLine zero c l = (tt, (omega arith, omega arith))
  getstr_loop-OneLine (suc room) c l =
      let key = async_comminkey os c l in
      let byte = comminkey-Byte c l in
      let rest = getstr_loop-OneLine room key.0.1 key.1 in
      elim (Bool-cases (is_neg key.0.0)) [
        | inl none_there ↦
            simp none_there (tt, (omega arith, omega (arith, comminkey-none c l none_there)))
        | inr there ↦ elim (Bool-cases (is_eol (to_nat key.0.0))) [
          | inl end ↦
              simp (there, end) ((byte there).0, (omega arith, omega (arith, (byte there).1)))
          | inr more ↦
              simp (there, more)
                (
                  cons-OneLine (to_nat key.0.0) (getstr_loop os room key.0.1 key.1).0.0
                      (byte there).0 more rest.0,
                  (omega (arith, rest.1.0), omega (arith, rest.1.1, (byte there).1)),
                )
        ]
      ]

-- What `ASYNC_CGETSTR` leaves: the bytes of one line and a NUL in the buffer, in at most maxlen
-- cells or, for a maxlen below 1, in one; the count of the bytes is returned and added to _InBytes.
pub record StoresLine (maxlen : ℤ) (c : Comm) (res : ℕ × List ℕ × Comm) : Type 0 where
  pub bytes : List ℕ
  pub stored : res.1 ≡ bytes ++ (0 ∷ [])
  pub one_line : OneLine bytes
  pub returned : res.0 ≡ length bytes
  pub counted : res.2.in_bytes ≡ c.in_bytes + length bytes
  pub fits : length bytes ≤ to_nat maxlen - 1

-- What `ASYNC_CGETSTR` stores, whatever the system answers and for every maxlen: bytes of which
-- only the last may be a CR or LF, then one NUL. The bytes are as many as it returns and as it adds
-- to _InBytes; with the NUL they fit in maxlen cells, or in one cell for a maxlen below 1.
pub async_cgetstr-StoresLine :
    (os : Os) (maxlen : ℤ) (c : Comm) (l : Calls)
    → StoresLine maxlen c (async_cgetstr os maxlen c l).0
unfolding async_cgetstr
async_cgetstr-StoresLine os maxlen c l =
    let line = getstr_loop-OneLine os (to_nat maxlen - 1) c l in
    record {
      bytes = (getstr_loop os (to_nat maxlen - 1) c l).0.0;
      stored = refl;
      one_line = line.0;
      returned = refl;
      counted = line.1.1;
      fits = line.1.0;
    }
