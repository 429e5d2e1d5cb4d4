-- ===== src/Loopback/Reads.antt =====
-- The loop that reads a buffer needs no more rounds than bytes are missing.
use netmodem2irc.Base.{
  ℕ, zero, suc, ◌+◌, ◌-◌, ◌≤◌, ◌<◌, ◌≡◌, refl, Bool-cases, inl, inr, Option-cases, [], ◌∷◌, length,
  leb, arith,
}
use netmodem2irc.Loopback.System.{Calls, Line, read_file}
use netmodem2irc.Loopback.{read_all}

-- Any two bounds that are at least the number of missing bytes give the same result and calls.
read_all_enough :
    (line : Line) (n m left : ℕ) (l : Calls)
    → 0 < left
    → left ≤ n
    → left ≤ m
    → read_all line n left l ≡ read_all line m left l
unfolding read_all
read_all_enough line zero m left l pos hn hm = absurd (omega arith)
read_all_enough line (suc n) zero left l pos hn hm = absurd (omega arith)
read_all_enough line (suc n) (suc m) left l pos hn hm =
    elim (Option-cases (line.read_bytes l left)) [
      | inl e ↦ rw e refl
      | inr ([], e) ↦ rw e refl
      | inr (x ∷ xs, e) ↦ elim (Bool-cases (leb left (length xs + 1))) [
        | inl done ↦ rw (e, done) refl
        | inr more ↦
            let short : length xs + 1 < left = ground (arith, more) in
            let rest =
              read_all_enough line n m (left - (length xs + 1)) (read_file line left l).1
                (omega arith) (omega arith) (omega arith) in
            rw (e, more, rest) refl
      ]
    ]
