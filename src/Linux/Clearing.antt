-- ===== src/Linux/Clearing.antt =====
-- `ASYNC_CLEARINBUF` ends after at most 64 reads.
use netmodem2irc.Base.{
  ℕ, zero, suc, ◌+◌, ◌≤◌, ◌≡◌, ◌⊎◌, false, Bool-cases, inl, inr, [], ◌∷◌, ltb, arith,
}
use netmodem2irc.Linux.System.{is_neg, to_nat, Call, Calls, Os, read_from}
use netmodem2irc.Linux.{Comm, async_checkcomm, clear_loop, async_clearinbuf}

-- How many reads a list of calls has.
abbrev pub num_reads : Calls → ℕ
num_reads [] = 0
num_reads (c ∷ calls) =
    let earlier : ℕ = num_reads calls in elim c [ Call.read fd n r ↦ earlier + 1 | _ ↦ earlier ]

-- The last call found nothing to read.
abbrev pub Drained : Calls → Type 0
Drained [] = ⊥
Drained (c ∷ calls) = elim c [ Call.select fd usec r ↦ ltb 0 (to_nat r) ≡ false | _ ↦ ⊥ ]

module _ (os : Os) (c : Comm) (h : is_neg c.comm_fd ≡ false) where
  checkcomm-reads : (l : Calls) → num_reads (async_checkcomm os c l).1 ≡ num_reads l
  unfolding async_checkcomm
  checkcomm-reads l = ground arith

  checkcomm-Drained :
      (l : Calls) → (async_checkcomm os c l).0 ≡ false → Drained (async_checkcomm os c l).1
  unfolding async_checkcomm
  checkcomm-Drained l e = ground (arith, h, e)

  -- Past `n` more rounds: at most `n` reads, and all of them or nothing is left.
  abbrev Ends : ℕ → Calls → Calls → Type 0
  Ends n l l' = (num_reads l' ≤ num_reads l + n) × ((num_reads l' ≡ num_reads l + n) ⊎ Drained l')

  clear_loop-Ends : (n : ℕ) (l : Calls) → Ends n l (clear_loop os n c l).1
  unfolding clear_loop
  clear_loop-Ends zero l =
      (omega (arith, checkcomm-reads l), inl (omega (arith, checkcomm-reads l)))
  clear_loop-Ends (suc n) l =
      let more = async_checkcomm os c l in
      let got = read_from os c.comm_fd 256 more.1 in
      let same = checkcomm-reads l in
      let rest = clear_loop-Ends n got.1 in
      elim (Bool-cases more.0) [
        | inl y ↦ simp y (
          omega (arith, rest.0, same),
          elim rest.1 [ inl all ↦ inl (omega (arith, all, same)) | inr d ↦ inr d ],
        )
        | inr x ↦ simp x (omega (arith, same), inr (checkcomm-Drained l x))
      ]

-- `ASYNC_CLEARINBUF` on an open channel ends, whatever the system answers and however fast bytes
-- come in: it makes at most 64 reads, and it makes all 64 or its last call finds nothing to read.
pub async_clearinbuf-Ends :
    (os : Os) (c : Comm) (l : Calls)
    → is_neg c.comm_fd ≡ false
    → (num_reads (async_clearinbuf os c l).1 ≤ num_reads l + 64)
      × ((num_reads (async_clearinbuf os c l).1 ≡ num_reads l + 64)
          ⊎ Drained (async_clearinbuf os c l).1)
unfolding async_clearinbuf
async_clearinbuf-Ends os c l h = rw h (clear_loop-Ends os c h 64 l)
