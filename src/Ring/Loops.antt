-- ===== src/Ring/Loops.antt =====
-- The copy loops of cyread.c and cywrite.c move as many bytes as they can, in order.
use netmodem2irc.Base.{
  false, ◌∙◌, ℕ, zero, suc, ◌+◌, ◌-◌, ◌≤◌, ◌<◌, min, ◌≡◌, refl, ap, inl, inr, List, [], ◌∷◌, ◌++◌,
  append-nil, append_assoc, length, get_or, set, take, drop, length-set, Bool-cases, ltb, ltb→lt,
  arith,
}
use netmodem2irc.Ring.{Ring, ring_size, fetch, store, read_loop, write_loop}
use netmodem2irc.Ring.Fifo.{
  IsValid, cells, contents, store-IsValid, contents-store, count-store, fetch-IsValid,
  contents-fetch, count-fetch,
}

-- A list laid over a buffer from index `i` on.
abbrev pub overlay : ℕ → List ℕ → List ℕ → List ℕ
overlay i [] out = out
overlay i (x ∷ xs) out = overlay (i + 1) xs (set out i x)

length-overlay : (i : ℕ) (xs out : List ℕ) → length (overlay i xs out) ≡ length out
length-overlay i [] out = refl
length-overlay i (x ∷ xs) out =
    omega (arith, length-overlay (i + 1) xs (set out i x), length-set out i x)

overlay-suc :
    (i : ℕ) (xs : List ℕ) (y : ℕ) (out : List ℕ)
    → overlay (suc i) xs (y ∷ out) ≡ y ∷ overlay i xs out
overlay-suc i [] y out = refl
overlay-suc i (x ∷ xs) y out =
    let e : suc i + 1 ≡ suc (i + 1) = omega arith in rw e (overlay-suc (i + 1) xs y (set out i x))

-- Laid over the start of a buffer that is long enough, a list takes the place of its first bytes.
pub overlay_start :
    (xs out : List ℕ) → length xs ≤ length out → overlay 0 xs out ≡ xs ++ drop (length xs) out
overlay_start [] out h = refl
overlay_start (x ∷ xs) [] h = absurd (omega arith)
overlay_start (x ∷ xs) (y ∷ out) h =
    overlay-suc 0 xs x out ∙ ap (λ t. x ∷ t) (overlay_start xs out (omega arith))

-- What the read loop has done when it stops, with `n` bytes still asked for and `i` copied.
pub record Reads (n i : ℕ) (out : List ℕ) (r : Ring) (res : ℕ × List ℕ × Ring) : Type 0 where
  pub copied : res.0 ≡ i + min n r.count
  pub bytes : res.1 ≡ overlay i (take n (contents r)) out
  pub rest : contents res.2 ≡ drop n (contents r)
  pub valid : IsValid res.2

contents-empty : (r : Ring) → ltb 0 r.count ≡ false → contents r ≡ []
unfolding cells
contents-empty r h = let e : r.count ≡ 0 = ground arith in rw e

pub read_loop-Reads :
    (n i : ℕ) (out : List ℕ) (r : Ring) → IsValid r → Reads n i out r (read_loop n i out r)
unfolding read_loop
read_loop-Reads zero i out r v = record {
  copied = omega arith;
  bytes = refl;
  rest = refl;
  valid = v;
}
read_loop-Reads (suc n) i out r v = elim (Bool-cases (ltb 0 r.count)) [
  | inl some_left ↦ rw some_left (
      continues (ltb→lt 0 r.count some_left) (
        read_loop-Reads n (i + 1) (set out i (fetch r).0) (fetch r).1
          (fetch-IsValid r v (ltb→lt 0 r.count some_left))))
  | inr none_left ↦ rw none_left (record {
    copied = ground arith;
    bytes = rw (contents-empty r none_left);
    rest = rw (contents-empty r none_left);
    valid = v;
  })
]
  where
    continues :
        {res : ℕ × List ℕ × Ring}
        → 0 < r.count
        → Reads n (i + 1) (set out i (fetch r).0) (fetch r).1 res
        → Reads (suc n) i out r res
    continues h w = record {
      copied = omega (arith, w.copied, count-fetch r v h);
      bytes = rw (contents-fetch r v h) w.bytes;
      rest = rw (contents-fetch r v h) w.rest;
      valid = w.valid;
    }

-- What the write loop has done when it stops, with `n` bytes still to go and `i` written.
pub record Writes (n i : ℕ) (bytes : List ℕ) (r : Ring) (res : ℕ × Ring) : Type 0 where
  pub written : res.0 ≡ i + min n (ring_size - r.count)
  pub added : contents res.1 ≡ contents r ++ take (min n (ring_size - r.count)) (drop i bytes)
  pub valid : IsValid res.1

drop-get_or : (i : ℕ) (xs : List ℕ) → i < length xs → drop i xs ≡ get_or xs i 0 ∷ drop (i + 1) xs
drop-get_or i [] h = absurd (omega arith)
drop-get_or zero (x ∷ xs) h = refl
drop-get_or (suc i) (x ∷ xs) h =
    let e : suc i + 1 ≡ suc (i + 1) = omega arith in rw e (drop-get_or i xs (omega arith))

pub write_loop-Writes :
    (n i : ℕ) (bytes : List ℕ) (r : Ring)
    → IsValid r
    → i + n ≤ length bytes
    → Writes n i bytes r (write_loop n i bytes r)
unfolding write_loop
write_loop-Writes zero i bytes r v h =
    let none : min 0 (ring_size - r.count) ≡ 0 = omega arith in
    record { written = omega arith; added = rw (none, append-nil); valid = v }
write_loop-Writes (suc n) i bytes r v h = elim (Bool-cases (ltb r.count ring_size)) [
  | inl room ↦ rw room (
      continues (ltb→lt r.count ring_size room) (
        write_loop-Writes n (i + 1) bytes (store r (get_or bytes i 0))
          (store-IsValid r (get_or bytes i 0) v (ltb→lt r.count ring_size room)) (omega arith)))
  | inr full ↦ rw full (
      let none : min (suc n) (ring_size - r.count) ≡ 0 = ground arith in
      record { written = omega (arith, none); added = rw (none, append-nil); valid = v })
]
  where
    x : ℕ
    x = get_or bytes i 0

    continues :
        {res : ℕ × Ring}
        → r.count < ring_size
        → Writes n (i + 1) bytes (store r x) res
        → Writes (suc n) i bytes r res
    continues room w =
        let one_more : min (suc n) (ring_size - r.count)
            ≡ suc (min n (ring_size - (store r x).count)) =
          omega (arith, count-store r x v room) in
        record {
          written = omega (arith, w.written, one_more);
          added =
              rw (one_more, drop-get_or i bytes (omega arith))
                (w.added ∙ (rw (contents-store r x v room, append_assoc)));
          valid = w.valid;
        }

-- A write that goes beyond its bytes leaves the ring well formed too.
pub write_loop-IsValid :
    (n i : ℕ) (bytes : List ℕ) (r : Ring) → IsValid r → IsValid (write_loop n i bytes r).1
unfolding write_loop
write_loop-IsValid zero i bytes r v = v
write_loop-IsValid (suc n) i bytes r v = elim (Bool-cases (ltb r.count ring_size)) [
  | inl room ↦ rw room (
      write_loop-IsValid n (i + 1) bytes (store r (get_or bytes i 0))
        (store-IsValid r (get_or bytes i 0) v (ltb→lt r.count ring_size room)))
  | inr full ↦ rw full v
]
