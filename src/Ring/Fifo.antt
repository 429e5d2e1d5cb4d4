-- ===== src/Ring/Fifo.antt =====
-- A well-formed ring is a queue of at most `ring_size` bytes: its contents, and what storing and
-- fetching a byte do to them.
use netmodem2irc.Base.{
  ℕ, zero, suc, ◌+◌, ◌-◌, ◌%◌, ◌≤◌, ◌<◌, ◌≡◌, refl, ◌≢◌, ap, List, [], ◌∷◌, ◌++◌, length, get_or,
  set, length-set, get_or-set_self, get_or-set_ne, length-replicate, arith,
}
use netmodem2irc.Ring.{Ring, ring_size, advance, store, fetch, reset, zeroed}

pub record IsValid (r : Ring) : Type 0 where
  pub storage : length r.buf ≡ ring_size
  pub tail_in : r.tail < ring_size
  pub count_in : r.count ≤ ring_size
  pub head_at : r.head ≡ (r.tail + r.count) % ring_size

-- The `n` bytes that lie from index `i` on, round the end of the storage.
unfoldable pub cells : List ℕ → ℕ → ℕ → List ℕ
cells buf i zero = []
cells buf i (suc n) = get_or buf i 0 ∷ cells buf ((i + 1) % ring_size) n

-- The bytes that a ring holds, oldest first.
abbrev pub contents : Ring → List ℕ
contents r = cells r.buf r.tail r.count

length-cells : (buf : List ℕ) (i n : ℕ) → length (cells buf i n) ≡ n
unfolding cells
length-cells buf i zero = refl
length-cells buf i (suc n) = ap suc (length-cells buf ((i + 1) % ring_size) n)

pub length-contents : (r : Ring) → length (contents r) ≡ r.count
length-contents r = length-cells r.buf r.tail r.count

-- Writing the cell just past the end of a stretch adds that byte to it.
cells-set :
    (buf : List ℕ) (x n i k : ℕ)
    → length buf ≡ ring_size
    → i < ring_size
    → n < ring_size
    → k ≡ (i + n) % ring_size
    → cells (set buf k x) i (suc n) ≡ cells buf i n ++ (x ∷ [])
unfolding cells
cells-set buf x zero i k hb hi hn e =
    let same : k ≡ i = omega arith in
    rw same (ap (λ t. t ∷ []) (get_or-set_self buf i x 0 (omega arith)))
cells-set buf x (suc n) i k hb hi hn e =
    let other : k ≢ i = omega arith in
    rw (get_or-set_ne buf {i = k} {j = i} x 0 other) (
      ap (λ t. get_or buf i 0 ∷ t)
        (cells-set buf x n ((i + 1) % ring_size) k hb (omega arith) (omega arith) (omega arith)))

advance_lem : (i : ℕ) → i < ring_size → advance i ≡ (i + 1) % ring_size
unfolding advance
advance_lem i h = ground arith

-- Storing a byte in a ring with room keeps it well formed, and appends the byte.
pub store-IsValid : (r : Ring) (x : ℕ) → IsValid r → r.count < ring_size → IsValid (store r x)
unfolding store
store-IsValid r x v h = ground (arith, length-set r.buf r.head x, advance_lem r.head)

pub contents-store :
    (r : Ring) (x : ℕ)
    → IsValid r
    → r.count < ring_size
    → contents (store r x) ≡ contents r ++ (x ∷ [])
unfolding store
contents-store r x v h =
    let next : (r.count + 1) % 4294967296 ≡ suc r.count = omega arith in
    rw next (cells-set r.buf x r.count r.tail r.head v.storage v.tail_in h v.head_at)

-- Fetching from a ring that holds bytes keeps it well formed, and takes the oldest byte off.
pub fetch-IsValid : (r : Ring) → IsValid r → 0 < r.count → IsValid (fetch r).1
unfolding fetch
fetch-IsValid r v h = ground (arith, advance_lem r.tail)

cells-suc :
    (buf : List ℕ) (i n : ℕ)
    → 0 < n
    → cells buf i n ≡ get_or buf i 0 ∷ cells buf ((i + 1) % ring_size) (n - 1)
unfolding cells
cells-suc buf i zero h = absurd (omega arith)
cells-suc buf i (suc n) h = ap (λ k. cells buf i (suc k)) (omega arith)

pub contents-fetch :
    (r : Ring) → IsValid r → 0 < r.count → contents r ≡ (fetch r).0 ∷ contents (fetch r).1
unfolding fetch
contents-fetch r v h =
    let less : (r.count + 4294967295) % 4294967296 ≡ r.count - 1 = omega arith in
    rw (less, advance_lem r.tail v.tail_in) (cells-suc r.buf r.tail r.count h)

pub count-fetch : (r : Ring) → IsValid r → 0 < r.count → (fetch r).1.count ≡ r.count - 1
unfolding fetch
count-fetch r v h = omega arith

pub count-store :
    (r : Ring) (x : ℕ) → IsValid r → r.count < ring_size → (store r x).count ≡ r.count + 1
unfolding store
count-store r x v h = omega arith

pub reset-IsValid : (r : Ring) → IsValid r → IsValid (reset r)
unfolding reset
reset-IsValid r v = ground arith

pub zeroed-IsValid : IsValid zeroed
unfolding zeroed
zeroed-IsValid = record {
  storage = length-replicate {A = ℕ} ring_size 0;
  tail_in = omega arith;
  count_in = omega arith;
  head_at = refl;
}
