-- ===== src/Port/Pending.antt =====
-- The IRPs that a port holds, counted by their ids: no request may be lost or completed twice.
use netmodem2irc.Base.{
  ℕ, ◌+◌, ◌≡◌, Option, some, none, List, [], ◌∷◌, ◌++◌, ◌==◌, if◌then◌else◌, arith,
}
use netmodem2irc.Port.{Port, Outcome, Irp}

-- How many IRPs of a list have the id `n`.
abbrev pub times : ℕ → List Irp → ℕ
times n [] = 0
times n (x ∷ xs) = (if x.id == n then 1 else 0) + times n xs

abbrev pub waiting : Option Irp → List Irp
waiting none = []
waiting (some irp) = irp ∷ []

-- The IRPs that wait in the read queue, in the write queue or for an event.
abbrev pub pending : Port → List Irp
pending p = p.read_queue ++ (p.write_queue ++ waiting p.wait_irp)

pub times-append : (n : ℕ) (xs ys : List Irp) → times n (xs ++ ys) ≡ times n xs + times n ys
times-append n [] ys = omega arith
times-append n (x ∷ xs) ys = omega (arith, times-append n xs ys)

pub times-pending :
    (n : ℕ) (p : Port)
    → times n (pending p)
      ≡ times n p.read_queue + times n p.write_queue + times n (waiting p.wait_irp)
times-pending n p = omega (
  arith,
  times-append n p.read_queue (p.write_queue ++ waiting p.wait_irp),
  times-append n p.write_queue (waiting p.wait_irp),
)

-- A handler that was given `irp` completes or keeps it, once, and so every IRP that waited.
abbrev pub Conserves : ℕ → Irp → Port → Outcome → Type 0
Conserves n irp p o =
    times n o.completed + times n (pending o.port) ≡ times n (pending p) + times n (irp ∷ [])
