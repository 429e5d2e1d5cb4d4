-- ===== src/Port/Settles.antt =====
-- What every dispatch routine owes the I/O manager: an IRP is completed once, with the status
-- that is returned, or left pending, and the remove lock is given back.
use netmodem2irc.Base.{ℕ, ◌≡◌, refl, ◌≢◌, ◌⊎◌, List, [], ◌∷◌, ◌++◌, ap}
use netmodem2irc.Port.{Outcome, Irp, Status}
use netmodem2irc.Port.Queue.{csq_insert}

abbrev pub ids : List Irp → List ℕ
ids [] = []
ids (x ∷ queue) = x.id ∷ ids queue

abbrev pub statuses : List Irp → List Status
statuses [] = []
statuses (x ∷ queue) = x.status ∷ statuses queue

pub ids-append : (xs ys : List Irp) → ids (xs ++ ys) ≡ ids xs ++ ids ys
ids-append [] ys = refl
ids-append (x ∷ xs) ys = ap (λ t. x.id ∷ t) (ids-append xs ys)

pub ids-csq_insert :
    (x : Irp) (queue : List Irp) → ids (csq_insert x queue) ≡ ids queue ++ (x.id ∷ [])
unfolding csq_insert
ids-csq_insert x queue = ids-append queue (x ∷ [])

-- The IRP is left pending at the end of the queue that was `before` and is `after`, or it is the
-- one IRP that was completed, with the returned status.
abbrev pub Settled : Irp → List Irp → List Irp → Outcome → Type 0
Settled irp before after o =
    (o.result ≡ Status.pending) × (o.completed ≡ []) × (ids after ≡ ids before ++ (irp.id ∷ []))
    ⊎ (o.result ≢ Status.pending)
      × (ids o.completed ≡ irp.id ∷ [])
      × (statuses o.completed ≡ o.result ∷ [])
      × (after ≡ before)
