-- ===== src/Port/Queue.antt =====
-- The cancel-safe queues: the callbacks of cyserial.c that the IoCsq routines run. IoCsqInsertIrp
-- runs the insert callback; IoCsqRemoveNextIrp peeks with no IRP and removes what it sees.
use netmodem2irc.Base.{Option, none, some, List, [], ◌∷◌, ◌++◌, ◌==◌, if◌then◌else◌, ◌≡◌, arith}
use netmodem2irc.Port.Serial.{Irp, Status, finish}

-- `CyReadCsqInsert`, `CyWriteCsqInsert`: InsertTailList
unfoldable pub csq_insert : Irp → List Irp → List Irp
csq_insert irp queue = queue ++ (irp ∷ [])

-- `CyReadCsqRemove`, `CyWriteCsqRemove`: RemoveEntryList
unfoldable pub csq_remove : Irp → List Irp → List Irp
csq_remove irp [] = []
csq_remove irp (x ∷ queue) = if x.id == irp.id then queue else x ∷ csq_remove irp queue

abbrev first : List Irp → Option Irp
first [] = none
first (x ∷ _) = some x

-- The entry behind an IRP of the queue.
abbrev behind : Irp → List Irp → Option Irp
behind irp [] = none
behind irp (x ∷ queue) = if x.id == irp.id then first queue else behind irp queue

-- `CyReadCsqPeekNext`, `CyWriteCsqPeekNext`
unfoldable pub csq_peek_next : Option Irp → List Irp → Option Irp
csq_peek_next none queue = first queue
csq_peek_next (some irp) queue = behind irp queue

-- What one call of IoCsqRemoveNextIrp does with these callbacks.
unfoldable pub remove_next : List Irp → Option (Irp × List Irp)
unfolding csq_peek_next csq_remove
remove_next queue = elim (csq_peek_next none queue) [
  | none ↦ none
  | some irp ↦ some (irp, csq_remove irp queue)
]

-- `CyReadCsqCompleteCanceled`, `CyWriteCsqCompleteCanceled`: the IRP as it is completed
unfoldable pub csq_complete_canceled : Irp → Irp
csq_complete_canceled irp = finish Status.cancelled 0 irp

-- IoCsqRemoveNextIrp takes the IRP that has waited longest, and leaves the others in order.
pub remove_next-cons :
    (irp : Irp) (queue : List Irp) → remove_next (irp ∷ queue) ≡ some (irp, queue)
unfolding remove_next
remove_next-cons irp queue = ground arith
