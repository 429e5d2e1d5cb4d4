-- ===== src/Serial/Cleanup.antt =====
-- `CyDispatchCleanup` completes every IRP that the port holds.
use netmodem2irc.Base.{ℕ, ◌≡◌, refl, List, [], ◌∷◌, arith}
use netmodem2irc.Port.{Port, Irp}
use netmodem2irc.Port.Pending.{times}
use netmodem2irc.Serial.{cancel_all}

pub times-cancel_all : (n : ℕ) (queue : List Irp) → times n (cancel_all queue) ≡ times n queue
unfolding cancel_all
times-cancel_all n [] = refl
times-cancel_all n (x ∷ queue) = omega (arith, times-cancel_all n queue)
