-- ===== src/Tests/EventLog.antt =====
-- Examples of the theorems on EventLog.
use netmodem2irc.Base.{ℕ, ◌≡◌, List, arith, [], ◌∷◌, refl}
use netmodem2irc.EventLog.{Ddk, Entry, Occasion, entry_of, log_event, event_of}
use netmodem2irc.EventLog.Fits.{Fits, event_of-Fits}
use netmodem2irc.Tests.Fixtures.{ddk}

event_of-Fits_example :
    let ddk : Ddk = ddk in
    let words : List ℕ = 0 ∷ 3 ∷ 9600 ∷ [] in
    let e : Entry = entry_of ddk (event_of ddk (Occasion.port_opened 0 3 9600)) in
    Fits ddk e × (e.dump ≡ words)
unfolding event_of log_event
event_of-Fits_example =
    event_of-Fits ddk (omega arith) (omega arith) (Occasion.port_opened 0 3 9600)
      (0 ∷ 3 ∷ 9600 ∷ []) (entry_of ddk (event_of ddk (Occasion.port_opened 0 3 9600)))
      (omega arith) refl refl
