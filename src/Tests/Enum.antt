-- ===== src/Tests/Enum.antt =====
-- Examples of the theorems on Enum.
use netmodem2irc.Base.{ℕ, ◌≡◌, List, [], ◌++◌, length, drop, ◌&&◌}
use netmodem2irc.Bus.{Device, Log}
use netmodem2irc.Card.{Card}
use netmodem2irc.Enum.Chips.{scan_for_chips}
use netmodem2irc.Enum.Scan.{steady, chips_at, places, while_present, scan_for_chips-while_present}
use netmodem2irc.Port.{Status, nt_success, Irp}
use netmodem2irc.Enum.{Kernel, fdo_start, Minor, dispatch_pnp}
use netmodem2irc.Enum.Resources.{Resource}
use netmodem2irc.Enum.Start.{fdo_start-started}
use netmodem2irc.Enum.Requests.{comes_back, Answered, dispatch_pnp-Answered}
use netmodem2irc.Tests.Fixtures.{stub, request, card, card_kernel, new_card}

scan_for_chips-while_present_example :
    let bus : ℕ = 0 in
    let f : ℕ → ℕ = λ a. 0x46 in
    let c : Card = new_card in
    let log : Log = [] in
    let found = while_present (chips_at bus f (places c.card_base)) in
    (scan_for_chips (steady bus f) c log).0
    ≡ record c { num_chips = length found; chips = found ++ drop (length found) c.chips }
scan_for_chips-while_present_example = scan_for_chips-while_present 0 (λ a. 0x46) new_card ([])

fdo_start-started_example :
    let dev : Device = stub in
    let k : Kernel = card_kernel in
    let lower : Status = Status.success in
    let resources : List Resource = [] in
    let c : Card = new_card in
    let log : Log = [] in
    nt_success (fdo_start dev k lower resources c log).0.0
    ≡ (fdo_start dev k lower resources c log).0.1.started
fdo_start-started_example = fdo_start-started stub card_kernel Status.success ([]) new_card ([])

dispatch_pnp-Answered_example :
    let dev : Device = stub in
    let k : Kernel = card_kernel in
    let lower : Status = Status.success in
    let lock : Status = Status.success in
    let minor : Minor = Minor.remove_device in
    let irp : Irp = request in
    let c : Card = card in
    let log : Log = [] in
    Answered
      (nt_success lock && comes_back minor c)
      irp
      c.lock_count
      (dispatch_pnp dev lock k lower minor irp c log).0
dispatch_pnp-Answered_example =
    dispatch_pnp-Answered stub card_kernel Status.success Status.success Minor.remove_device request
      card ([])
