-- ===== src/Tests/Pdo.antt =====
-- Examples of the theorems on Pdo.
use netmodem2irc.Base.{ℕ, ◌≡◌, [], ◌∷◌}
use netmodem2irc.Bus.{Device, Log}
use netmodem2irc.Port.{Port, Irp, Status}
use netmodem2irc.Port.Settles.{ids, statuses}
use netmodem2irc.Pdo.{Kernel, Minor, dispatch_pnp}
use netmodem2irc.Pdo.Requests.{untouched, dispatch_pnp-untouched}
use netmodem2irc.Tests.Fixtures.{stub, request, port, port_kernel}

dispatch_pnp-untouched_example :
    let dev : Device = stub in
    let lock : Status = Status.success in
    let k : Kernel = port_kernel in
    let size : ℕ = 64 in
    let minor : Minor = Minor.start_device in
    let irp : Irp = request in
    let p : Port = port in
    let log : Log = [] in
    (ids (dispatch_pnp dev lock k size minor irp p log).0.0.completed ≡ irp.id ∷ [])
    × (statuses (dispatch_pnp dev lock k size minor irp p log).0.0.completed
        ≡ (dispatch_pnp dev lock k size minor irp p log).0.0.result ∷ [])
    × untouched (dispatch_pnp dev lock k size minor irp p log).0.0.port ≡ untouched p
dispatch_pnp-untouched_example =
    dispatch_pnp-untouched stub Status.success port_kernel 64 Minor.start_device request port ([])
