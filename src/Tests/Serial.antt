-- ===== src/Tests/Serial.antt =====
-- Examples of the theorems on Serial.
use netmodem2irc.Base.{◌≡◌, refl, ◌⊎◌, true, false, ◌||◌, if◌then◌else◌, [], ◌∷◌}
use netmodem2irc.Bus.{Device, Log}
use netmodem2irc.Bus.Session.{Session}
use netmodem2irc.Ring.Fifo.{contents}
use netmodem2irc.Port.{Port, IsValid, Irp, Status, nt_success}
use netmodem2irc.Port.Settles.{ids}
use netmodem2irc.Serial.{dispatch_create, dispatch_close}
use netmodem2irc.Serial.Lifecycle.{granted, dispatch_create_lem, create_close}
use netmodem2irc.Tests.Fixtures.{stub, two_bytes-IsValid, request, later, port}

dispatch_create_lem_example :
    let dev : Device = stub in
    let lock : Status = Status.success in
    let irp : Irp = request in
    let p : Port = record port { is_open = false } in
    let log : Log = [] in
    let r = dispatch_create dev lock irp p log in
    let g = granted lock p in
    (nt_success r.0.result ≡ g)
    × (ids r.0.completed ≡ irp.id ∷ [])
    × (r.0.port.lock_count ≡ p.lock_count)
    × (r.0.port.is_open ≡ (g || p.is_open))
    × (contents r.0.port.rx ≡ (if g then [] else contents p.rx))
    × (contents r.0.port.tx ≡ (if g then [] else contents p.tx))
    × IsValid r.0.port
    × ((r.1 ≡ log) × (g ≡ false) ⊎ ((g ≡ true) × Session dev p.chip_base p.channel log r.1))
dispatch_create_lem_example =
    dispatch_create_lem stub Status.success request (record port { is_open = false }) ([])
      (record { rx_valid = two_bytes-IsValid; tx_valid = two_bytes-IsValid })

create_close_example :
    let dev : Device = stub in
    let first : Irp = request in
    let second : Irp = later in
    let third : Irp = request in
    let close : Irp = later in
    let p : Port = record port { is_open = false } in
    let log : Log = [] in
    let opened = dispatch_create dev Status.success first p log in
    let again = dispatch_create dev Status.success second opened.0.port opened.1 in
    let closed = dispatch_close dev close again.0.port again.1 in
    let reopened = dispatch_create dev Status.success third closed.0.port closed.1 in
    (again.0.result ≡ Status.access_denied)
    × (again.1 ≡ opened.1)
    × (closed.0.port.is_open ≡ false)
    × (reopened.0.result ≡ Status.success)
    × (reopened.0.port.is_open ≡ true)
create_close_example =
    create_close stub request later request later (record port { is_open = false }) ([]) refl refl
