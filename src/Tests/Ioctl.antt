-- ===== src/Tests/Ioctl.antt =====
-- Examples of the theorems on Ioctl.
use netmodem2irc.Base.{ℕ, ◌≡◌, refl, Bool, true, none, some, [], if◌then◌else◌}
use netmodem2irc.Bus.{Device, Log}
use netmodem2irc.Bus.Session.{Proper}
use netmodem2irc.Port.{Port, Irp, Status, LineControl, IsValid}
use netmodem2irc.Ioctl.{Code, dispatch_ioctl}
use netmodem2irc.Ioctl.Baud.{BaudEntry, lookup_baud, baud_table_60mhz, find_baud}
use netmodem2irc.Ioctl.Line.{build_cor1}
use netmodem2irc.Ioctl.Session.{dispatch_ioctl-Proper}
use netmodem2irc.Port.Pending.{Conserves}
use netmodem2irc.Ioctl.Conserve.{dispatch_ioctl-Conserves}
use netmodem2irc.Ioctl.Cor1.{cor1_line, is_setting, build_cor1_lem}
use netmodem2irc.Ioctl.Rates.{near, clock_of, is_right, lookup_baud_rates}
use netmodem2irc.Tests.Fixtures.{stub, ser, request, port, port-IsValid}

dispatch_ioctl-Proper_example :
    let dev : Device = stub in
    let lock : Status = Status.success in
    let code : Code = Code.set_dtr in
    let m : ℕ = 0 in
    let n : ℕ = 0 in
    let irp : Irp = request in
    let p : Port = port in
    let log : Log = [] in Proper dev p log (dispatch_ioctl dev ser lock code m n irp p log).1
dispatch_ioctl-Proper_example =
    dispatch_ioctl-Proper stub ser Status.success Code.set_dtr 0 0 request port ([])

dispatch_ioctl-Conserves_example :
    let dev : Device = stub in
    let n : ℕ = 7 in
    let irp : Irp = request in
    let p : Port = port in
    let lock : Status = Status.success in
    let code : Code = Code.purge_code in
    let i : ℕ = 4 in
    let o : ℕ = 0 in
    let log : Log = [] in
    let r = (dispatch_ioctl dev ser lock code i o irp p log).0 in
    Conserves n irp p r × (r.port.lock_count ≡ p.lock_count) × IsValid r.port
dispatch_ioctl-Conserves_example =
    dispatch_ioctl-Conserves stub 7 request ser port port-IsValid Status.success Code.purge_code 4 0
      ([])

build_cor1_lem_example :
    let l : LineControl = record { stop_bits = 0; parity = 2; word_length = 7 } in
    cor1_line (build_cor1 l) ≡ (if is_setting l then some l else none)
build_cor1_lem_example = build_cor1_lem (record { stop_bits = 0; parity = 2; word_length = 7 })

lookup_baud_rates_example :
    let is_60mhz : Bool = true in
    let rate : ℕ = 9600 in
    let e : BaudEntry = record { baud = 9600; clock_opt = 0x02; baud_period = 0x62 } in
    (e.baud ≡ rate) × (near (clock_of is_60mhz) e ≡ is_right is_60mhz rate)
unfolding lookup_baud find_baud baud_table_60mhz
lookup_baud_rates_example =
    lookup_baud_rates true 9600 (record { baud = 9600; clock_opt = 0x02; baud_period = 0x62 }) refl
