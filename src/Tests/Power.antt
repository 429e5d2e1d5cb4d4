-- ===== src/Tests/Power.antt =====
-- Examples of the theorems on Power.
use netmodem2irc.Cd1400
use netmodem2irc.Base.{[]}
use netmodem2irc.Bus.{Device, Log}
use netmodem2irc.Port.{Port, DevicePower, Irp, Status}
use netmodem2irc.Power.{PowerState, Minor, dispatch_power}
use netmodem2irc.Bus.Session.{Proper}
use netmodem2irc.Power.Session.{dispatch_power-Proper}
use netmodem2irc.Tests.Fixtures.{stub, request, port}

dispatch_power-Proper_example :
    let dev : Device = stub in
    let p : Port = port in
    let log : Log = [] in
    let lower : Status = Status.success in
    let minor : Minor = Minor.set_power (PowerState.device_power DevicePower.d3) in
    let irp : Irp = request in Proper dev p log (dispatch_power dev lower minor irp p log).1
dispatch_power-Proper_example =
    dispatch_power-Proper stub port ([]) Status.success
      (Minor.set_power (PowerState.device_power DevicePower.d3)) request
