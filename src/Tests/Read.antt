-- ===== src/Tests/Read.antt =====
-- Examples of the theorems on Read.
use netmodem2irc.Base.{ℕ, ◌≡◌, ◌++◌, length, take, drop, arith, rotate}
use netmodem2irc.Ring.Fifo.{contents}
use netmodem2irc.Port.{Port, Irp, Status, IsValid}
use netmodem2irc.Port.Settles.{Settled, ids}
use netmodem2irc.Read.{dispatch_read, read_dpc}
use netmodem2irc.Read.Dispatch.{dispatch_read-Settled}
use netmodem2irc.Read.Dpc.{delivered, read_dpc_lem}
use netmodem2irc.Tests.Fixtures.{request, port, port-IsValid}

dispatch_read-Settled_example :
    let lock : Status = Status.success in
    let tick : ℕ = 100 in
    let irp : Irp = request in
    let p : Port = port in
    let o = dispatch_read lock tick irp p in
    Settled irp p.read_queue o.port.read_queue o
    × (o.port.lock_count ≡ p.lock_count)
    × IsValid o.port
dispatch_read-Settled_example =
    dispatch_read-Settled Status.success 100 request port port-IsValid (omega arith)

read_dpc_lem_example :
    let tick : ℕ = 100 in
    let p : Port = port in
    let (p', completed) = read_dpc tick p in
    let n = length completed in
    (delivered completed ++ contents p'.rx ≡ contents p.rx)
    × (ids completed ≡ take n (ids p.read_queue))
    × (ids p'.read_queue ≡ rotate (drop n (ids p.read_queue)))
    × IsValid p'
read_dpc_lem_example = read_dpc_lem 100 port port-IsValid ((omega arith, (omega arith, tt)))
