-- ===== src/Tests/Write.antt =====
-- Examples of the theorems on Write.
use netmodem2irc.Base.{
  ◌-◌, min, ◌≡◌, ◌++◌, [], ◌∷◌, length, take, arith, ltb, ◌==◌, if◌then◌else◌, refl,
}
use netmodem2irc.Bus.{Device, Log}
use netmodem2irc.Ring.{ring_size, Ring}
use netmodem2irc.Ring.Fifo.{contents}
use netmodem2irc.Port.{Port, Irp, Status, IsValid, finish}
use netmodem2irc.Port.Settles.{Settled, ids}
use netmodem2irc.Write.{dispatch_write, write_dpc}
use netmodem2irc.Write.Dispatch.{dispatch_write-Settled, dispatch_write_copies}
use netmodem2irc.Write.Dpc.{Feeds, write_dpc_lem}
use netmodem2irc.Tests.Fixtures.{stub, request, full_port, full_port-IsValid}

dispatch_write-Settled_example :
    let dev : Device = stub in
    let lock : Status = Status.success in
    let irp : Irp = request in
    let p : Port = full_port in
    let log : Log = [] in
    let o = (dispatch_write dev lock irp p log).0 in
    Settled irp p.write_queue o.port.write_queue o
    × (o.port.lock_count ≡ p.lock_count)
    × IsValid o.port
dispatch_write-Settled_example =
    dispatch_write-Settled stub Status.success request full_port ([]) full_port-IsValid
      (omega arith)

dispatch_write_copies_example :
    let dev : Device = stub in
    let irp : Irp = request in
    let p : Port = full_port in
    let log : Log = [] in
    let n = min irp.length (ring_size - p.tx.count) in
    let o = (dispatch_write dev Status.success irp p log).0 in
    (contents o.port.tx ≡ contents p.tx ++ take n irp.buffer)
    × (o.result ≡ (if n == irp.length then Status.success else Status.pending))
    × (o.completed ≡ (if n == irp.length then finish Status.success n irp ∷ [] else []))
    × (o.port.write_queue ≡ (
        if n == irp.length
        then p.write_queue
        else p.write_queue ++ ((if ltb 0 n then record irp { offset = n } else irp) ∷ [])))
dispatch_write_copies_example =
    dispatch_write_copies stub request full_port ([]) full_port-IsValid (omega arith) refl refl refl

write_dpc_lem_example :
    let dev : Device = stub in
    let p : Port = full_port in
    let log : Log = [] in
    let (p', completed) = (write_dpc dev p log).0 in
    Feeds stub p.write_queue p p'.write_queue p'
    × (ids completed ≡ take (length completed) (ids p.write_queue))
write_dpc_lem_example =
    write_dpc_lem stub full_port ([]) full_port-IsValid ((omega arith, (omega arith, tt)))
