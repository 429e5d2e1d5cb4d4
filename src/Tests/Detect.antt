-- ===== src/Tests/Detect.antt =====
-- Examples of the theorems on Detect.
use netmodem2irc.Base.{ℕ, Option, some, []}
use netmodem2irc.Bus.{Device, Log}
use netmodem2irc.Card.{Card}
use netmodem2irc.Detect.{base_of, main}
use netmodem2irc.Detect.Selects.{OnlySelects, main-OnlySelects}
use netmodem2irc.Tests.Fixtures.{stub}

main-OnlySelects_example :
    let dev : Device = stub in
    let argument : Option ℕ = some 0xD0000 in
    let log : Log = [] in OnlySelects (base_of argument) log (main dev argument log).1
main-OnlySelects_example = main-OnlySelects stub (some 0xD0000) ([])
