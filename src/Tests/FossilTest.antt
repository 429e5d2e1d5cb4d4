-- ===== src/Tests/FossilTest.antt =====
-- Examples of the theorems on FossilTest.
use netmodem2irc.Base.{ℕ, ◌≡◌, false, refl, []}
use netmodem2irc.FossilTest.{Calls, Fossil, main}
use netmodem2irc.FossilTest.Session.{Makes, is_initialised, main-Makes}
use netmodem2irc.Tests.Programs.{fossil}

main-Makes_example :
    let fossil : Fossil = fossil in
    let port : ℕ = 0 in
    let l : Calls = [] in
    Makes port 2 2 l (main fossil port l).1 × (is_initialised (main fossil port l).1 ≡ false)
main-Makes_example = main-Makes fossil 0 ([]) refl
