-- ===== src/Tests/Install.antt =====
-- Examples of the theorems on Install.
use netmodem2irc.Base.{List, [], ◌∷◌}
use netmodem2irc.Install.System.{Calls, Windows}
use netmodem2irc.Install.Main.{Argument, main}
use netmodem2irc.Install.Handles.Parts.{Handle, Balanced}
use netmodem2irc.Install.Handles.{main-Balanced}
use netmodem2irc.Tests.Fixtures.{windows}

main-Balanced_example :
    let w : Windows = windows in
    let k : Handle = Handle.service in
    let args : List Argument = Argument.uninstall ∷ Argument.force ∷ [] in
    let l : Calls = [] in Balanced k l (main w args l).1
main-Balanced_example =
    main-Balanced windows Handle.service (Argument.uninstall ∷ Argument.force ∷ []) ([])
