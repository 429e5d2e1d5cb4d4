-- ===== src/Tests/CoInstall.antt =====
-- Examples of the theorems on CoInstall.
use netmodem2irc.Base.{Bool, false, []}
use netmodem2irc.CoInstall.{Calls, Windows, DiFunction, co_installer}
use netmodem2irc.CoInstall.Handles.{Handle, Orderly, co_installer-Orderly}
use netmodem2irc.Tests.Programs.{claiming}

co_installer-Orderly_example :
    let w : Windows = claiming in
    let k : Handle = Handle.com_db in
    let f : DiFunction = DiFunction.install_device in
    let post : Bool = false in let l : Calls = [] in Orderly w k l (co_installer w f post l).1
co_installer-Orderly_example =
    co_installer-Orderly claiming Handle.com_db DiFunction.install_device false ([])
