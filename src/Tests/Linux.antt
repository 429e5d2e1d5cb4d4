-- ===== src/Tests/Linux.antt =====
-- Examples of the theorems on Linux.
use netmodem2irc.Base.{ℕ, ◌≤◌, ◌≡◌, refl, [], ◌+◌, ◌⊎◌}
use netmodem2irc.Linux.System.{ℤ, Calls, Os, pos}
use netmodem2irc.Linux.{Comm, closed, async_init, async_closecom, async_cgetstr, async_clearinbuf}
use netmodem2irc.Linux.Session.{Sound, Step, Reach, Reach-Sound}
use netmodem2irc.Linux.Lines.{StoresLine, async_cgetstr-StoresLine}
use netmodem2irc.Linux.Clearing.{num_reads, Drained, async_clearinbuf-Ends}
use netmodem2irc.Linux.Descriptors.{LeavesOpen, async_closecom-async_init}
use netmodem2irc.Tests.Fixtures.{os, comm}

Reach-Sound_example :
    let c : Comm = (async_init os closed []).0.1 in
    let l : Calls = (async_init os closed []).1 in Sound c l
Reach-Sound_example = Reach-Sound os ((async_init os closed []).0.1) ((async_init os closed []).1) (
    Reach.next closed [] (async_init os closed []).0.1 (async_init os closed []).1 Reach.start
      (Step.init refl))

async_cgetstr-StoresLine_example :
    let os : Os = os in
    let maxlen : ℤ = pos 5 in
    let c : Comm = comm in let l : Calls = [] in StoresLine maxlen c (async_cgetstr os maxlen c l).0
async_cgetstr-StoresLine_example = async_cgetstr-StoresLine os (pos 5) comm ([])

async_clearinbuf-Ends_example :
    let os : Os = os in
    let c : Comm = comm in
    let l : Calls = [] in
    (num_reads (async_clearinbuf os c l).1 ≤ num_reads l + 64)
    × ((num_reads (async_clearinbuf os c l).1 ≡ num_reads l + 64)
        ⊎ Drained (async_clearinbuf os c l).1)
async_clearinbuf-Ends_example = async_clearinbuf-Ends os comm ([]) refl

async_closecom-async_init_example :
    let os : Os = os in
    let d : ℕ = 4 in
    let c : Comm = closed in
    let l : Calls = [] in
    LeavesOpen d 0 l (async_closecom os (async_init os c l).0.1 (async_init os c l).1).1
async_closecom-async_init_example = async_closecom-async_init os 4 closed ([]) refl refl
