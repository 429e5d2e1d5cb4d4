-- ===== src/Tests/Stress.antt =====
-- Examples of the theorems on Stress.
use netmodem2irc.Base.{ℕ, suc, ◌≡◌, refl, true, false, some, List, [], ◌∷◌, arith, ◌⊎◌, replicate}
use netmodem2irc.Loopback.{Score}
use netmodem2irc.Stress.System.{Calls, Windows, Worker}
use netmodem2irc.Stress.Flood.{main_returns}
use netmodem2irc.Stress.{Switch, parse, default_options, main}
use netmodem2irc.Stress.Handles.{Made, Tidy, main-Tidy}
use netmodem2irc.Stress.Threads.{
  Action, body, Thread, enter, State, thread_of, all_ended, initial, Move, run_moves, note_call,
  thread_step, main_step, step, Reach,
}
use netmodem2irc.Stress.Threads.Safety.{num_misused, Reach-no_misuse, run_moves-Reach}
use netmodem2irc.Stress.Threads.Ends.{num_left, run_moves_obeys, run_moves_misuses}
use netmodem2irc.Tests.Programs.{busy, late, stopping, stopped}

main-Tidy_example :
    let w : Windows = busy in
    let k : Made = Made.thread in
    let n : ℕ = 20 in
    let args : List Switch = Switch.port_name ∷ [] in
    let l : Calls = [] in
    (r : ℕ × Score) × ((main w (suc n) args l).0 ≡ some r) × Tidy k l (main w (suc n) args l).1
unfolding parse default_options
main-Tidy_example =
    main-Tidy busy Made.thread 20 (Switch.port_name ∷ []) ([])
      (record { onward = λ n. omega arith; soon = λ n. omega arith }) (λ k. omega arith)

main_returns_example :
    let w : Windows = busy in
    let n : ℕ = 20 in
    let args : List Switch = Switch.port_name ∷ [] in
    let l : Calls = [] in (r : ℕ × Score) × ((main w (suc n) args l).0 ≡ some r)
unfolding parse default_options
main_returns_example =
    main_returns busy 20 (Switch.port_name ∷ []) ([])
      (record { onward = λ n. omega arith; soon = λ n. omega arith }) (λ k. omega arith)

Reach-no_misuse_example :
    let s : State = stopped in
    (num_misused s.calls ≡ 0) × ((s.port_open ≡ true) ⊎ (all_ended s ≡ true))
unfolding run_moves step thread_step main_step initial body enter note_call
Reach-no_misuse_example =
    Reach-no_misuse stopped
      (run_moves-Reach stopping (initial true true false) stopped (Reach.start true true false)
        refl)
      refl

run_moves_obeys_example :
    let k : Worker = Worker.ioctl in
    let s : State = late in
    (s' : State) × (run_moves (replicate (num_left (thread_of s k)) (Move.thread k)) s ≡ some s')
    × (thread_of s' k ≡ Thread.ended)
run_moves_obeys_example = run_moves_obeys Worker.ioctl late refl

run_moves_misuses_example :
    let k : Worker = Worker.writer in
    let a : Action = Action.write_file in
    let s : State = late in
    (s' : State) × (run_moves (Move.wait_fails ∷ Move.closes ∷ Move.thread k ∷ []) s ≡ some s')
    × (s'.calls ≡ (a, false) ∷ s.calls)
run_moves_misuses_example =
    run_moves_misuses Worker.writer Action.write_file ([]) late refl refl refl
