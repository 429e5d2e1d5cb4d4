-- ===== src/Stress/Threads/Ends.antt =====
-- How long a thread goes on once the flag is set, and what it meets where the phase does not wait for
-- it.
use netmodem2irc.Base.{
  ℕ, zero, suc, ◌+◌, ◌≡◌, ◌∙◌, refl, Bool, true, false, some, List, [], ◌∷◌, length, replicate,
  arith,
}
use netmodem2irc.Stress.System.{Worker}
use netmodem2irc.Stress.Threads.{
  Action, Thread, enter, Main, State, thread_of, put_thread, Move, note_call, thread_step,
  main_step, step, run_moves,
}

-- The moves that a thread has left once the flag is set.
abbrev pub num_left : Thread → ℕ
num_left Thread.at_test = 1
num_left (Thread.in_body a actions) = length actions + 2
num_left Thread.ended = 0

num_left-enter : (actions : List Action) → num_left (enter actions) ≡ length actions + 1
unfolding enter
num_left-enter [] = refl
num_left-enter (a ∷ actions) = omega arith

thread_of-put_thread : (k : Worker) (t : Thread) (s : State) → thread_of (put_thread s k t) k ≡ t
thread_of-put_thread Worker.writer t s = refl
thread_of-put_thread Worker.reader t s = refl
thread_of-put_thread Worker.ioctl t s = refl

stop-put_thread : (k : Worker) (t : Thread) (s : State) → (put_thread s k t).stop ≡ s.stop
stop-put_thread Worker.writer t s = refl
stop-put_thread Worker.reader t s = refl
stop-put_thread Worker.ioctl t s = refl

stop-note_call : (a : Action) (s : State) → (note_call a s).stop ≡ s.stop
unfolding note_call
stop-note_call Action.rest s = refl
stop-note_call Action.write_file s = refl
stop-note_call Action.read_file s = refl
stop-note_call Action.modem_status s = refl
stop-note_call Action.clear_error s = refl

run_moves_ends :
    (n : ℕ) (k : Worker) (t : Thread) (s : State)
    → thread_of s k ≡ t
    → num_left t ≡ n
    → s.stop ≡ true
    → (s' : State) × (run_moves (replicate n (Move.thread k)) s ≡ some s')
      × (thread_of s' k ≡ Thread.ended)
unfolding run_moves step thread_step
run_moves_ends zero k Thread.at_test s here left stopped = absurd (omega arith)
run_moves_ends zero k (Thread.in_body a actions) s here left stopped = absurd (omega arith)
run_moves_ends zero k Thread.ended s here left stopped = (s, refl, here)
run_moves_ends (suc n) k Thread.at_test s here left stopped =
    let s1 = put_thread s k Thread.ended in
    let told =
      run_moves_ends n k Thread.ended s1 (thread_of-put_thread k Thread.ended s) (omega arith)
        (stop-put_thread k Thread.ended s ∙ stopped) in
    (told.0, ground (arith, here, stopped, told.1), told.2)
run_moves_ends (suc n) k (Thread.in_body a actions) s here left stopped =
    let s1 = put_thread (note_call a s) k (enter actions) in
    let told =
      run_moves_ends n k (enter actions) s1 (thread_of-put_thread k (enter actions) (note_call a s))
        (omega (arith, num_left-enter actions))
        (stop-put_thread k (enter actions) (note_call a s) ∙ (stop-note_call a s ∙ stopped)) in
    (told.0, ground (arith, here, told.1), told.2)
run_moves_ends (suc n) k Thread.ended s here left stopped = absurd (omega arith)

-- Once the flag is set, a thread ends with at most one move more than the calls that are left of its
-- body and the test of its loop, each move being possible when it comes.
pub run_moves_obeys :
    (k : Worker) (s : State)
    → s.stop ≡ true
    → (s' : State) × (run_moves (replicate (num_left (thread_of s k)) (Move.thread k)) s ≡ some s')
      × (thread_of s' k ≡ Thread.ended)
run_moves_obeys k s stopped =
    run_moves_ends (num_left (thread_of s k)) k (thread_of s k) s refl refl stopped

-- Whether a call is given the handle of the port.
abbrev pub uses_port : Action → Bool
uses_port Action.rest = false
uses_port _ = true

note_call_closed :
    (a : Action) (s : State)
    → uses_port a ≡ true
    → s.port_open ≡ false
    → (note_call a s).calls ≡ (a, false) ∷ s.calls
unfolding note_call
note_call_closed Action.rest s u c = cc
note_call_closed Action.write_file s u c = rw c refl
note_call_closed Action.read_file s u c = rw c refl
note_call_closed Action.modem_status s u c = rw c refl
note_call_closed Action.clear_error s u c = rw c refl

calls-put_thread : (k : Worker) (t : Thread) (s : State) → (put_thread s k t).calls ≡ s.calls
calls-put_thread Worker.writer t s = refl
calls-put_thread Worker.reader t s = refl
calls-put_thread Worker.ioctl t s = refl

thread_of_closed :
    (k : Worker) (s : State)
    → thread_of (record s { timed_out = true; port_open = false; main_at = Main.finished }) k
      ≡ thread_of s k
thread_of_closed Worker.writer s = refl
thread_of_closed Worker.reader s = refl
thread_of_closed Worker.ioctl s = refl

-- Where the phase waits while a thread has a call before it that is given the handle, the wait can
-- fail and the phase close the port, and then the thread makes the call on the closed handle.
pub run_moves_misuses :
    (k : Worker) (a : Action) (actions : List Action) (s : State)
    → s.main_at ≡ Main.waiting
    → thread_of s k ≡ Thread.in_body a actions
    → uses_port a ≡ true
    → (s' : State) × (run_moves (Move.wait_fails ∷ Move.closes ∷ Move.thread k ∷ []) s ≡ some s')
      × (s'.calls ≡ (a, false) ∷ s.calls)
unfolding run_moves step thread_step main_step
run_moves_misuses k a actions s waits here uses =
    let closed : State = record s {
      timed_out = true;
      port_open = false;
      main_at = Main.finished;
    } in
    (
      put_thread (note_call a closed) k (enter actions),
      ground (arith, waits, here, thread_of_closed k s),
      calls-put_thread k (enter actions) (note_call a closed) ∙ note_call_closed a closed uses refl,
    )
