-- ===== src/Stress/Threads/Safety.antt =====
-- Which calls of the threads can meet a closed port.
use netmodem2irc.Base.{
  Option-cases, ℕ, ◌+◌, ◌≡◌, refl, ◌⊎◌, inl, inr, Bool, Bool-cases, true, false, some, List, [],
  ◌∷◌, if◌then◌else◌, arith,
}
use mathlib.Core.Path.{subst, subst⁻¹}
use mathlib.Core.Option.{some-injective, none-ne-some}
use netmodem2irc.Stress.System.{Worker}
use netmodem2irc.Stress.Threads.{
  Action, body, Thread, enter, is_ended, Main, State, thread_of, put_thread, all_ended, initial,
  Move, run_moves, note_call, thread_step, main_step, step, Reach,
}

-- How many of the calls were given a handle that was closed.
abbrev pub num_misused : List (Action × Bool) → ℕ
num_misused [] = 0
num_misused ((a, was_open) ∷ calls) = (if was_open then 0 else 1) + num_misused calls

-- What holds where the phase is at a place.
abbrev Holds : Main → State → Type 0
Holds Main.sleeping s = (s.port_open ≡ true) × (num_misused s.calls ≡ 0)
Holds Main.waiting s = (s.port_open ≡ true) × (num_misused s.calls ≡ 0)
Holds Main.closing s =
    (s.port_open ≡ true) × (num_misused s.calls ≡ 0) × ((s.timed_out ≡ true) ⊎ (all_ended s ≡ true))
Holds Main.finished s = (s.timed_out ≡ true) ⊎ ((all_ended s ≡ true) × (num_misused s.calls ≡ 0))

note_call_open :
    (a : Action) (s : State)
    → (s.port_open ≡ false) ⊎ (num_misused (note_call a s).calls ≡ num_misused s.calls)
unfolding note_call
note_call_open Action.rest s = inr refl
note_call_open Action.write_file s = ground arith
note_call_open Action.read_file s = ground arith
note_call_open Action.modem_status s = ground arith
note_call_open Action.clear_error s = ground arith

-- A call leaves the rest of the state.
record Leaves (s s' : State) : Type 0 where
  same_port : s'.port_open ≡ s.port_open
  same_time : s'.timed_out ≡ s.timed_out
  same_main : s'.main_at ≡ s.main_at

note_call-Leaves : (a : Action) (s : State) → Leaves s (note_call a s)
unfolding note_call
note_call-Leaves Action.rest s = ground arith
note_call-Leaves Action.write_file s = ground arith
note_call-Leaves Action.read_file s = ground arith
note_call-Leaves Action.modem_status s = ground arith
note_call-Leaves Action.clear_error s = ground arith

put_thread-Leaves :
    (k : Worker) (t : Thread) (s : State)
    → Leaves s (put_thread s k t) × ((put_thread s k t).calls ≡ s.calls)
put_thread-Leaves Worker.writer t s = ground arith
put_thread-Leaves Worker.reader t s = ground arith
put_thread-Leaves Worker.ioctl t s = ground arith

-- A thread that moves had not ended, leaves the place of the phase, and makes no call on a closed
-- port where the port is open.
record Moves (s s' : State) : Type 0 where
  left : Leaves s s'
  unfinished : all_ended s ≡ false
  no_misuse : (s.port_open ≡ false) ⊎ (num_misused s'.calls ≡ num_misused s.calls)

thread_of_unfinished :
    (k : Worker) (s : State) → is_ended (thread_of s k) ≡ false → all_ended s ≡ false
thread_of_unfinished Worker.writer s h = ground (arith, h)
thread_of_unfinished Worker.reader s h = ground (arith, h)
thread_of_unfinished Worker.ioctl s h = ground (arith, h)

thread_step-Moves :
    (k : Worker) (t : Thread) (s s' : State)
    → thread_of s k ≡ t
    → thread_step k t s ≡ some s'
    → Moves s s'
unfolding thread_step
thread_step-Moves k Thread.at_test s s' here h =
    let there = put_thread-Leaves k (if s.stop then Thread.ended else enter (body k)) s in
    let busy = thread_of_unfinished k s (rw here refl) in ground (arith, h, there, busy)
thread_step-Moves k (Thread.in_body a actions) s s' here h =
    let called = note_call-Leaves a s in
    let there = put_thread-Leaves k (enter actions) (note_call a s) in
    let busy = thread_of_unfinished k s (rw here refl) in
    ground (arith, h, called, there, busy, note_call_open a s)
thread_step-Moves k Thread.ended s s' here h = cc

thread_Holds : (at : Main) (s s' : State) → Moves s s' → Holds at s → Holds at s'
thread_Holds Main.sleeping s s' m h = let l = m.left in ground (arith, h, l.same_port, m.no_misuse)
thread_Holds Main.waiting s s' m h = let l = m.left in ground (arith, h, l.same_port, m.no_misuse)
thread_Holds Main.closing s s' m h =
    let l = m.left in ground (arith, h, l.same_port, l.same_time, m.no_misuse, m.unfinished)
thread_Holds Main.finished s s' m h = let l = m.left in ground (arith, h, l.same_time, m.unfinished)

-- The state after a move is the one that the move gives.
to_next : (t s' : State) → some t ≡ some s' → Holds t.main_at t → Holds s'.main_at s'
to_next t s' e h = subst (λ (u : State). Holds u.main_at u) (some-injective t s' e) h

closed_Holds :
    (s : State)
    → Holds Main.closing s
    → Holds Main.finished (record s { port_open = false; main_at = Main.finished })
closed_Holds s (is_open, none_yet, inl late) = inl late
closed_Holds s (is_open, none_yet, inr over) = inr (over, none_yet)

main_step-Holds :
    (m : Move) (at : Main) (s s' : State)
    → Holds at s
    → main_step m at s ≡ some s'
    → Holds s'.main_at s'
unfolding main_step
main_step-Holds Move.sets_stop Main.sleeping s s' h e =
    to_next (record s { stop = true; main_at = Main.waiting }) s' e h
main_step-Holds Move.wait_ends Main.waiting s s' h e = elim (Bool-cases (all_ended s)) [
  | inl y ↦ to_next (record s { main_at = Main.closing }) s' (rw y at e) (h.0, h.1, inr y)
  | inr x ↦ absurd (none-ne-some s' (rw x at e))
]
main_step-Holds Move.wait_fails Main.waiting s s' h e =
    to_next (record s { timed_out = true; main_at = Main.closing }) s' e (h.0, h.1, inl refl)
main_step-Holds Move.closes Main.closing s s' h e =
    to_next (record s { port_open = false; main_at = Main.finished }) s' e (closed_Holds s h)
main_step-Holds m at s s' h e = cc

step-Holds :
    (m : Move) (s s' : State) → Holds s.main_at s → step m s ≡ some s' → Holds s'.main_at s'
unfolding step
step-Holds (Move.thread k) s s' h e =
    let moved = thread_step-Moves k (thread_of s k) s s' refl e in
    subst⁻¹ (λ (m : Main). Holds m s') moved.left.same_main (thread_Holds s.main_at s s' moved h)
step-Holds m s s' h e = main_step-Holds m s.main_at s s' h e

Holds-no_misuse :
    (at : Main) (s : State)
    → Holds at s
    → s.timed_out ≡ false
    → (num_misused s.calls ≡ 0) × ((s.port_open ≡ true) ⊎ (all_ended s ≡ true))
Holds-no_misuse Main.sleeping s h in_time = ground (arith, h, in_time)
Holds-no_misuse Main.waiting s h in_time = ground (arith, h, in_time)
Holds-no_misuse Main.closing s h in_time = ground (arith, h, in_time)
Holds-no_misuse Main.finished s h in_time = ground (arith, h, in_time)

Reach-Holds : (s : State) → Reach s → Holds s.main_at s
unfolding initial
Reach-Holds s (Reach.start writes reads controls) = (refl, refl)
Reach-Holds s (Reach.next m s0 _ before e) = step-Holds m s0 s (Reach-Holds s0 before) e

pub run_moves-Reach :
    (moves : List Move) (s s' : State) → Reach s → run_moves moves s ≡ some s' → Reach s'
unfolding run_moves
run_moves-Reach [] s s' r h = subst (λ (u : State). Reach u) (some-injective s s' h) r
run_moves-Reach (m ∷ moves) s s' r h = elim (Option-cases (step m s)) [
  | inl e ↦ ground (arith, e, h)
  | inr p ↦ run_moves-Reach moves p.0 s' (Reach.next m s p.0 r p.1) (ground (arith, p.1, h))
]

-- Whatever order the threads and the phase move in: where the wait of the phase has ended with all
-- threads, no call of a thread was given a closed handle, and once the port is closed all threads
-- have ended.
pub Reach-no_misuse :
    (s : State)
    → Reach s
    → s.timed_out ≡ false
    → (num_misused s.calls ≡ 0) × ((s.port_open ≡ true) ⊎ (all_ended s ≡ true))
Reach-no_misuse s r in_time = Holds-no_misuse s.main_at s (Reach-Holds s r) in_time
