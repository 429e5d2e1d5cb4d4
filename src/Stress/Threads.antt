-- ===== src/Stress/Threads.antt =====
-- The threads of `Phase6_ConcurrentThreads`: WriterThread, ReaderThread, IoctlThread, and the calls of
-- the phase after it has made them. A move is one call, or one test of `g_stopThreads`; the threads and
-- the phase move in any order.
pub mod Ends
pub mod Safety
use netmodem2irc.Base.{
  ℕ, zero, suc, ◌+◌, Bool, true, false, ◌&&◌, Option, none, some, List, [], ◌∷◌, ◌≡◌, if◌then◌else◌,
}
use netmodem2irc.Stress.System.{Worker}

-- What a thread calls; `rest` is Sleep(1), the others are given the handle of the port.
pub data Action : Type 0 where
  write_file read_file modem_status clear_error rest : Action

-- The body of the loop of each routine.
unfoldable pub body : Worker → List Action
body Worker.writer = Action.write_file ∷ []
body Worker.reader = Action.read_file ∷ []
body Worker.ioctl = Action.modem_status ∷ Action.clear_error ∷ Action.rest ∷ []

-- A thread is before the test of its loop, in its body with the calls that are left, or has ended; a
-- thread that could not be made counts as ended.
pub data Thread : Type 0 where
  at_test : Thread
  in_body : Action → List Action → Thread
  ended : Thread

unfoldable pub enter : List Action → Thread
enter [] = Thread.at_test
enter (a ∷ actions) = Thread.in_body a actions

abbrev pub is_ended : Thread → Bool
is_ended Thread.ended = true
is_ended _ = false

-- The phase is in its Sleep, in WaitForMultipleObjects, before CloseHandle(hCom), or behind it.
pub data Main : Type 0 where
  sleeping waiting closing finished : Main

-- `stop` is `g_stopThreads`; `timed_out` says that the wait ended before all threads had. `calls`
-- are those of the threads that are given the handle, with whether it was open, newest first.
pub record State : Type 0 where
  pub stop : Bool
  pub port_open : Bool
  pub timed_out : Bool
  pub main_at : Main
  pub writer_at : Thread
  pub reader_at : Thread
  pub ioctl_at : Thread
  pub calls : List (Action × Bool)

abbrev pub thread_of : State → Worker → Thread
thread_of s Worker.writer = s.writer_at
thread_of s Worker.reader = s.reader_at
thread_of s Worker.ioctl = s.ioctl_at

abbrev pub put_thread : State → Worker → Thread → State
put_thread s Worker.writer t = record s { writer_at = t }
put_thread s Worker.reader t = record s { reader_at = t }
put_thread s Worker.ioctl t = record s { ioctl_at = t }

abbrev pub all_ended : State → Bool
all_ended s = is_ended s.writer_at && (is_ended s.reader_at && is_ended s.ioctl_at)

abbrev pub begin : Bool → Thread
begin made = if made then Thread.at_test else Thread.ended

-- The phase when the threads are made, each of which may fail.
unfoldable pub initial : Bool → Bool → Bool → State
initial writes reads controls = record {
  stop = false;
  port_open = true;
  timed_out = false;
  main_at = Main.sleeping;
  writer_at = begin writes;
  reader_at = begin reads;
  ioctl_at = begin controls;
  calls = [];
}

-- The phase sets the flag after its sleep, its wait ends with all threads or for the time, and it
-- closes the port; or a thread moves.
pub data Move : Type 0 where
  sets_stop wait_ends wait_fails closes : Move
  thread : Worker → Move

unfoldable pub note_call : Action → State → State
note_call Action.rest s = s
note_call a s = record s { calls = (a, s.port_open) ∷ s.calls }

-- What a thread does from where it is.
unfoldable pub thread_step : Worker → Thread → State → Option State
unfolding note_call enter body
thread_step k Thread.at_test s =
    some (put_thread s k (if s.stop then Thread.ended else enter (body k)))
thread_step k (Thread.in_body a actions) s = some (put_thread (note_call a s) k (enter actions))
thread_step k Thread.ended s = none

unfoldable pub main_step : Move → Main → State → Option State
main_step Move.sets_stop Main.sleeping s = some (record s { stop = true; main_at = Main.waiting })
main_step Move.wait_ends Main.waiting s =
    if all_ended s then some (record s { main_at = Main.closing }) else none
main_step Move.wait_fails Main.waiting s =
    some (record s { timed_out = true; main_at = Main.closing })
main_step Move.closes Main.closing s =
    some (record s { port_open = false; main_at = Main.finished })
main_step _ _ s = none

-- A move, where it is possible.
unfoldable pub step : Move → State → Option State
unfolding thread_step main_step
step (Move.thread k) s = thread_step k (thread_of s k) s
step m s = main_step m s.main_at s

-- Several moves, in order.
unfoldable pub run_moves : List Move → State → Option State
run_moves [] s = some s
run_moves (m ∷ moves) s = elim (step m s) [ none ↦ none | some s' ↦ run_moves moves s' ]

-- The states that come up.
pub data Reach : State → Type 0 where
  start : (writes reads controls : Bool) → Reach (initial writes reads controls)
  next : (m : Move) (s s' : State) → Reach s → step m s ≡ some s' → Reach s'
