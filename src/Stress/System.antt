-- ===== src/Stress/System.antt =====
-- The calls of Windows that fossil/cyclades/test/cystress.c makes. Each is answered by a function of
-- all calls so far, so every behaviour of Windows and of the driver is some `Windows`.
pub use netmodem2irc.Base.Logged.{pure, ◌>>=◌, ◌>>◌}
use netmodem2irc.Base.Logged.{Logged}
use netmodem2irc.Base.{ℕ, ◌%◌, ◌^◌, List, ◌∷◌, length}

-- The routines that the threads run.
pub data Worker : Type 0 where
  writer reader ioctl : Worker

-- A call; `open_overlapped` and `read_overlapped` are those with an OVERLAPPED. The numbers of
-- `set_timeouts` are ReadIntervalTimeout, ReadTotalTimeoutConstant and WriteTotalTimeoutConstant,
-- those of `set_state` BaudRate and ByteSize.
pub data Call : Type 0 where
  open_port open_overlapped close_port create_event close_event : Call
  cancel_io purge_rx get_state tick close_thread : Call
  set_timeouts : ℕ → ℕ → ℕ → Call
  set_state : ℕ → ℕ → Call
  write : List ℕ → Call
  read read_overlapped wait_event sleep wait_threads : ℕ → Call
  create_thread : Worker → Call

-- A call with its result: 0 where it fails, a NULL or INVALID_HANDLE_VALUE counting as failure. A
-- write that succeeds gives one more than the bytes written, a read gives the bytes read.
abbrev pub Calls : Type 0
Calls = List (Call × ℕ)

-- `clock n` is the time in milliseconds when `n` calls were made.
pub record Windows : Type 0 where
  pub answer : Calls → Call → ℕ
  pub clock : ℕ → ℕ

abbrev pub Io {ℓ} : Type ℓ → Type ℓ
Io A = Logged Calls A

module _ (w : Windows) where
  abbrev pub ask : Call → Io ℕ
  ask c l = (w.answer l c, (c, w.answer l c) ∷ l)

  -- GetTickCount, a DWORD
  unfoldable pub get_tick : Io ℕ
  get_tick l = (w.clock (length l) % 2 ^ 32, (Call.tick, w.clock (length l) % 2 ^ 32) ∷ l)
