-- ===== src/Stress.antt =====
-- fossil/cyclades/test/cystress.c: the test of a port under load, its six phases and `main`.
pub mod System
pub mod Flood
pub mod Handles
pub mod Tally
pub mod Threads
use netmodem2irc.Base.{
  ℕ, zero, suc, ◌+◌, ◌-◌, ◌*◌, ◌%◌, ◌^◌, Bool, true, false, ◌&&◌, ◌||◌, Option, some, none, List,
  [], ◌∷◌, get_or, ltb, leb, ◌==◌, if◌then◌else◌,
}
use netmodem2irc.Loopback.{Score, note, counting}
use netmodem2irc.Stress.System.{Worker, Call, Windows, Io, pure, ◌>>=◌, ◌>>◌, ask, get_tick}

-- `MAXDWORD`
abbrev maxdword : ℕ
maxdword = 0xFFFF_FFFF

-- The difference of two DWORDs.
unfoldable pub elapsed : ℕ → ℕ → ℕ
elapsed now start = (now + 2 ^ 32 - start) % 2 ^ 32

-- `bauds`
abbrev pub bauds : List ℕ
bauds = 9600 ∷ 19200 ∷ 38400 ∷ 57600 ∷ 115200 ∷ 2400 ∷ 1200 ∷ 4800 ∷ []

module _ (w : Windows) where
  -- The loop of `Phase1_RapidOpenClose`: the rounds left, and the failures.
  unfoldable pub open_close : ℕ → ℕ → Io ℕ
  open_close zero failures = pure failures
  open_close (suc n) failures = do
    com_port ← ask w Call.open_port
    let closes : Io (Unit {0}) = do ask w Call.close_port; pure tt
    (if com_port == 0 then pure tt else closes)
    open_close n (if com_port == 0 then failures + 1 else failures)

  unfoldable pub rapid_open_close : ℕ → Score → Io Score
  rapid_open_close iterations s = do
    failures ← open_close iterations 0
    pure (note (failures == 0) s)

  -- The loop of `Phase2_WriteFlood`, by `totalBytes`; `none` where the rounds do not suffice.
  unfoldable pub flood : ℕ → ℕ → ℕ → ℕ → Io (Option ℕ)
  unfolding get_tick elapsed
  flood zero start limit total = pure none
  flood (suc n) start limit total = do
    now ← get_tick w
    let writes : Io (Option ℕ) = do
      sent ← ask w (Call.write (counting 0 512))
      flood n start limit ((total + (sent - 1)) % 2 ^ 32)
    (if ltb (elapsed now start) limit then writes else pure (some total))

  -- The phase; `duration` is the bit pattern of durationSec.
  unfoldable pub write_flood : ℕ → ℕ → Score → Io (Option Score)
  unfolding get_tick
  write_flood rounds duration s = do
    com_port ← ask w Call.open_port
    let floods : Io (Option Score) = do
      ask w (Call.set_timeouts maxdword 0 100)
      start ← get_tick w
      total ← flood rounds start (duration * 1000 % 2 ^ 32) 0
      elim total [ none ↦ pure none | some n ↦ do ask w Call.close_port; pure (some (note true s)) ]
    (if com_port == 0 then pure (some (note false s)) else floods)

  -- `Phase3_ReadTimeout`
  unfoldable pub read_timeout : Score → Io Score
  unfolding get_tick elapsed
  read_timeout s = do
    com_port ← ask w Call.open_port
    let reads : Io Score = do
      ask w (Call.set_timeouts 0 500 1000)
      ask w Call.purge_rx
      start ← get_tick w
      num_read ← ask w (Call.read 64)
      now ← get_tick w
      ask w Call.close_port
      let took = elapsed now start
      pure (note ((num_read == 0) && (leb 400 took && leb took 1500)) s)
    (if com_port == 0 then pure (note false s) else reads)

  -- The loop of `Phase4_IoctlStorm`, from round `i` on.
  unfoldable pub storm : ℕ → ℕ → ℕ → Io ℕ
  storm zero i failures = pure failures
  storm (suc n) i failures = do
    ask w Call.get_state
    set ← ask w (Call.set_state (get_or bauds (i % 8) 0) (5 + i % 4))
    storm n (i + 1) (if set == 0 then failures + 1 else failures)

  unfoldable pub ioctl_storm : ℕ → Score → Io Score
  ioctl_storm iterations s = do
    com_port ← ask w Call.open_port
    let changes : Io Score = do
      failures ← storm iterations 0 0
      ask w Call.close_port
      pure (note (failures == 0) s)
    (if com_port == 0 then pure (note false s) else changes)

  -- A round of `Phase5_CancelStress` on an open port, and its loop. The handle of the event is closed
  -- where there is none too.
  unfoldable pub cancel_round : Io (Unit {0})
  cancel_round = do
    ask w Call.create_event
    ask w (Call.read_overlapped 64)
    ask w Call.cancel_io
    ask w (Call.wait_event 100)
    ask w Call.close_event
    ask w Call.close_port
    pure tt

  unfoldable pub cancel_loop : ℕ → ℕ → Io ℕ
  unfolding cancel_round
  cancel_loop zero failures = pure failures
  cancel_loop (suc n) failures = do
    com_port ← ask w Call.open_overlapped
    (if com_port == 0 then pure tt else cancel_round)
    cancel_loop n (if com_port == 0 then failures + 1 else failures)

  unfoldable pub cancel_stress : ℕ → Score → Io Score
  cancel_stress iterations s = do failures ← cancel_loop iterations 0; pure (note (failures == 0) s)

  -- What `Phase6_ConcurrentThreads` calls itself; what its threads do is in Stress/Threads.
  unfoldable pub concurrent_threads : ℕ → Score → Io Score
  concurrent_threads duration s = do
    com_port ← ask w Call.open_port
    let runs : Io Score = do
      ask w (Call.set_timeouts maxdword 50 50)
      ask w (Call.create_thread Worker.writer)
      ask w (Call.create_thread Worker.reader)
      ask w (Call.create_thread Worker.ioctl)
      ask w (Call.sleep (duration * 1000 % 2 ^ 32))
      ask w (Call.wait_threads 5000)
      ask w Call.close_thread
      ask w Call.close_thread
      ask w Call.close_thread
      ask w Call.close_port
      pure (note true s)
    (if com_port == 0 then pure (note false s) else runs)

-- An argument: /P:N and /T:N with the int's bit pattern, /V, another one with a slash, and a name.
pub data Switch : Type 0 where
  only duration : ℕ → Switch
  verbose other port_name : Switch

-- `portName` that is not NULL, `duration` and `onlyPhase`
pub record Options : Type 0 where
  pub has_port : Bool
  pub seconds : ℕ
  pub only_phase : ℕ

unfoldable pub parse : List Switch → Options → Options
parse [] o = o
parse (Switch.only n ∷ args) o = parse args (record o { only_phase = n })
parse (Switch.duration n ∷ args) o = parse args (record o { seconds = n })
parse (Switch.verbose ∷ args) o = parse args o
parse (Switch.other ∷ args) o = parse args o
parse (Switch.port_name ∷ args) o = parse args (record o { has_port = true })

unfoldable pub default_options : Options
default_options = record { has_port = false; seconds = 5; only_phase = 0 }

unfoldable pub runs_phase : Options → ℕ → Bool
runs_phase o k = (o.only_phase == 0) || (o.only_phase == k)

-- The exit code.
unfoldable pub results : Option Score → Option (ℕ × Score)
results none = none
results (some s) = some (if ltb 0 s.failed then 1 else 0, s)

module _ (w : Windows) where
  -- The phases after the second one.
  unfoldable pub later_phases : Options → Score → Io Score
  unfolding runs_phase
  later_phases o s2 = do
    s3 ← (if runs_phase o 3 then read_timeout w s2 else pure s2)
    s4 ← (if runs_phase o 4 then ioctl_storm w 500 s3 else pure s3)
    s5 ← (if runs_phase o 5 then cancel_stress w 100 s4 else pure s4)
    (if runs_phase o 6 then concurrent_threads w o.seconds s5 else pure s5)

  -- After the second phase, if it has ended.
  unfoldable pub after_flood : Options → Option Score → Io (Option Score)
  unfolding later_phases
  after_flood o none = pure none
  after_flood o (some s2) = do s6 ← later_phases o s2; pure (some s6)

  -- All phases, in order.
  unfoldable pub all_phases : ℕ → Options → Score → Io (Option Score)
  unfolding runs_phase after_flood
  all_phases rounds o s = do
    s1 ← (if runs_phase o 1 then rapid_open_close w 100 s else pure s)
    s2 ← (if runs_phase o 2 then write_flood w rounds o.seconds s1 else pure (some s1))
    after_flood o s2

  -- `main`, by its exit code and the counts; the number bounds the rounds of the second phase.
  unfoldable pub main : ℕ → List Switch → Io (Option (ℕ × Score))
  unfolding parse default_options all_phases results
  main rounds args = do
    let o = parse args default_options
    let zeros : Score = record { passed = 0; failed = 0; total = 0 }
    let tests : Io (Option (ℕ × Score)) = do told ← all_phases rounds o zeros; pure (results told)
    (if o.has_port then tests else pure (some (1, zeros)))
