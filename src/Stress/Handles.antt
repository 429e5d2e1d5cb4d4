-- ===== src/Stress/Handles.antt =====
-- The program closes what it opens.
use netmodem2irc.Base.{
  ℕ, zero, suc, ◌+◌, ◌*◌, ◌%◌, ◌^◌, ◌≡◌, ◌≤◌, refl, Bool, Bool-cases, inl, inr, true, false, Option,
  some, none, List, [], ◌∷◌, get_or, ◌==◌, ◌-◌, if◌then◌else◌, arith,
}
use netmodem2irc.Loopback.{Score, counting}
use netmodem2irc.Stress.System.{Call, Calls, Windows, Io, pure, ask, get_tick}
use netmodem2irc.Stress.Flood.{Runs, limit_of, main_returns}
use netmodem2irc.Stress.{
  open_close, rapid_open_close, flood, write_flood, read_timeout, storm, ioctl_storm, cancel_round,
  cancel_loop, cancel_stress, concurrent_threads, Switch, Options, parse, default_options, bauds,
  runs_phase, later_phases, after_flood, all_phases, results, main,
}

-- Whether a call gives the handle of a port where it succeeds, whether it makes an event or a thread,
-- and whether it closes the handle of one.
abbrev opens : Call → Bool
opens Call.open_port = true
opens Call.open_overlapped = true
opens _ = false

abbrev closes : Call → Bool
closes Call.close_port = true
closes _ = false

-- The handles that are not of ports.
pub data Made : Type 0 where
  event thread : Made

abbrev same_kind : Made → Made → Bool
same_kind Made.event Made.event = true
same_kind Made.thread Made.thread = true
same_kind _ _ = false

abbrev creates : Made → Call → Bool
creates k Call.create_event = same_kind k Made.event
creates k (Call.create_thread worker) = same_kind k Made.thread
creates k _ = false

abbrev releases : Made → Call → Bool
releases k Call.close_event = same_kind k Made.event
releases k Call.close_thread = same_kind k Made.thread
releases k _ = false

-- How many handles of ports the calls have opened and closed.
abbrev pub num_opened : Calls → ℕ
num_opened [] = 0
num_opened ((c, n) ∷ calls) = (if opens c then (if n == 0 then 0 else 1) else 0) + num_opened calls

abbrev pub num_closed : Calls → ℕ
num_closed [] = 0
num_closed ((c, n) ∷ calls) = (if closes c then 1 else 0) + num_closed calls

-- How often CreateEvent or CreateThread was called, whether it succeeded or not, and how often
-- CloseHandle on what it gave: the program looks at none of these results.
abbrev pub num_created : Made → Calls → ℕ
num_created k [] = 0
num_created k ((c, n) ∷ calls) = (if creates k c then 1 else 0) + num_created k calls

abbrev pub num_released : Made → Calls → ℕ
num_released k [] = 0
num_released k ((c, n) ∷ calls) = (if releases k c then 1 else 0) + num_released k calls

-- What was opened from the first calls to the second is closed.
pub record Tidy (k : Made) (l l' : Calls) : Type 0 where
  pub ports : num_opened l' + num_closed l ≡ num_opened l + num_closed l'
  pub others : num_created k l' + num_released k l ≡ num_created k l + num_released k l'

same_Tidy : {k : Made} (l : Calls) → Tidy k l l
same_Tidy l = record { ports = refl; others = refl }

then_Tidy : {k : Made} {l l' l'' : Calls} → Tidy k l l' → Tidy k l' l'' → Tidy k l l''
then_Tidy a b = record {
  ports = omega (arith, a.ports, b.ports);
  others = omega (arith, a.others, b.others);
}

-- A phase that is run or left out.
when_Tidy :
    {k : Made} (b : Bool) (m : Io Score) (s : Score) (l : Calls)
    → Tidy k l (m l).1
    → Tidy k l ((if b then m else pure s) l).1
when_Tidy true m s l run = run
when_Tidy false m s l run = same_Tidy l

results-eq-some :
    (told : Option Score) {r : ℕ × Score} → results told ≡ some r → (s : Score) × (told ≡ some s)
unfolding results
results-eq-some none h = cc
results-eq-some (some s) h = (s, refl)

module _ (w : Windows) (k : Made) where
  open_close-Tidy : (n failures : ℕ) (l : Calls) → Tidy k l (open_close w n failures l).1
  unfolding open_close
  open_close-Tidy zero failures l = omega arith
  open_close-Tidy (suc n) failures l =
      let com_port = ask w Call.open_port l in
      let closed = ask w Call.close_port com_port.1 in
      ground
        (arith, open_close-Tidy n (failures + 1) com_port.1, open_close-Tidy n failures closed.1)

  rapid_open_close-Tidy : (n : ℕ) (s : Score) (l : Calls) → Tidy k l (rapid_open_close w n s l).1
  unfolding rapid_open_close
  rapid_open_close-Tidy n s l = open_close-Tidy n 0 l

  flood-Tidy : (n start limit total : ℕ) (l : Calls) → Tidy k l (flood w n start limit total l).1
  unfolding flood
  flood-Tidy zero start limit total l = omega arith
  flood-Tidy (suc n) start limit total l =
      let now = get_tick w l in
      let sent = ask w (Call.write (counting 0 512)) now.1 in
      ground (arith, flood-Tidy n start limit ((total + (sent.0 - 1)) % 2 ^ 32) sent.1)

  write_flood-Tidy :
      (rounds duration : ℕ) (s s' : Score) (l : Calls)
      → (write_flood w rounds duration s l).0 ≡ some s'
      → Tidy k l (write_flood w rounds duration s l).1
  unfolding write_flood
  write_flood-Tidy rounds duration s s' l done =
      let com_port = ask w Call.open_port l in
      let set = ask w (Call.set_timeouts 0xFFFF_FFFF 0 100) com_port.1 in
      let start = get_tick w set.1 in
      ground (arith, done, flood-Tidy rounds start.0 (duration * 1000 % 2 ^ 32) 0 start.1)

  read_timeout-Tidy : (s : Score) (l : Calls) → Tidy k l (read_timeout w s l).1
  unfolding read_timeout
  read_timeout-Tidy s l = ground arith

  storm-Tidy : (n i failures : ℕ) (l : Calls) → Tidy k l (storm w n i failures l).1
  unfolding storm
  storm-Tidy zero i failures l = omega arith
  storm-Tidy (suc n) i failures l =
      let got = ask w Call.get_state l in
      let set = ask w (Call.set_state (get_or bauds (i % 8) 0) (5 + i % 4)) got.1 in
      ground (arith, storm-Tidy n (i + 1) (failures + 1) set.1, storm-Tidy n (i + 1) failures set.1)

  ioctl_storm-Tidy : (n : ℕ) (s : Score) (l : Calls) → Tidy k l (ioctl_storm w n s l).1
  unfolding ioctl_storm
  ioctl_storm-Tidy n s l =
      let com_port = ask w Call.open_port l in ground (arith, storm-Tidy n 0 0 com_port.1)

  cancel_loop-Tidy : (n failures : ℕ) (l : Calls) → Tidy k l (cancel_loop w n failures l).1
  unfolding cancel_loop
  cancel_loop-Tidy zero failures l = omega arith
  cancel_loop-Tidy (suc n) failures l =
      let com_port = ask w Call.open_overlapped l in
      let round = cancel_round w com_port.1 in
      ground
        (arith, cancel_loop-Tidy n (failures + 1) com_port.1, cancel_loop-Tidy n failures round.1)

  cancel_stress-Tidy : (n : ℕ) (s : Score) (l : Calls) → Tidy k l (cancel_stress w n s l).1
  unfolding cancel_stress
  cancel_stress-Tidy n s l = cancel_loop-Tidy n 0 l

  concurrent_threads-Tidy :
      (duration : ℕ) (s : Score) (l : Calls) → Tidy k l (concurrent_threads w duration s l).1
  unfolding concurrent_threads
  concurrent_threads-Tidy duration s l = ground arith

  later_phases-Tidy : (o : Options) (s : Score) (l : Calls) → Tidy k l (later_phases w o s l).1
  unfolding later_phases
  later_phases-Tidy o s l =
      let s3 = (if runs_phase o 3 then read_timeout w s else pure s) l in
      let s4 = (if runs_phase o 4 then ioctl_storm w 500 s3.0 else pure s3.0) s3.1 in
      let s5 = (if runs_phase o 5 then cancel_stress w 100 s4.0 else pure s4.0) s4.1 in
      then_Tidy (when_Tidy (runs_phase o 3) (read_timeout w s) s l (read_timeout-Tidy s l)) (
        then_Tidy
          (when_Tidy (runs_phase o 4) (ioctl_storm w 500 s3.0) s3.0 s3.1
            (ioctl_storm-Tidy 500 s3.0 s3.1))
          (then_Tidy
            (when_Tidy (runs_phase o 5) (cancel_stress w 100 s4.0) s4.0 s4.1
              (cancel_stress-Tidy 100 s4.0 s4.1))
            (when_Tidy (runs_phase o 6) (concurrent_threads w o.seconds s5.0) s5.0 s5.1
              (concurrent_threads-Tidy o.seconds s5.0 s5.1))))

  after_flood-Tidy :
      (o : Options) (flooded : Option Score) (l : Calls) → Tidy k l (after_flood w o flooded l).1
  unfolding after_flood
  after_flood-Tidy o none l = same_Tidy l
  after_flood-Tidy o (some s) l = later_phases-Tidy o s l

  after_flood-eq-some :
      (o : Options) (flooded : Option Score) (l : Calls) {s' : Score}
      → (after_flood w o flooded l).0 ≡ some s'
      → (s : Score) × (flooded ≡ some s)
  unfolding after_flood
  after_flood-eq-some o none l h = cc
  after_flood-eq-some o (some s) l h = (s, refl)

  flood_phase-Tidy :
      (b : Bool) (rounds duration : ℕ) (s : Score) (l : Calls) {s' : Score}
      → ((if b then write_flood w rounds duration s else pure (some s)) l).0 ≡ some s'
      → Tidy k l ((if b then write_flood w rounds duration s else pure (some s)) l).1
  flood_phase-Tidy true rounds duration s l {s'} done = write_flood-Tidy rounds duration s s' l done
  flood_phase-Tidy false rounds duration s l done = same_Tidy l

  all_phases-Tidy :
      (rounds : ℕ) (o : Options) (s : Score) (l : Calls) {s' : Score}
      → (all_phases w rounds o s l).0 ≡ some s'
      → Tidy k l (all_phases w rounds o s l).1
  unfolding all_phases
  all_phases-Tidy rounds o s l done =
      let s1 = (if runs_phase o 1 then rapid_open_close w 100 s else pure s) l in
      let s2 =
        (if runs_phase o 2 then write_flood w rounds o.seconds s1.0 else pure (some s1.0)) s1.1 in
      let flooded = after_flood-eq-some o s2.0 s2.1 done in
      then_Tidy
        (then_Tidy
          (when_Tidy (runs_phase o 1) (rapid_open_close w 100 s) s l
            (rapid_open_close-Tidy 100 s l))
          (flood_phase-Tidy (runs_phase o 2) rounds o.seconds s1.0 s1.1 flooded.1))
        (after_flood-Tidy o s2.0 s2.1)

-- A run of the program that ends.
ended-Tidy :
    (w : Windows) (k : Made) (rounds : ℕ) (args : List Switch) (l : Calls) (r : ℕ × Score)
    → (main w rounds args l).0 ≡ some r
    → Tidy k l (main w rounds args l).1
unfolding main
ended-Tidy w k rounds args l r done =
    let o = parse args default_options in
    let zeros : Score = record { passed = 0; failed = 0; total = 0 } in
    let told = all_phases w rounds o zeros l in
    elim (Bool-cases o.has_port) [
      | inl y ↦
          rw y (all_phases-Tidy w k rounds o zeros l (results-eq-some told.0 (rw y at done)).1)
      | inr x ↦ rw x (same_Tidy l)
    ]

-- Where any 2 * n calls take at least as long as the arguments give to a timed phase, the clock does
-- not go back, and from a call to the next but one fewer than 2 ^ 32 milliseconds less that time pass,
-- the program ends, has closed as many handles of ports as it has opened, and has called CloseHandle
-- on events as often as CreateEvent and on threads as often as CreateThread, the calls that fail
-- included.
pub main-Tidy :
    (w : Windows) (k : Made) (n : ℕ) (args : List Switch) (l : Calls)
    → Runs w.clock (limit_of (parse args default_options).seconds)
    → ((m : ℕ) → w.clock m + limit_of (parse args default_options).seconds ≤ w.clock (2 * n + m))
    → (r : ℕ × Score) × ((main w (suc n) args l).0 ≡ some r) × Tidy k l (main w (suc n) args l).1
main-Tidy w k n args l runs passes =
    let told = main_returns w n args l runs passes in
    (told.0, told.1, ended-Tidy w k (suc n) args l told.0 told.1)
