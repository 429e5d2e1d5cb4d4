-- ===== src/Stress/Tally.antt =====
-- The counts and the exit code of the program.
use netmodem2irc.Base.{
  ℕ, ◌+◌, ◌≡◌, refl, Bool, Bool-cases, inl, inr, true, false, Option, Option-cases, some, none,
  List, if◌then◌else◌, arith,
}
use netmodem2irc.Loopback.{Score, note}
use netmodem2irc.Loopback.Tally.{Adds, then_Adds, note-Adds}
use netmodem2irc.Stress.System.{Calls, Windows, Io, pure}
use netmodem2irc.Stress.{
  rapid_open_close, write_flood, read_timeout, ioctl_storm, cancel_stress, concurrent_threads,
  Switch, Options, parse, default_options, runs_phase, later_phases, after_flood, all_phases,
  results, main,
}

-- How many phases the options choose of those from the first number on.
abbrev one : Options → ℕ → ℕ
one o k = if runs_phase o k then 1 else 0

abbrev pub num_phases : Options → ℕ
num_phases o = one o 1 + (one o 2 + (one o 3 + (one o 4 + (one o 5 + one o 6))))

same_Adds : (s : Score) → Adds 0 s s
same_Adds s = record { counted = omega arith; split = omega arith }

when_Adds :
    (b : Bool) (m : Io Score) (s : Score) (l : Calls)
    → Adds 1 s (m l).0
    → Adds (if b then 1 else 0) s ((if b then m else pure s) l).0
when_Adds true m s l run = run
when_Adds false m s l run = same_Adds s

module _ (w : Windows) where
  read_timeout-Adds : (s : Score) (l : Calls) → Adds 1 s (read_timeout w s l).0
  unfolding read_timeout note
  read_timeout-Adds s l = ground arith

  ioctl_storm-Adds : (n : ℕ) (s : Score) (l : Calls) → Adds 1 s (ioctl_storm w n s l).0
  unfolding ioctl_storm note
  ioctl_storm-Adds n s l = ground arith

  concurrent_threads-Adds :
      (duration : ℕ) (s : Score) (l : Calls) → Adds 1 s (concurrent_threads w duration s l).0
  unfolding concurrent_threads note
  concurrent_threads-Adds duration s l = ground arith

  rapid_open_close-Adds : (n : ℕ) (s : Score) (l : Calls) → Adds 1 s (rapid_open_close w n s l).0
  unfolding rapid_open_close
  rapid_open_close-Adds n s l = note-Adds _ s

  cancel_stress-Adds : (n : ℕ) (s : Score) (l : Calls) → Adds 1 s (cancel_stress w n s l).0
  unfolding cancel_stress
  cancel_stress-Adds n s l = note-Adds _ s

  write_flood-Adds :
      (rounds duration : ℕ) (s : Score) (l : Calls) {s' : Score}
      → (write_flood w rounds duration s l).0 ≡ some s'
      → Adds 1 s s'
  unfolding write_flood note
  write_flood-Adds rounds duration s l done = ground (arith, done)

  flood_phase-Adds :
      (b : Bool) (rounds duration : ℕ) (s : Score) (l : Calls) {s' : Score}
      → ((if b then write_flood w rounds duration s else pure (some s)) l).0 ≡ some s'
      → Adds (if b then 1 else 0) s s'
  flood_phase-Adds true rounds duration s l done = write_flood-Adds rounds duration s l done
  flood_phase-Adds false rounds duration s l done = ground (arith, done)

  later_phases-Adds :
      (o : Options) (s : Score) (l : Calls)
      → Adds (one o 3 + (one o 4 + (one o 5 + one o 6))) s (later_phases w o s l).0
  unfolding later_phases
  later_phases-Adds o s l =
      let s3 = (if runs_phase o 3 then read_timeout w s else pure s) l in
      let s4 = (if runs_phase o 4 then ioctl_storm w 500 s3.0 else pure s3.0) s3.1 in
      let s5 = (if runs_phase o 5 then cancel_stress w 100 s4.0 else pure s4.0) s4.1 in
      then_Adds (when_Adds (runs_phase o 3) (read_timeout w s) s l (read_timeout-Adds s l)) (
        then_Adds
          (when_Adds (runs_phase o 4) (ioctl_storm w 500 s3.0) s3.0 s3.1
            (ioctl_storm-Adds 500 s3.0 s3.1))
          (then_Adds
            (when_Adds (runs_phase o 5) (cancel_stress w 100 s4.0) s4.0 s4.1
              (cancel_stress-Adds 100 s4.0 s4.1))
            (when_Adds (runs_phase o 6) (concurrent_threads w o.seconds s5.0) s5.0 s5.1
              (concurrent_threads-Adds o.seconds s5.0 s5.1))))

  after_flood-Adds :
      (o : Options) (flooded : Option Score) (l : Calls) {s' : Score}
      → (after_flood w o flooded l).0 ≡ some s'
      → (s : Score) × (flooded ≡ some s) × Adds (one o 3 + (one o 4 + (one o 5 + one o 6))) s s'
  unfolding after_flood
  after_flood-Adds o none l h = cc
  after_flood-Adds o (some s) l {s'} h = (s, refl, ground (arith, h, later_phases-Adds o s l))

  all_phases-Adds :
      (rounds : ℕ) (o : Options) (s : Score) (l : Calls) {s' : Score}
      → (all_phases w rounds o s l).0 ≡ some s'
      → Adds (num_phases o) s s'
  unfolding all_phases
  all_phases-Adds rounds o s l done =
      let s1 = (if runs_phase o 1 then rapid_open_close w 100 s else pure s) l in
      let s2 =
        (if runs_phase o 2 then write_flood w rounds o.seconds s1.0 else pure (some s1.0)) s1.1 in
      let after = after_flood-Adds o s2.0 s2.1 done in
      then_Adds
        (when_Adds (runs_phase o 1) (rapid_open_close w 100 s) s l (rapid_open_close-Adds 100 s l))
        (then_Adds (flood_phase-Adds (runs_phase o 2) rounds o.seconds s1.0 s1.1 after.1) after.2)

-- A run that ends with the exit code 0 has counted a test for each phase that its arguments choose,
-- all six of them without /P, and each as passed, whatever Windows answers.
pub main_passed :
    (w : Windows) (rounds : ℕ) (args : List Switch) (l : Calls) (s : Score)
    → (main w rounds args l).0 ≡ some (0, s)
    → (s.total ≡ num_phases (parse args default_options)) × (s.passed ≡ s.total)
unfolding main results
main_passed w rounds args l s done =
    let o = parse args default_options in
    let zeros : Score = record { passed = 0; failed = 0; total = 0 } in
    let told = all_phases w rounds o zeros l in
    elim (Bool-cases o.has_port) [
      | inl y ↦ elim (Option-cases told.0) [
        | inl e ↦ ground (arith, done, y, e)
        | inr p ↦ ground (arith, done, y, p.1, all_phases-Adds w rounds o zeros l p.1)
      ]
      | inr x ↦ ground (arith, done, x)
    ]
