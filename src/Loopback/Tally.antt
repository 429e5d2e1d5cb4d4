-- ===== src/Loopback/Tally.antt =====
-- The program's exit code and its counts.
use netmodem2irc.Base.{
  ℕ, ◌+◌, ◌≡◌, refl, Bool, true, false, List, [], ◌∷◌, length, if◌then◌else◌, arith,
}
use netmodem2irc.Loopback.System.{Call, Calls, Line, Io}
use netmodem2irc.Loopback.{
  Score, note, test_single_byte, test_counting_pattern, test_block_transfer, test_signal,
  test_modem_signals, test_ioctls, sweep, try_rate, test_baud_sweep, open_port, run_tests, run,
}

-- From one score to the other, `n` tests were counted, each as passed or as failed.
pub record Adds (n : ℕ) (s s' : Score) : Type 0 where
  pub counted : s'.total ≡ s.total + n
  pub split : s'.passed + s'.failed ≡ s.passed + s.failed + n

pub then_Adds : {m n : ℕ} {s t u : Score} → Adds m s t → Adds n t u → Adds (m + n) s u
then_Adds a b = record {
  counted = omega (arith, a.counted, b.counted);
  split = omega (arith, a.split, b.split);
}

pub note-Adds : (good : Bool) (s : Score) → Adds 1 s (note good s)
unfolding note
note-Adds true s = record { counted = refl; split = omega arith }
note-Adds false s = record { counted = refl; split = omega arith }

module _ (line : Line) where
  test_signal-Adds :
      (set : Call) (get : Io Bool) (want : Bool) (s : Score) (l : Calls)
      → Adds 1 s (test_signal line set get want s l).0
  unfolding test_signal
  test_signal-Adds set get want s l = note-Adds _ s

  test_modem_signals-Adds : (s : Score) (l : Calls) → Adds 4 s (test_modem_signals line s l).0
  unfolding test_modem_signals
  test_modem_signals-Adds s l =
      then_Adds
        (then_Adds (then_Adds (test_signal-Adds _ _ _ s l) (test_signal-Adds _ _ _ _ _))
          (test_signal-Adds _ _ _ _ _))
        (test_signal-Adds _ _ _ _ _)

  test_ioctls-Adds : (s : Score) (l : Calls) → Adds 4 s (test_ioctls line s l).0
  unfolding test_ioctls
  test_ioctls-Adds s l =
      then_Adds (then_Adds (then_Adds (note-Adds _ s) (note-Adds _ _)) (note-Adds _ _))
        (note-Adds _ _)

  sweep-Adds :
      (rates : List ℕ) (s : Score) (l : Calls) → Adds (length rates) s (sweep line rates s l).0
  unfolding sweep
  sweep-Adds [] s l = record { counted = omega arith; split = omega arith }
  sweep-Adds (rate ∷ rates) s l =
      let good = try_rate line rate l in
      let both = then_Adds (note-Adds good.0 s) (sweep-Adds rates (note good.0 s) good.1) in
      record { counted = omega (arith, both.counted); split = omega (arith, both.split) }

  test_baud_sweep-Adds : (s : Score) (l : Calls) → Adds 9 s (test_baud_sweep line s l).0
  unfolding test_baud_sweep
  test_baud_sweep-Adds s l = sweep-Adds _ s l

  three_data_tests :
      (s : Score) (l : Calls)
      → let a = test_single_byte line s l in
        let b = test_counting_pattern line a.0 a.1 in Adds 3 s (test_block_transfer line b.0 b.1).0
  unfolding test_single_byte test_counting_pattern test_block_transfer
  three_data_tests s l = then_Adds (then_Adds (note-Adds _ s) (note-Adds _ _)) (note-Adds _ _)

  run_tests-Adds :
      (sweep_all : Bool) (s : Score) (l : Calls)
      → Adds (if sweep_all then 20 else 11) s (run_tests line sweep_all s l).0
  unfolding run_tests
  run_tests-Adds false s l =
      then_Adds (then_Adds (three_data_tests s l) (test_modem_signals-Adds _ _))
        (test_ioctls-Adds _ _)
  run_tests-Adds true s l =
      then_Adds
        (then_Adds (then_Adds (three_data_tests s l) (test_modem_signals-Adds _ _))
          (test_ioctls-Adds _ _))
        (test_baud_sweep-Adds _ _)

  -- A run that ends with the exit code 0 has counted 11 tests, or 20 with the sweep over the rates,
  -- and each of them as passed, whatever the driver and the cable answer.
  pub run_passed :
      (baud : ℕ) (sweep_all : Bool) (l : Calls)
      → (run line baud sweep_all l).0.0 ≡ 0
      → ((run line baud sweep_all l).0.1.total ≡ (if sweep_all then 20 else 11))
        × ((run line baud sweep_all l).0.1.passed ≡ (run line baud sweep_all l).0.1.total)
  unfolding run
  run_passed baud sweep_all l zero_code =
      let opened = open_port line baud l in
      ground (
        arith,
        zero_code,
        run_tests-Adds sweep_all (record { passed = 0; failed = 0; total = 0 }) opened.1,
      )
