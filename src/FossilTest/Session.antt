-- ===== src/FossilTest/Session.antt =====
-- The counts and the exit code of the utility, and that it leaves the driver closed.
use netmodem2irc.Base.{
  ℕ, ◌+◌, ◌%◌, ◌^◌, ◌<◌, ◌⊎◌, ◌≡◌, Bool, true, false, refl, [], ◌∷◌, none, some, ◌==◌, ltb,
  if◌then◌else◌, arith,
}
use netmodem2irc.FossilTest.{
  Regs, Calls, Fossil, Counts, test, fossil_tx, fossil_init, receive_byte, send_byte, exercise,
  tests, main,
}

-- How many of the calls are of a function, and how many of other ports than the given one.
abbrev pub num_calls : ℕ → Calls → ℕ
num_calls ah [] = 0
num_calls ah (regs ∷ l) = (if regs.ah == ah then 1 else 0) + num_calls ah l

abbrev pub num_others : ℕ → Calls → ℕ
num_others port [] = 0
num_others port (regs ∷ l) = (if regs.dx == port % 2 ^ 16 then 0 else 1) + num_others port l

-- The initialisation with which `main` looks for the driver.
abbrev pub detects : ℕ → Regs
detects port = record {
  ah = 0x04;
  al = none;
  bx = some 0;
  cx = none;
  dx = port % 2 ^ 16;
  es_di = none;
}

-- From one log to the other, `inits` initialisations and `deinits` deinitialisations were made, and
-- no call to another port.
pub record Makes (port inits deinits : ℕ) (l l' : Calls) : Type 0 where
  pub initialised : num_calls 0x04 l' ≡ num_calls 0x04 l + inits
  pub deinitialised : num_calls 0x05 l' ≡ num_calls 0x05 l + deinits
  pub on_port : num_others port l' ≡ num_others port l

-- Whether the driver is initialised after the calls, by the last initialisation or deinitialisation.
abbrev pub is_initialised : Calls → Bool
is_initialised [] = false
is_initialised (regs ∷ l) =
    let earlier : Bool = is_initialised l in
    if regs.ah == 0x04 then true else if regs.ah == 0x05 then false else earlier

-- Either `n` tests more are counted, each as passed, or one at least failed.
abbrev Passes : ℕ → Counts → Counts → Type 0
Passes n s s' = ((s'.passed ≡ s.passed + n) × (s'.failed ≡ s.failed)) ⊎ (s.failed < s'.failed)

module _ (fossil : Fossil) where
  receive_byte-Passes :
      (port : ℕ) (s : Counts) (l : Calls)
      → Passes 1 s (receive_byte fossil port s l).0
        × Makes port 0 0 l (receive_byte fossil port s l).1
  unfolding receive_byte
  receive_byte-Passes port s l = ground arith

  send_byte-Passes :
      (port : ℕ) (s : Counts) (l : Calls)
      → Passes 2 s (send_byte fossil port s l).0 × Makes port 0 0 l (send_byte fossil port s l).1
  unfolding send_byte
  send_byte-Passes port s l =
      let sent = fossil_tx fossil port 0xA5 l in
      ground (arith, receive_byte-Passes port (test true s) sent.1)

  exercise-Passes :
      (port : ℕ) (s : Counts) (l : Calls)
      → Passes 7 s (exercise fossil port s l).0 × Makes port 0 0 l (exercise fossil port s l).1
  unfolding exercise
  exercise-Passes port s l = ground arith

  tests-Passes :
      (port : ℕ) (s : Counts) (l : Calls)
      → Passes 10 s (tests fossil port s l).0 × Makes port 1 2 l (tests fossil port s l).1
  unfolding tests
  tests-Passes port s l =
      let exercised = exercise fossil port s l in
      ground (arith, exercise-Passes port s l, send_byte-Passes port exercised.0 exercised.1)

tests-deinitialised :
    (fossil : Fossil) (port : ℕ) (s : Counts) (l : Calls)
    → is_initialised (tests fossil port s l).1 ≡ false
unfolding tests
tests-deinitialised fossil port s l = refl

-- Where the driver answers the first initialisation, the utility makes as many deinitialisations as
-- initialisations, two of each, and no call to another port than the given one; and it leaves the
-- driver deinitialised.
pub main-Makes :
    (fossil : Fossil) (port : ℕ) (l : Calls)
    → fossil.ax l (detects port) % 2 ^ 16 ≡ 0x1954
    → Makes port 2 2 l (main fossil port l).1 × (is_initialised (main fossil port l).1 ≡ false)
unfolding main
main-Makes fossil port l there =
    let result = fossil_init fossil port l in
    let counts =
      test (ltb 0 result.0.1) (test (result.0.0 == 0x1954) (record { passed = 0; failed = 0 })) in
    ground (
      arith,
      there,
      tests-Passes fossil port counts result.1,
      tests-deinitialised fossil port counts result.1,
    )

-- A run with the exit code 0 has counted 12 tests, and each of them as passed; the driver has answered
-- the first initialisation with 0x1954 in AX and a rate in BX that is not 0.
pub main_passed :
    (fossil : Fossil) (port : ℕ) (l : Calls)
    → (main fossil port l).0.0 ≡ 0
    → ((main fossil port l).0.1.passed ≡ 12)
      × ((main fossil port l).0.1.failed ≡ 0)
      × (fossil.ax l (detects port) % 2 ^ 16 ≡ 0x1954)
      × (0 < fossil.bx l (detects port) % 2 ^ 16)
unfolding main
main_passed fossil port l zero_code =
    let result = fossil_init fossil port l in
    ground (
      arith,
      zero_code,
      tests-Passes fossil port
          (test (ltb 0 result.0.1)
            (test (result.0.0 == 0x1954) (record { passed = 0; failed = 0 })))
          result.1,
    )
