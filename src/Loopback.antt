-- ===== src/Loopback.antt =====
-- fossil/cyclades/test/cyloopback.c: the tests of a port with a loopback cable.
pub mod System
pub mod Tally
mod Reads
use netmodem2irc.Base.{
  ℕ, zero, suc, ◌+◌, ◌-◌, ◌*◌, ◌/◌, ◌%◌, Bool, true, false, not, ◌&&◌, Option, some, none, List, [],
  ◌∷◌, ◌++◌, length, ltb, leb, ◌==◌, if◌then◌else◌,
}
use Prim.Native.Nat.{bit_xor}
use netmodem2irc.Loopback.System.{
  Call, Line, Io, pure, ◌>>=◌, ◌>>◌, call, write_file, read_file, get_settings, get_dsr, get_cts,
}

-- `g_passed`, `g_failed`, `g_total`
pub record Score : Type 0 where
  pub passed : ℕ
  pub failed : ℕ
  pub total : ℕ

-- TEST_START, and TEST_PASS or TEST_FAIL
unfoldable pub note : Bool → Score → Score
note good s =
    if good
    then record s { total = s.total + 1; passed = s.passed + 1 }
    else record s { total = s.total + 1; failed = s.failed + 1 }

-- The comparison of the buffers.
unfoldable pub same_bytes : List ℕ → List ℕ → Bool
same_bytes [] [] = true
same_bytes (x ∷ xs) (y ∷ ys) = let rest = same_bytes xs ys in if x == y then rest else false
same_bytes _ _ = false

-- `txBuf` of `TestCountingPattern` and of `TestBlockTransfer`, from index `i` on.
unfoldable pub counting : ℕ → ℕ → List ℕ
counting i zero = []
counting i (suc n) = i % 256 ∷ counting (i + 1) n

unfoldable pub scrambled : ℕ → ℕ → List ℕ
scrambled i zero = []
scrambled i (suc n) = bit_xor (i * 7 + 0x5A) (i / 8) % 256 ∷ scrambled (i + 1) n

module _ (line : Line) where
  -- The loop that fills `rxBuf`, `left` bytes of which are missing: a read that gives nothing ends
  -- it. Each round that goes on reads a byte at least, so the first number bounds the rounds.
  unfoldable pub read_all : ℕ → ℕ → Io (Option (List ℕ))
  read_all zero left = pure (some [])
  read_all (suc n) left = do
    got ← read_file line left
    elim got [
      | none ↦ pure none
      | some [] ↦ pure none
      | some (x ∷ xs) ↦ if leb left (length xs + 1) then pure (some (x ∷ xs)) else (do
        rest ← read_all n (left - (length xs + 1))
        pure (elim rest [ none ↦ none | some ys ↦ some (x ∷ xs ++ ys) ]))
    ]

  -- One byte goes out and must come back.
  unfoldable pub echoes : ℕ → Io Bool
  echoes byte = do
    sent ← write_file line (byte ∷ [])
    let receives : Io Bool = do
      got ← read_file line 1
      pure (elim got [ none ↦ false | some bytes ↦ same_bytes bytes (byte ∷ []) ])
    elim sent [ none ↦ pure false | some n ↦ if n == 1 then receives else pure false ]

  -- A buffer goes out in one write and must come back in any number of reads.
  unfoldable pub transfers : List ℕ → Io Bool
  transfers tx = do
    sent ← write_file line tx
    let receives : Io Bool = do
      got ← read_all (length tx) (length tx)
      pure (elim got [ none ↦ false | some rx ↦ same_bytes rx tx ])
    elim sent [ none ↦ pure false | some n ↦ if n == length tx then receives else pure false ]

  -- `TestSingleByte`, `TestCountingPattern`, `TestBlockTransfer`
  unfoldable pub test_single_byte : Score → Io Score
  test_single_byte s = do good ← echoes 0xA5; pure (note good s)

  unfoldable pub test_counting_pattern : Score → Io Score
  test_counting_pattern s = do good ← transfers (counting 0 256); pure (note good s)

  unfoldable pub test_block_transfer : Score → Io Score
  test_block_transfer s = do good ← transfers (scrambled 0 1024); pure (note good s)

  -- A line is set and another must follow; `want` is the level.
  unfoldable pub test_signal : Call → Io Bool → Bool → Score → Io Score
  test_signal set get want s = do
    call line set
    call line Call.sleep
    level ← get
    pure (note (if want then level else not level) s)

  -- `TestModemSignals`
  unfoldable pub test_modem_signals : Score → Io Score
  test_modem_signals s = do
    s1 ← test_signal Call.set_dtr (get_dsr line) true s
    s2 ← test_signal Call.clear_dtr (get_dsr line) false s1
    s3 ← test_signal Call.set_rts (get_cts line) true s2
    s4 ← test_signal Call.clear_rts (get_cts line) false s3
    call line Call.set_dtr
    call line Call.set_rts
    pure s4

  -- `TestIoctls`
  unfoldable pub test_ioctls : Score → Io Score
  test_ioctls s = do
    props ← call line Call.get_properties
    get_settings line
    call line Call.set_7e1
    back ← get_settings line
    call line Call.set_8n1
    purged ← call line Call.purge_all
    cleared ← call line Call.clear_error
    pure (note cleared (note purged (note ((back.0 == 7) && back.1) (note props s))))

  -- One rate is set, and a byte must come back.
  unfoldable pub try_rate : ℕ → Io Bool
  try_rate rate = do
    get_settings line
    set ← call line (Call.set_rate rate)
    let tries : Io Bool = do call line Call.purge; call line Call.sleep; echoes (rate % 256)
    (if set then tries else pure false)

  -- `TestBaudSweep`, over the rates.
  unfoldable pub sweep : List ℕ → Score → Io Score
  sweep [] s = pure s
  sweep (rate ∷ rates) s = do good ← try_rate rate; sweep rates (note good s)

  unfoldable pub test_baud_sweep : Score → Io Score
  test_baud_sweep s =
      sweep (300 ∷ 1200 ∷ 2400 ∷ 4800 ∷ 9600 ∷ 19200 ∷ 38400 ∷ 57600 ∷ 115200 ∷ []) s

  -- `OpenPort`
  unfoldable pub open_port : ℕ → Io Bool
  open_port baud = do
    opened ← call line Call.open_port
    let configures : Io Bool = do
      get_settings line
      set ← call line (Call.set_rate baud)
      (if set
          then (do call line Call.set_timeouts; call line Call.purge; pure true)
          else (call line Call.close_port >> pure false))
    (if opened then configures else pure false)

  -- The tests of `main`, in order.
  unfoldable pub run_tests : Bool → Score → Io Score
  run_tests sweep_all s = do
    s1 ← test_single_byte s
    s2 ← test_counting_pattern s1
    s3 ← test_block_transfer s2
    s4 ← test_modem_signals s3
    s5 ← test_ioctls s4
    s6 ← (if sweep_all then test_baud_sweep s5 else pure s5)
    call line Call.close_port
    pure s6

  -- `main` with a port's name, by its exit code and the score
  unfoldable pub run : ℕ → Bool → Io (ℕ × Score)
  run baud sweep_all = do
    opened ← open_port baud
    let tests : Io (ℕ × Score) = do
      s ← run_tests sweep_all (record { passed = 0; failed = 0; total = 0 })
      pure (if ltb 0 s.failed then 1 else 0, s)
    (if opened then tests else pure (1, record { passed = 0; failed = 0; total = 0 }))
