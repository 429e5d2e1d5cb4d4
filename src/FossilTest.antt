-- ===== src/FossilTest.antt =====
-- fossil/cyclades/test/cyftst.c: the DOS utility that tests the functions of a FOSSIL driver. The
-- driver behind INT 14h answers each call as a function of all calls so far, so every behaviour of it
-- is some `Fossil`.
pub mod Session
pub mod Rates
use netmodem2irc.Base.{
  ℕ, zero, suc, ◌+◌, ◌*◌, ◌/◌, ◌%◌, ◌^◌, Bool, true, false, not, ◌&&◌, Option, some, none, List, [],
  ◌∷◌, ltb, ◌==◌, if◌then◌else◌,
}
use Prim.Native.Nat.{bit_or}
pub use netmodem2irc.Base.Logged.{pure, ◌>>=◌, ◌>>◌}
use netmodem2irc.Base.Logged.{Logged}

-- The registers of a call that are set before it; AL, BX, CX and ES:DI are `none` where they are not.
pub record Regs : Type 0 where
  pub ah : ℕ
  pub al : Option ℕ
  pub bx : Option ℕ
  pub cx : Option ℕ
  pub dx : ℕ
  pub es_di : Option ℕ

-- Newest first.
abbrev pub Calls : Type 0
Calls = List Regs

-- AX and BX after a call.
pub record Fossil : Type 0 where
  pub ax : Calls → Regs → ℕ
  pub bx : Calls → Regs → ℕ

abbrev pub Io {ℓ} : Type ℓ → Type ℓ
Io A = Logged Calls A

-- `g_passed`, `g_failed`
pub record Counts : Type 0 where
  pub passed : ℕ
  pub failed : ℕ

-- `test`
unfoldable pub test : Bool → Counts → Counts
test good s =
    if good then record s { passed = s.passed + 1 } else record s { failed = s.failed + 1 }

-- The registers of a function that sets AH and DX only, of one that sets AL too, and of
-- `fossil_set_baud`.
unfoldable pub plain : ℕ → ℕ → Regs
plain ah port = record {
  ah = ah;
  al = none;
  bx = none;
  cx = none;
  dx = port % 2 ^ 16;
  es_di = none;
}

unfoldable pub with_al : ℕ → ℕ → ℕ → Regs
unfolding plain
with_al ah port al = record (plain ah port) { al = some (al % 256) }

unfoldable pub baud_regs : ℕ → ℕ → Regs
unfolding with_al
baud_regs port baud_code = with_al 0x00 port (bit_or baud_code 0x03)

module _ (fossil : Fossil) where
  -- int86(0x14, …), by AX, and by AX and BX
  unfoldable pub int14 : Regs → Io ℕ
  int14 regs l = (fossil.ax l regs % 2 ^ 16, regs ∷ l)

  unfoldable pub int14_bx : Regs → Io (ℕ × ℕ)
  int14_bx regs l = ((fossil.ax l regs % 2 ^ 16, fossil.bx l regs % 2 ^ 16), regs ∷ l)

  -- `fossil_set_baud`, `fossil_tx`, `fossil_rx`, `fossil_status`
  unfoldable pub fossil_set_baud : ℕ → ℕ → Io ℕ
  unfolding int14 baud_regs
  fossil_set_baud port baud_code = int14 (baud_regs port baud_code)

  unfoldable pub fossil_tx : ℕ → ℕ → Io ℕ
  unfolding int14 with_al
  fossil_tx port ch = int14 (with_al 0x01 port ch)

  unfoldable pub fossil_rx : ℕ → Io ℕ
  unfolding int14 plain
  fossil_rx port = int14 (plain 0x02 port)

  unfoldable pub fossil_status : ℕ → Io ℕ
  unfolding int14 plain
  fossil_status port = int14 (plain 0x03 port)

  -- `fossil_init`, by AX and the maximal rate
  unfoldable pub fossil_init : ℕ → Io (ℕ × ℕ)
  unfolding int14_bx plain
  fossil_init port = int14_bx (record (plain 0x04 port) { bx = some 0 })

  -- `fossil_deinit`, `fossil_dtr`, `fossil_purge_tx`, `fossil_purge_rx`
  unfoldable pub fossil_deinit : ℕ → Io ℕ
  unfolding int14 plain
  fossil_deinit port = int14 (plain 0x05 port)

  unfoldable pub fossil_dtr : ℕ → Bool → Io ℕ
  unfolding int14 with_al
  fossil_dtr port raise = int14 (with_al 0x06 port (if raise then 1 else 0))

  unfoldable pub fossil_purge_tx : ℕ → Io ℕ
  unfolding int14 plain
  fossil_purge_tx port = int14 (plain 0x09 port)

  unfoldable pub fossil_purge_rx : ℕ → Io ℕ
  unfolding int14 plain
  fossil_purge_rx port = int14 (plain 0x0A port)

  -- `fossil_info`, which `main` does not call.
  unfoldable pub fossil_info : ℕ → ℕ → ℕ → Io ℕ
  unfolding int14 plain
  fossil_info port buf buf_size =
      int14 (record (plain 0x1B port) { cx = some (buf_size % 2 ^ 16); es_di = some buf })

  -- What `main` tests of the byte 0xA5 that it sends: that it comes back, if it could be sent.
  unfoldable pub receive_byte : ℕ → Counts → Io Counts
  unfolding fossil_status fossil_rx test
  receive_byte port s = do
    status ← fossil_status port
    let reads : Io Counts = do got ← fossil_rx port; pure (test (got % 256 == 0xA5) s)
    (if status / 0x0100 % 2 == 1 then reads else pure (test false s))

  unfoldable pub send_byte : ℕ → Counts → Io Counts
  unfolding fossil_tx test receive_byte
  send_byte port s = do
    result ← fossil_tx port 0xA5
    (if result / 0x8000 % 2 == 1 then pure (test false s) else receive_byte port (test true s))

  -- The tests 2 to 5 of `main`, and the purges before test 6.
  unfoldable pub exercise : ℕ → Counts → Io Counts
  unfolding fossil_status fossil_set_baud fossil_dtr fossil_purge_tx fossil_purge_rx test
  exercise port s0 = do
    fossil_status port
    let s1 = test true s0
    fossil_set_baud port 7
    let s2 = test true s1
    fossil_set_baud port 8
    let s3 = test true s2
    fossil_set_baud port 7
    fossil_dtr port true
    let s4 = test true s3
    fossil_dtr port false
    let s5 = test true s4
    fossil_dtr port true
    fossil_purge_tx port
    let s6 = test true s5
    fossil_purge_rx port
    let s7 = test true s6
    fossil_purge_rx port
    fossil_purge_tx port
    pure s7

  -- The tests 2 to 7, where the driver is there.
  unfoldable pub tests : ℕ → Counts → Io Counts
  unfolding exercise send_byte fossil_deinit fossil_init test
  tests port s = do
    exercised ← exercise port s
    sent ← send_byte port exercised
    fossil_deinit port
    let last = test true sent
    fossil_init port
    fossil_deinit port
    pure last

  -- `main` with the number of the port, by its exit code and the counts
  unfoldable pub main : ℕ → Io (ℕ × Counts)
  unfolding fossil_init tests test
  main port = do
    result ← fossil_init port
    let s = test (result.0 == 0x1954) (record { passed = 0; failed = 0 })
    let goes_on : Io (ℕ × Counts) = do
      s' ← tests port (test (ltb 0 result.1) s)
      pure (if ltb 0 s'.failed then 1 else 0, s')
    (if result.0 == 0x1954 then goes_on else pure (1, s))
