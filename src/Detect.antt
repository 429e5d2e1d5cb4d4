-- ===== src/Detect.antt =====
-- fossil/cyclades/test/cytest.c: the utility that looks for the chips of an ISA card from DOS. The
-- card answers as the `Device` of the driver does, the registers lying one byte apart.
pub mod Agrees
pub mod Selects
use netmodem2irc.Base.{
  ℕ, zero, suc, ◌+◌, ◌-◌, ◌*◌, ◌/◌, ◌%◌, ◌^◌, Bool, true, false, not, ◌&&◌, ◌||◌, Option, some,
  none, List, [], ◌∷◌, length, ltb, leb, ◌==◌, if◌then◌else◌,
}
use netmodem2irc.Cd1400
use netmodem2irc.Bus.{Device, Bus, pure, ◌>>=◌, ◌>>◌, rd, wr, read_at}

-- The linear address of `g_base`: the segment is an unsigned short.
unfoldable pub window_at : ℕ → ℕ
window_at mem_base = mem_base / 16 % 2 ^ 16 * 16

-- `g_base`, with the memory base of the argument or the default one.
unfoldable pub base_of : Option ℕ → ℕ
unfolding window_at
base_of none = window_at Cd1400.default_membase
base_of (some m) = window_at m

-- The test of `detect_chip` on the revision.
unfoldable pub is_variant : ℕ → Bool
is_variant rev = (rev == Cd1400.rev_g) || (rev == Cd1400.rev_j) || (leb 0x40 rev && leb rev 0x4F)

-- The text of `clock_str`.
pub data Clock : Type 0 where
  mhz_60 mhz_25 unknown : Clock

unfoldable pub clock_str : ℕ → Clock
clock_str rev =
    if rev == Cd1400.rev_j
    then Clock.mhz_60
    else (if rev == Cd1400.rev_g then Clock.mhz_25 else Clock.unknown)

-- What is printed for a chip: its revision, and the channels that answer.
pub record Row : Type 0 where
  pub revision : ℕ
  pub letter_j : Bool
  pub clock : Clock
  pub good_chans : ℕ

-- What is printed: the EPLD's revision, the row of each chip, and the totals; and the exit code.
pub record Report : Type 0 where
  pub epld : ℕ
  pub rows : List Row
  pub total_chips : ℕ
  pub total_ports : ℕ
  pub exit_code : ℕ

module _ (dev : Device) (base : ℕ) where
  -- `cy_read`, `cy_write`, `cy_select_channel`
  unfoldable pub cy_read : ℕ → ℕ → Bus ℕ
  unfolding read_at
  cy_read chip reg = read_at dev (base + chip * Cd1400.reg_size + reg)

  unfoldable pub cy_write : ℕ → ℕ → ℕ → Bus (Unit {0})
  cy_write chip reg val l = (tt, wr (base + chip * Cd1400.reg_size + reg) (val % 256) ∷ l)

  unfoldable pub cy_select_channel : ℕ → ℕ → Bus (Unit {0})
  unfolding cy_write
  cy_select_channel chip chan = cy_write chip Cd1400.car (chan % 4)

  -- `detect_chip`: the revision, or 0
  unfoldable pub detect_chip : ℕ → Bus ℕ
  unfolding cy_read is_variant
  detect_chip chip = do rev ← cy_read chip Cd1400.gfrcr; pure (if is_variant rev then rev else 0)

  -- `test_channel`
  unfoldable pub test_channel : ℕ → ℕ → Bus Bool
  unfolding cy_read cy_select_channel
  test_channel chip chan = do
    cy_select_channel chip chan
    cor1 ← cy_read chip Cd1400.cor1
    ccsr ← cy_read chip Cd1400.ccsr
    pure (not ((cor1 == 0xFF) && (ccsr == 0xFF)))

  -- The wait of `reset_chip`, with the rounds that are left.
  unfoldable pub wait_reset : ℕ → ℕ → Bus (Unit {0})
  unfolding cy_read
  wait_reset chip zero = pure tt
  wait_reset chip (suc n) = do
    busy ← cy_read chip Cd1400.ccr
    let rest : Bus (Unit {0}) = wait_reset chip n
    (if busy == 0 then pure tt else rest)

  -- `reset_chip`, which `main` does not call.
  unfoldable pub reset_chip : ℕ → Bus (Unit {0})
  unfolding cy_select_channel cy_write wait_reset
  reset_chip chip = do
    cy_select_channel chip 0
    cy_write chip Cd1400.ccr Cd1400.chip_reset
    wait_reset chip 1000

  -- How many channels of a chip answer, from `chan` on: the channels left.
  unfoldable pub test_channels : ℕ → ℕ → ℕ → Bus ℕ
  unfolding test_channel
  test_channels chip zero chan = pure 0
  test_channels chip (suc n) chan = do
    good ← test_channel chip chan
    others ← test_channels chip n (chan + 1)
    pure ((if good then 1 else 0) + others)

  -- The loop over the chips, from `chip` on: the places left.
  unfoldable pub scan_rows : ℕ → ℕ → Bus (List Row)
  unfolding detect_chip test_channels clock_str
  scan_rows zero chip = pure []
  scan_rows (suc n) chip = do
    rev ← detect_chip chip
    let found : Bus (List Row) = do
      good ← test_channels chip Cd1400.ports_per_chip 0
      others ← scan_rows n (chip + 1)
      pure (
          record {
            revision = rev;
            letter_j = rev == Cd1400.rev_j;
            clock = clock_str rev;
            good_chans = good;
          }
          ∷ others)
    (if rev == 0 then pure [] else found)

-- `totalPorts`
unfoldable pub sum_ports : List Row → ℕ
sum_ports [] = 0
sum_ports (r ∷ rows) = r.good_chans + sum_ports rows

-- `main`, with its argument; no report where there is no card, and the exit code 1 then.
unfoldable pub main : Device → Option ℕ → Bus (Option Report)
unfolding base_of read_at scan_rows sum_ports
main dev argument = do
  let base = base_of argument
  epld ← read_at dev (base + Cd1400.epld_rev)
  let scans : Bus (Option Report) = do
    rows ← scan_rows dev base Cd1400.max_chips 0
    pure (
        some (record {
          epld = epld;
          rows = rows;
          total_chips = length rows;
          total_ports = sum_ports rows;
          exit_code = if length rows == 0 then 1 else 0;
        }))
  (if (epld == 0xFF) || (epld == 0) then pure none else scans)
