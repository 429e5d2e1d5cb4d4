-- ===== src/Detect/Selects.antt =====
-- What the utility writes.
use netmodem2irc.Base.{
  ℕ, zero, suc, ◌+◌, ◌*◌, ◌<◌, ◌≡◌, Bool-cases, inl, inr, Option, ◌∷◌, ◌==◌, ◌||◌, arith,
}
use netmodem2irc.Cd1400
use netmodem2irc.Bus.{Device, Log, Access, rd, wr, read_at}
use netmodem2irc.Detect.{
  base_of, cy_read, cy_select_channel, detect_chip, test_channel, test_channels, scan_rows, main,
}

-- The access reads, or it selects a channel of one of the eight places at the base.
abbrev pub Selects : ℕ → Access → Type 0
Selects base (rd a v) = Unit {0}
Selects base (wr a v) =
    (chip : ℕ) × (chip < 8) × (a ≡ base + chip * Cd1400.reg_size + Cd1400.car) × (v < 4)

-- From the first log to the second, only such accesses were added.
pub data OnlySelects (base : ℕ) (log : Log) : Log → Type 0 where
  same : OnlySelects base log log
  next :
      (a : Access) (log' : Log)
      → Selects base a
      → OnlySelects base log log'
      → OnlySelects base log (a ∷ log')

then_OnlySelects :
    {base : ℕ} {log log' log'' : Log}
    → OnlySelects base log log'
    → OnlySelects base log' log''
    → OnlySelects base log log''
then_OnlySelects o OnlySelects.same = o
then_OnlySelects o (OnlySelects.next a l s p) = OnlySelects.next a l s (then_OnlySelects o p)

module _ (dev : Device) (base : ℕ) where
  cy_read-OnlySelects :
      (chip reg : ℕ) (log : Log) → OnlySelects base log (cy_read dev base chip reg log).1
  unfolding cy_read
  cy_read-OnlySelects chip reg log = OnlySelects.next _ _ tt OnlySelects.same

  detect_chip-OnlySelects :
      (chip : ℕ) (log : Log) → OnlySelects base log (detect_chip dev base chip log).1
  unfolding detect_chip
  detect_chip-OnlySelects chip log = cy_read-OnlySelects chip Cd1400.gfrcr log

  cy_select_channel-OnlySelects :
      (chip chan : ℕ) (log : Log)
      → chip < 8
      → OnlySelects base log (cy_select_channel dev base chip chan log).1
  unfolding cy_select_channel
  cy_select_channel-OnlySelects chip chan log h =
      OnlySelects.next _ _ (chip, h, omega arith, omega arith) OnlySelects.same

  test_channel-OnlySelects :
      (chip chan : ℕ) (log : Log)
      → chip < 8
      → OnlySelects base log (test_channel dev base chip chan log).1
  unfolding test_channel
  test_channel-OnlySelects chip chan log h =
      then_OnlySelects
        (then_OnlySelects (cy_select_channel-OnlySelects chip chan log h)
          (cy_read-OnlySelects chip Cd1400.cor1 _))
        (cy_read-OnlySelects chip Cd1400.ccsr _)

  test_channels-OnlySelects :
      (chip n chan : ℕ) (log : Log)
      → chip < 8
      → OnlySelects base log (test_channels dev base chip n chan log).1
  unfolding test_channels
  test_channels-OnlySelects chip zero chan log h = OnlySelects.same
  test_channels-OnlySelects chip (suc n) chan log h =
      let good = test_channel dev base chip chan log in
      then_OnlySelects (test_channel-OnlySelects chip chan log h)
        (test_channels-OnlySelects chip n (chan + 1) good.1 h)

  scan_rows-OnlySelects :
      (n chip : ℕ) (log : Log)
      → chip + n < 9
      → OnlySelects base log (scan_rows dev base n chip log).1
  unfolding scan_rows
  scan_rows-OnlySelects zero chip log h = OnlySelects.same
  scan_rows-OnlySelects (suc n) chip log h =
      let rev = detect_chip dev base chip log in
      let good = test_channels dev base chip 4 0 rev.1 in
      elim (Bool-cases (rev.0 == 0)) [
        | inl none_here ↦ rw none_here (detect_chip-OnlySelects chip log)
        | inr here ↦ rw here (
            then_OnlySelects
              (then_OnlySelects (detect_chip-OnlySelects chip log)
                (test_channels-OnlySelects chip 4 0 rev.1 (omega arith)))
              (scan_rows-OnlySelects n (chip + 1) good.1 (omega arith)))
      ]

-- A run of the utility, on any card and with any argument, writes nothing but the number of one of
-- the four channels, and only to the CAR register of one of the eight places of the window.
pub main-OnlySelects :
    (dev : Device) (argument : Option ℕ) (log : Log)
    → OnlySelects (base_of argument) log (main dev argument log).1
unfolding main read_at
main-OnlySelects dev argument log =
    let base = base_of argument in
    let epld = read_at dev (base + Cd1400.epld_rev) log in
    let first : OnlySelects base log epld.1 = OnlySelects.next _ _ tt OnlySelects.same in
    elim (Bool-cases ((epld.0 == 0xFF) || (epld.0 == 0))) [
      | inl no_card ↦ rw no_card first
      | inr card ↦
          rw card (then_OnlySelects first (scan_rows-OnlySelects dev base 8 0 epld.1 (omega arith)))
    ]
