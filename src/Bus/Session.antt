-- ===== src/Bus/Session.antt =====
-- What the CD1400 asks of the host: per-channel registers answer for the channel that CAR selects,
-- so a routine selects its channel before it touches one, and leaves CAR alone afterwards.
use netmodem2irc.Base.{ℕ, ◌%◌, ◌<◌, ◌≡◌, ◌≢◌, ◌⊎◌, ◌∷◌}
use netmodem2irc.Cd1400
use netmodem2irc.Port.{Port}
use netmodem2irc.Bus.{Device, rd, wr, Log, address}

-- A register of the chip that is not CAR: the offsets of a CD1400 are below 0x100, and the chips of a
-- card lie 0x400 apart.
abbrev pub IsOther : ℕ → Type 0
IsOther reg = (reg ≢ Cd1400.car) × (reg < 0x0100)

-- From the first log to the second, CAR gets the channel first, and every later access is to
-- another register of the chip or selects the same channel again.
pub data Session (dev : Device) (base chan : ℕ) (before : Log) : Log → Type 0 where
  selected :
      (v : ℕ)
      → v ≡ chan % 4
      → Session dev base chan before (wr (address dev base Cd1400.car) v ∷ before)
  again :
      {log : Log} (v : ℕ)
      → v ≡ chan % 4
      → Session dev base chan before log
      → Session dev base chan before (wr (address dev base Cd1400.car) v ∷ log)
  reads :
      {log : Log} (reg v : ℕ)
      → IsOther reg
      → Session dev base chan before log
      → Session dev base chan before (rd (address dev base reg) v ∷ log)
  writes :
      {log : Log} (reg v : ℕ)
      → IsOther reg
      → Session dev base chan before log
      → Session dev base chan before (wr (address dev base reg) v ∷ log)

-- No access at all, or a session on the port's channel.
abbrev pub Proper : Device → Port → Log → Log → Type 0
Proper dev p log log' = (log' ≡ log) ⊎ Session dev p.chip_base p.channel log log'
