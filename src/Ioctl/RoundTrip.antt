-- ===== src/Ioctl/RoundTrip.antt =====
-- What GET returns can be handed back to SET.
use netmodem2irc.Base.{
  ℕ, ◌+◌, ◌*◌, ◌/◌, ◌%◌, ◌^◌, ◌≤◌, ◌<◌, ◌≡◌, refl, List, [], ◌++◌, arith, drop, length,
}
use netmodem2irc.Port.{Port, Irp, Status, Timeouts}
use netmodem2irc.Ioctl.{set_timeouts, get_timeouts}
use netmodem2irc.Ioctl.Bytes.{ulong_at, ulong_bytes, timeouts_of, timeouts_bytes}
use netmodem2irc.Ioctl.Switch.{Handled}

-- The fields are ULONGs.
abbrev pub IsTimeouts : Timeouts → Type 0
IsTimeouts t =
    (t.read_interval < 2 ^ 32)
    × (t.read_multiplier < 2 ^ 32)
    × (t.read_constant < 2 ^ 32)
    × (t.write_multiplier < 2 ^ 32)
    × (t.write_constant < 2 ^ 32)

four :
    (v : ℕ)
    → v < 2 ^ 32
    → v % 256 + 256 * (v / 256 % 256) + 65536 * (v / 65536 % 256) + 16777216 * (v / 16777216 % 256)
      ≡ v
four v h = omega arith

timeouts_of-timeouts_bytes :
    (t : Timeouts) (rest : List ℕ) → IsTimeouts t → timeouts_of (timeouts_bytes t ++ rest) ≡ t
unfolding timeouts_of timeouts_bytes ulong_at ulong_bytes
timeouts_of-timeouts_bytes t rest h =
    rw
      (
        four t.read_interval h.0,
        four t.read_multiplier h.1,
        four t.read_constant h.2,
        four t.write_multiplier h.3,
        four t.write_constant h.4,
      )
      refl

-- The system buffer that an answered request returns.
abbrev pub reply : Handled → List ℕ
reply (Handled.answered s info irp p others) = irp.buffer
reply (Handled.pended p) = []

-- The buffer that GET_TIMEOUTS returns for one port, handed to SET_TIMEOUTS of another, gives that
-- port the timeouts of the first and changes nothing else of it. The timeouts are ULONGs and both
-- lengths are at least that of SERIAL_TIMEOUTS.
pub set_timeouts-get_timeouts :
    (m n : ℕ) (irp other : Irp) (p q : Port)
    → IsTimeouts p.timeouts
    → 20 ≤ m
    → 20 ≤ n
    → let back : Irp = record other { buffer = reply (get_timeouts m irp p) } in
      set_timeouts n back q
      ≡ Handled.answered Status.success 0 back (record q { timeouts = p.timeouts }) []
unfolding set_timeouts get_timeouts
set_timeouts-get_timeouts m n irp other p q h hm hn = ground (
  arith,
  timeouts_of-timeouts_bytes p.timeouts (drop (length (timeouts_bytes p.timeouts)) irp.buffer) h,
)
