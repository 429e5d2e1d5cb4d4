-- ===== src/Stress/Flood.antt =====
-- The second phase ends, and so does the program.
use netmodem2irc.Base.{
  ℕ, zero, suc, ◌+◌, ◌-◌, ◌*◌, ◌%◌, ◌^◌, ◌≤◌, ◌<◌, ◌≡◌, refl, Bool, Bool-cases, inl, inr, true,
  false, Option, some, none, List, length, ◌==◌, ltb, if◌then◌else◌, arith,
}
use netmodem2irc.Loopback.{Score, note, counting}
use netmodem2irc.Stress.System.{Call, Calls, Windows, pure, ask, get_tick}
use netmodem2irc.Stress.{
  elapsed, rapid_open_close, flood, write_flood, Switch, Options, parse, default_options,
  runs_phase, later_phases, after_flood, all_phases, results, main,
}

-- The clock does not go back, and from a call to the next but one fewer than 2 ^ 32 milliseconds less
-- the duration pass.
pub record Runs (clock : ℕ → ℕ) (limit : ℕ) : Type 0 where
  pub onward : (n : ℕ) → clock n ≤ clock (suc n)
  pub soon : (n : ℕ) → clock (suc (suc n)) + limit < clock n + 2 ^ 32

elapsed-sub :
    (now start : ℕ)
    → start ≤ now
    → now < start + 2 ^ 32
    → elapsed (now % 2 ^ 32) (start % 2 ^ 32) ≡ now - start
unfolding elapsed
elapsed-sub now start h k = omega arith

-- The loop at the call number `length l`, the start of the phase lying less than 2 ^ 32 ms back.
flood_returns :
    (w : Windows) (n start limit total : ℕ) (l : Calls)
    → Runs w.clock limit
    → start ≤ w.clock (length l)
    → w.clock (length l) < start + 2 ^ 32
    → start + limit ≤ w.clock (2 * n + length l)
    → (total' : ℕ) × ((flood w (suc n) (start % 2 ^ 32) limit total l).0 ≡ some total')
unfolding flood
flood_returns w zero start limit total l r begun near far =
    (total, ground (arith, far, elapsed-sub (w.clock (length l)) start begun near))
flood_returns w (suc n) start limit total l r begun near far =
    let now = get_tick w l in
    let sent = ask w (Call.write (counting 0 512)) now.1 in
    let gone = elapsed-sub (w.clock (length l)) start begun near in
    let on = r.onward (length l) in
    let on' = r.onward (suc (length l)) in
    let soon = r.soon (length l) in
    let same : 2 * suc n + length l ≡ 2 * n + suc (suc (length l)) = omega arith in
    elim (Bool-cases (ltb (elapsed now.0 (start % 2 ^ 32)) limit)) [
      | inl y ↦ rw y (
          flood_returns w n start limit ((total + (sent.0 - 1)) % 2 ^ 32) sent.1 r (omega arith)
            (ground (arith, y, gone, soon, near)) (rw (← same) far))
      | inr x ↦ (total, rw x refl)
    ]

-- The duration of the timed phases in milliseconds, a DWORD.
abbrev pub limit_of : ℕ → ℕ
limit_of duration = duration * 1000 % 2 ^ 32

write_flood_returns :
    (w : Windows) (n duration : ℕ) (s : Score) (l : Calls)
    → Runs w.clock (limit_of duration)
    → ((k : ℕ) → w.clock k + limit_of duration ≤ w.clock (2 * n + k))
    → (s' : Score) × ((write_flood w (suc n) duration s l).0 ≡ some s')
unfolding write_flood
write_flood_returns w n duration s l r passes =
    let com_port = ask w Call.open_port l in
    let set = ask w (Call.set_timeouts 0xFFFF_FFFF 0 100) com_port.1 in
    let k : ℕ = length set.1 in
    let start = get_tick w set.1 in
    let on = r.onward k in
    let later = r.onward (2 * n + k) in
    let same : suc (2 * n + k) ≡ 2 * n + suc k = omega arith in
    let far = passes k in
    let told =
      flood_returns w n (w.clock k) (limit_of duration) 0 start.1 r on
        (omega (arith, r.onward (suc k), r.soon k)) (rw (← same) (omega (arith, far, later))) in
    elim (Bool-cases (com_port.0 == 0)) [
      | inl y ↦ (note false s, rw y refl)
      | inr x ↦ (note true s, ground (arith, x, told.1))
    ]

flood_phase_returns :
    (w : Windows) (b : Bool) (n duration : ℕ) (s : Score) (l : Calls)
    → Runs w.clock (limit_of duration)
    → ((k : ℕ) → w.clock k + limit_of duration ≤ w.clock (2 * n + k))
    → (s' : Score) × (((if b then write_flood w (suc n) duration s else pure (some s)) l).0
        ≡ some s')
flood_phase_returns w true n duration s l r passes = write_flood_returns w n duration s l r passes
flood_phase_returns w false n duration s l r passes = (s, refl)

after_flood_returns :
    (w : Windows) (o : Options) (flooded : Option Score) (s : Score) (l : Calls)
    → flooded ≡ some s
    → (s' : Score) × ((after_flood w o flooded l).0 ≡ some s')
unfolding after_flood
after_flood_returns w o none s l h = cc
after_flood_returns w o (some s2) s l h = ((later_phases w o s2 l).0, refl)

all_phases_returns :
    (w : Windows) (n : ℕ) (o : Options) (s : Score) (l : Calls)
    → Runs w.clock (limit_of o.seconds)
    → ((k : ℕ) → w.clock k + limit_of o.seconds ≤ w.clock (2 * n + k))
    → (s' : Score) × ((all_phases w (suc n) o s l).0 ≡ some s')
unfolding all_phases
all_phases_returns w n o s l r passes =
    let s1 = (if runs_phase o 1 then rapid_open_close w 100 s else pure s) l in
    let flooded =
      (if runs_phase o 2 then write_flood w (suc n) o.seconds s1.0 else pure (some s1.0)) s1.1 in
    let told = flood_phase_returns w (runs_phase o 2) n o.seconds s1.0 s1.1 r passes in
    after_flood_returns w o flooded.0 told.0 flooded.1 told.1

-- Where any 2 * n calls take at least as long as the arguments give to a timed phase, the clock does
-- not go back, and from a call to the next but one fewer than 2 ^ 32 milliseconds less that time pass,
-- the program ends, with at most n + 1 rounds of the second phase.
pub main_returns :
    (w : Windows) (n : ℕ) (args : List Switch) (l : Calls)
    → Runs w.clock (limit_of (parse args default_options).seconds)
    → ((k : ℕ) → w.clock k + limit_of (parse args default_options).seconds ≤ w.clock (2 * n + k))
    → (r : ℕ × Score) × ((main w (suc n) args l).0 ≡ some r)
unfolding main results
main_returns w n args l r passes =
    let o = parse args default_options in
    let zeros : Score = record { passed = 0; failed = 0; total = 0 } in
    let told = all_phases_returns w n o zeros l r passes in
    elim (Bool-cases o.has_port) [
      | inl y ↦ ((if ltb 0 told.0.failed then 1 else 0, told.0), ground (arith, y, told.1))
      | inr x ↦ ((1, zeros), rw x refl)
    ]
