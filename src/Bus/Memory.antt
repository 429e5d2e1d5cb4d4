-- ===== src/Bus/Memory.antt =====
-- The register file of a channel as a history of accesses leaves it: CAR selects the channel, a
-- channel reset through CCR clears it, and any other register keeps the last byte written.
use netmodem2irc.Base.{
  ℕ, ◌*◌, ◌/◌, ◌^◌, ◌<◌, ◌≡◌, refl, sym, ◌∙◌, ap, false, ◌&&◌, [], ◌∷◌, ◌==◌, if◌then◌else◌, arith,
}
use native.Mathlib.Nat.{mul-div_cancel, one-le-pow, add_left_cancel}
use netmodem2irc.Cd1400
use netmodem2irc.Bus.{Device, Log, rd, wr, address}

address_injective :
    (dev : Device) (base reg reg' : ℕ) → address dev base reg ≡ address dev base reg' → reg ≡ reg'
address_injective dev base reg reg' e =
    let k : ℕ = 2 ^ dev.bus_index in
    let pos : 0 < k = one-le-pow dev.bus_index 2 (omega arith) in
    let e' : reg * k ≡ reg' * k = add_left_cancel base e in
    sym (mul-div_cancel reg pos) ∙ (ap (λ (t : ℕ). t / k) e' ∙ mul-div_cancel reg' pos)

-- Two registers of a chip have one address exactly where they are one.
pub address-eq :
    (dev : Device) (base reg reg' : ℕ)
    → (address dev base reg' == address dev base reg) ≡ (reg' == reg)
address-eq dev base reg reg' = ground (
  arith,
  address_injective dev base reg' reg,
  λ (e : reg' ≡ reg). ap (λ (r : ℕ). address dev base r) e,
)

module _ (dev : Device) (base : ℕ) where
  -- The byte last written to CAR.
  unfoldable pub selected : Log → ℕ
  selected [] = 0
  selected (rd a v ∷ log) = selected log
  selected (wr a v ∷ log) =
      let earlier = selected log in if a == address dev base Cd1400.car then v else earlier

  -- What a register holds for the channel `chan`.
  unfoldable pub held : ℕ → ℕ → Log → ℕ
  held chan reg [] = 0
  held chan reg (rd a v ∷ log) = held chan reg log
  held chan reg (wr a v ∷ log) =
      let earlier = held chan reg log in
      if selected log == chan
      then (if (a == address dev base Cd1400.ccr) && (v == Cd1400.chan_reset)
          then 0
          else if a == address dev base reg
          then v
          else earlier)
      else earlier

  pub selected-wr :
      (reg v : ℕ) (log : Log)
      → selected (wr (address dev base reg) v ∷ log)
        ≡ (if reg == Cd1400.car then v else selected log)
  unfolding selected
  selected-wr reg v log = rw (address-eq dev base Cd1400.car reg)

  pub held-wr :
      (chan reg reg' v : ℕ) (log : Log)
      → held chan reg (wr (address dev base reg') v ∷ log) ≡ (
          if selected log == chan
          then (if (reg' == Cd1400.ccr) && (v == Cd1400.chan_reset)
              then 0
              else if reg' == reg
              then v
              else held chan reg log)
          else held chan reg log)
  unfolding held
  held-wr chan reg reg' v log =
      rw (address-eq dev base Cd1400.ccr reg', address-eq dev base reg reg')

  pub selected-rd : (a v : ℕ) (log : Log) → selected (rd a v ∷ log) ≡ selected log
  unfolding selected
  selected-rd a v log = refl

  pub held-rd : (chan reg a v : ℕ) (log : Log) → held chan reg (rd a v ∷ log) ≡ held chan reg log
  unfolding held
  held-rd chan reg a v log = refl

  -- Selecting a channel leaves the other registers alone.
  pub held-select :
      (chan reg v : ℕ) (log : Log)
      → (Cd1400.car == reg) ≡ false
      → held chan reg (wr (address dev base Cd1400.car) v ∷ log) ≡ held chan reg log
  held-select chan reg v log other = ground (arith, held-wr chan reg Cd1400.car v log)
