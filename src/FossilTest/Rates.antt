-- ===== src/FossilTest/Rates.antt =====
-- The baud codes that the utility puts into AL.
use netmodem2irc.Base.{
  ℕ, zero, suc, ◌/◌, ◌%◌, ◌<◌, ◌≡◌, refl, Bool, true, ◌&&◌, none, some, ◌==◌, arith,
}
use Prim.Native.Nat.{bit_or}
use netmodem2irc.FossilTest.{Regs, baud_regs}

-- The value of AL, and whether a code leaves the bits 7 to 5 zero and the bits 1 and 0 set.
abbrev al_of : Regs → ℕ
al_of regs = elim (regs.al) [ none ↦ 0 | some a ↦ a ]

abbrev keeps_low : ℕ → Bool
keeps_low code = (bit_or code 3 % 256 / 32 == 0) && (bit_or code 3 % 256 % 4 == 3)

all_low : ℕ → Bool
all_low zero = true
all_low (suc n) = keeps_low n && all_low n

all_low-keeps_low : (n code : ℕ) → all_low n ≡ true → code < n → keeps_low code ≡ true
unfolding all_low
all_low-keeps_low zero code h lt = absurd (omega arith)
all_low-keeps_low (suc n) code h lt = ground (arith, all_low-keeps_low n code)

all_low_32 : all_low 32 ≡ true
unfolding all_low
all_low_32 = refl

-- For every baud code below 32 the bits 7 to 5 of AL, where FSC-0015 has the rate, are zero: the code
-- is not shifted. The lowest two bits, the word length, are set whatever the code.
baud_regs-rate :
    (port code : ℕ)
    → code < 32
    → (al_of (baud_regs port code) / 32 ≡ 0) × (al_of (baud_regs port code) % 4 ≡ 3)
unfolding baud_regs
baud_regs-rate port code h = ground (arith, all_low-keeps_low 32 code all_low_32 h)
