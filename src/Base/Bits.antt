-- ===== src/Base/Bits.antt =====
-- Single bits of a C word: `x & m` as a test, `x |= m`, `x &= ~m` for a mask of one bit.
use Prim.Native.Nat.{ℕ, ◌-◌, bit_and, bit_or}
use mathlib.Core.Bool.{Bool, not}
use netmodem2irc.Base.Tests.{◌==◌}

-- `if (x & m)`
unfoldable pub has_bits : ℕ → ℕ → Bool
has_bits x m = not (bit_and x m == 0)

-- `x |= m`
unfoldable pub set_bits : ℕ → ℕ → ℕ
set_bits x m = bit_or x m

-- `x &= ~m`: the bits of `m` that `x` has are taken off it
unfoldable pub clear_bits : ℕ → ℕ → ℕ
clear_bits x m = x - bit_and x m

-- `x & m` as a value
unfoldable pub masked : ℕ → ℕ → ℕ
masked x m = bit_and x m
