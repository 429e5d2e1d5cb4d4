-- ===== src/Power/Resume.antt =====
-- A suspended port gets its registers back, whatever the chip was given in between.
use netmodem2irc.Base.{ℕ, ◌%◌, ◌≡◌, set_bits, masked}
use netmodem2irc.Cd1400
use netmodem2irc.Bus.{Device, Log, read_reg}
use netmodem2irc.Bus.Memory.{selected, held}
use netmodem2irc.Port.{Port, Saved}

-- The registers that a suspend saves, where it saves them, and what it makes of the contents of the
-- channel's registers: all are saved as they are but MSVR1 and MSVR2, of which DTR and RTS are saved
-- together.
pub data Stored : ℕ → (Saved → ℕ) → ((ℕ → ℕ) → ℕ) → Type 0 where
  stores_cor1 : Stored Cd1400.cor1 (λ s. s.cor1) (λ at. at Cd1400.cor1 % 256)
  stores_cor2 : Stored Cd1400.cor2 (λ s. s.cor2) (λ at. at Cd1400.cor2 % 256)
  stores_cor3 : Stored Cd1400.cor3 (λ s. s.cor3) (λ at. at Cd1400.cor3 % 256)
  stores_tcor : Stored Cd1400.tcor (λ s. s.tcor) (λ at. at Cd1400.tcor % 256)
  stores_tbpr : Stored Cd1400.tbpr (λ s. s.tbpr) (λ at. at Cd1400.tbpr % 256)
  stores_rcor : Stored Cd1400.rcor (λ s. s.rcor) (λ at. at Cd1400.rcor % 256)
  stores_rbpr : Stored Cd1400.rbpr (λ s. s.rbpr) (λ at. at Cd1400.rbpr % 256)
  stores_srer : Stored Cd1400.srer (λ s. s.srer) (λ at. at Cd1400.srer % 256)
  stores_schr1 : Stored Cd1400.schr1 (λ s. s.schr1) (λ at. at Cd1400.schr1 % 256)
  stores_schr2 : Stored Cd1400.schr2 (λ s. s.schr2) (λ at. at Cd1400.schr2 % 256)
  stores_msvr1 :
      Stored Cd1400.msvr1
        (λ s. s.msvr)
        (λ at. masked (set_bits (at Cd1400.msvr1 % 256) (at Cd1400.msvr2 % 256)) 0x03)
  stores_msvr2 :
      Stored Cd1400.msvr2
        (λ s. s.msvr)
        (λ at. masked (set_bits (at Cd1400.msvr1 % 256) (at Cd1400.msvr2 % 256)) 0x03)

-- The channel that a port's routines select.
abbrev pub chan : Port → ℕ
chan p = p.channel % 4 % 256

-- A chip that gives back what a register holds for the selected channel.
abbrev pub Remembers : Device → Port → Type 0
Remembers dev p =
    (reg : ℕ) (field : Saved → ℕ) (of : (ℕ → ℕ) → ℕ) (log : Log)
    → Stored reg field of
    → selected dev p.chip_base log ≡ chan p
    → (read_reg dev p.chip_base reg log).0 ≡ held dev p.chip_base (chan p) reg log % 256
