-- ===== src/Bus.antt =====
-- The memory-mapped bus of fossil/cyclades/inc/cycommon.h (CyReadReg, CyWriteReg,
-- CySelectChannel). The chip answers a read as a function of all earlier accesses, so every
-- behaviour of the hardware is some `Device`.
mod Trace
pub mod Session
pub mod Memory
use netmodem2irc.Base.{ℕ, ◌+◌, ◌*◌, ◌%◌, ◌^◌, List, ◌∷◌}
use netmodem2irc.Cd1400
pub use netmodem2irc.Base.Logged.{pure, ◌>>=◌, ◌>>◌}
use netmodem2irc.Base.Logged.{Logged}
pub use Trace.{Access, rd, wr, Log}

-- `g_CyBusIndex`, and the byte that the chip puts on the bus at an address.
pub record Device : Type 0 where
  pub bus_index : ℕ
  pub answer : Log → ℕ → ℕ

-- A routine that accesses registers: the accesses so far, newest first, are its state.
abbrev pub Bus {ℓ} : Type ℓ → Type ℓ
Bus A = Logged Log A

module _ (dev : Device) where
  -- `chipBase + (reg << g_CyBusIndex)`
  abbrev pub address : ℕ → ℕ → ℕ
  address base reg = base + reg * 2 ^ dev.bus_index

  -- READ_REGISTER_UCHAR
  unfoldable pub read_at : ℕ → Bus ℕ
  read_at a l = let v : ℕ = dev.answer l a % 256 in (v, rd a v ∷ l)

  -- `CyReadReg`; the result is a UCHAR
  unfoldable pub read_reg : ℕ → ℕ → Bus ℕ
  read_reg base reg l =
      let v : ℕ = dev.answer l (address base reg) % 256 in (v, rd (address base reg) v ∷ l)

  -- `CyWriteReg`; the value is a UCHAR
  unfoldable pub write_reg : ℕ → ℕ → ℕ → Bus (Unit {0})
  write_reg base reg v l = (tt, wr (address base reg) (v % 256) ∷ l)

  -- `CySelectChannel`: `chan & 0x03`
  unfoldable pub select_channel : ℕ → ℕ → Bus (Unit {0})
  select_channel base chan = write_reg base Cd1400.car (chan % 4)
