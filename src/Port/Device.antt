-- ===== src/Port/Device.antt =====
-- The PnP and power fields of a device extension (fossil/cyclades/inc/cycommon.h).
use netmodem2irc.Base.{ℕ, Bool, true, false}

-- `CY_PNP_STATE`
pub data PnpState : Type 0 where
  not_started started stop_pending stopped remove_pending surprise_removed removed : PnpState

abbrev pub is_started : PnpState → Bool
is_started PnpState.started = true
is_started _ = false

-- `DEVICE_POWER_STATE`
pub data DevicePower : Type 0 where
  unspecified d0 d1 d2 d3 : DevicePower

abbrev pub is_d0 : DevicePower → Bool
is_d0 DevicePower.d0 = true
is_d0 _ = false

-- `SavedPowerState`, the registers of a channel that a suspend saves
pub record Saved : Type 0 where
  pub valid : Bool
  pub cor1 : ℕ
  pub cor2 : ℕ
  pub cor3 : ℕ
  pub tcor : ℕ
  pub tbpr : ℕ
  pub rcor : ℕ
  pub rbpr : ℕ
  pub srer : ℕ
  pub msvr : ℕ
  pub schr1 : ℕ
  pub schr2 : ℕ
