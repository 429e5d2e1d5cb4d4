-- ===== src/Power.antt =====
-- fossil/cyclades/src/cypower.c: IRP_MJ_POWER. A port that is suspended saves the registers of its
-- channel, and one that is resumed writes them back.
pub mod Channel
pub mod Resume
pub mod Session
use netmodem2irc.Base.{
  ℕ, Bool, true, false, not, ◌&&◌, Option, some, none, List, [], ◌∷◌, if◌then◌else◌,
}
use netmodem2irc.Bus.{Device, Bus, pure, ◌>>=◌}
use netmodem2irc.Port.{Port, Outcome, Irp, Status, DevicePower, is_d0}
use netmodem2irc.Power.Channel.{save_channel_state, restore_channel_state}

-- `Parameters.Power`: DevicePowerState or SystemPowerState, with the state
pub data PowerState : Type 0 where
  device_power : DevicePower → PowerState
  system_power : ℕ → PowerState

-- The minor functions of IRP_MJ_POWER.
pub data Minor : Type 0 where
  set_power : PowerState → Minor
  query_power other_power : Minor

module _ (dev : Device) where
  -- D0 is entered from another state.
  unfoldable pub resume : Port → Bus Port
  resume p = do
    p' ← (if p.is_open && p.saved.valid then restore_channel_state dev p else pure p)
    pure (record p' { device_power_state = DevicePower.d0 })

  -- D3 is entered from D0.
  unfoldable pub suspend : Port → Bus Port
  suspend p = do
    p' ← (if p.is_open then save_channel_state dev p else pure p)
    pure (record p' { device_power_state = DevicePower.d3 })

  -- `CyPdoSetPower`, which always returns STATUS_SUCCESS: the port, and the state that it reports
  -- by PoSetPowerState.
  unfoldable pub pdo_set_power : PowerState → Port → Bus (Port × Option DevicePower)
  pdo_set_power (PowerState.device_power DevicePower.d0) p =
      if is_d0 p.device_power_state
      then pure (p, none)
      else (do p' ← resume p; pure (p', some DevicePower.d0))
  pdo_set_power (PowerState.device_power DevicePower.d3) p =
      if is_d0 p.device_power_state
      then (do p' ← suspend p; pure (p', some DevicePower.d3))
      else pure (p, none)
  pdo_set_power (PowerState.device_power _) p = pure (p, none)
  pdo_set_power (PowerState.system_power s) p = pure (record p { system_power_state = s }, none)

  unfoldable pub minor_power : Minor → Port → Bus Port
  minor_power (Minor.set_power state) p = do res ← pdo_set_power state p; pure (res.0)
  minor_power _ p = pure p

  -- `CyDispatchPower`; `lower` is what PoCallDriver returns for a card, whose IRP it passes down
  unfoldable pub dispatch_power : Status → Minor → Irp → Port → Bus Outcome
  dispatch_power lower minor irp p =
      if p.is_fdo then pure (record { result = lower; port = p; completed = [] }) else (do
        p' ← minor_power minor p
        pure (record {
          result = Status.success;
          port = p';
          completed = record irp { status = Status.success } ∷ [];
        }))
