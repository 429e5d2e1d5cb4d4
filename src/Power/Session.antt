-- ===== src/Power/Session.antt =====
-- The power routines keep to the port's channel.
use netmodem2irc.Base.{refl, inl, inr, arith, Bool-cases}
use netmodem2irc.Cd1400
use netmodem2irc.Bus.{Device, Log, read_reg, write_reg, select_channel}
use netmodem2irc.Bus.Session.{Session, Proper, selected, reads, writes}
use netmodem2irc.Port.{Port, Irp, Status, DevicePower}
use netmodem2irc.Power.{
  PowerState, Minor, suspend, resume, pdo_set_power, minor_power, dispatch_power,
}
use netmodem2irc.Power.Channel.{
  save_channel_state, restore_channel_state, restore_registers, restore_signals,
}

module _ (dev : Device) (p : Port) (log : Log) where
  save_channel_state-Session :
      Session dev p.chip_base p.channel log (save_channel_state dev p log).1
  unfolding save_channel_state read_reg write_reg select_channel
  save_channel_state-Session = reads Cd1400.msvr2 _ (omega arith) (
      reads Cd1400.msvr1 _ (omega arith) (
        reads Cd1400.schr2 _ (omega arith) (
          reads Cd1400.schr1 _ (omega arith) (
            reads Cd1400.srer _ (omega arith) (
              reads Cd1400.rbpr _ (omega arith) (
                reads Cd1400.rcor _ (omega arith) (
                  reads Cd1400.tbpr _ (omega arith) (
                    reads Cd1400.tcor _ (omega arith) (
                      reads Cd1400.cor3 _ (omega arith) (
                        reads Cd1400.cor2 _ (omega arith)
                          (reads Cd1400.cor1 _ (omega arith) (selected _ (omega arith)))))))))))))

  restore_registers-Session : Session dev p.chip_base p.channel log (restore_registers dev p log).1
  unfolding restore_registers restore_signals read_reg write_reg select_channel
  restore_registers-Session = elim (Bool-cases p.is_open) [
    | inl o ↦ rw o (
        reads Cd1400.msvr2 _ (omega arith) (
          reads Cd1400.msvr1 _ (omega arith) (
            writes Cd1400.srer _ (omega arith) (
              writes Cd1400.msvr2 _ (omega arith) (
                writes Cd1400.msvr1 _ (omega arith) (
                  writes Cd1400.ccr _ (omega arith) (
                    writes Cd1400.schr2 _ (omega arith) (
                      writes Cd1400.schr1 _ (omega arith) (
                        writes Cd1400.rbpr _ (omega arith) (
                          writes Cd1400.rcor _ (omega arith) (
                            writes Cd1400.tbpr _ (omega arith) (
                              writes Cd1400.tcor _ (omega arith) (
                                writes Cd1400.ccr _ (omega arith) (
                                  writes Cd1400.cor3 _ (omega arith) (
                                    writes Cd1400.cor2 _ (omega arith) (
                                      writes Cd1400.cor1 _ (omega arith) (
                                        writes Cd1400.ccr _ (omega arith)
                                          (selected _ (omega arith)))))))))))))))))))
    | inr c ↦ rw c (
        reads Cd1400.msvr2 _ (omega arith) (
          reads Cd1400.msvr1 _ (omega arith) (
            writes Cd1400.ccr _ (omega arith) (
              writes Cd1400.schr2 _ (omega arith) (
                writes Cd1400.schr1 _ (omega arith) (
                  writes Cd1400.rbpr _ (omega arith) (
                    writes Cd1400.rcor _ (omega arith) (
                      writes Cd1400.tbpr _ (omega arith) (
                        writes Cd1400.tcor _ (omega arith) (
                          writes Cd1400.ccr _ (omega arith) (
                            writes Cd1400.cor3 _ (omega arith) (
                              writes Cd1400.cor2 _ (omega arith) (
                                writes Cd1400.cor1 _ (omega arith) (
                                  writes Cd1400.ccr _ (omega arith)
                                    (selected _ (omega arith))))))))))))))))
  ]

  suspend-Proper : Proper dev p log (suspend dev p log).1
  unfolding suspend
  suspend-Proper = ground (arith, save_channel_state-Session)

  resume-Proper : Proper dev p log (resume dev p log).1
  unfolding resume restore_channel_state
  resume-Proper = ground (arith, restore_registers-Session)

  pdo_set_power-Proper : (s : PowerState) → Proper dev p log (pdo_set_power dev s p log).1
  unfolding pdo_set_power
  pdo_set_power-Proper (PowerState.device_power DevicePower.unspecified) = inl refl
  pdo_set_power-Proper (PowerState.device_power DevicePower.d0) = ground (arith, resume-Proper)
  pdo_set_power-Proper (PowerState.device_power DevicePower.d1) = inl refl
  pdo_set_power-Proper (PowerState.device_power DevicePower.d2) = inl refl
  pdo_set_power-Proper (PowerState.device_power DevicePower.d3) = ground (arith, suspend-Proper)
  pdo_set_power-Proper (PowerState.system_power n) = inl refl

  -- A power request touches no register, or selects the port's channel on its chip first and then
  -- touches only that chip, and CAR only to select that channel again.
  pub dispatch_power-Proper :
      (lower : Status) (minor : Minor) (irp : Irp)
      → Proper dev p log (dispatch_power dev lower minor irp p log).1
  unfolding dispatch_power minor_power
  dispatch_power-Proper lower (Minor.set_power s) irp = ground (arith, pdo_set_power-Proper s)
  dispatch_power-Proper lower Minor.query_power irp = ground arith
  dispatch_power-Proper lower Minor.other_power irp = ground arith
