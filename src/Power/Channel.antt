-- ===== src/Power/Channel.antt =====
-- The two routines of cypower.c that run on a channel, under the interrupt's lock where it is
-- connected.
use netmodem2irc.Base.{true, false, not, if◌then◌else◌, set_bits, masked}
use netmodem2irc.Cd1400
use netmodem2irc.Bus.{Device, Bus, pure, ◌>>=◌, ◌>>◌, read_reg, write_reg, select_channel}
use netmodem2irc.Ring
use netmodem2irc.Port.{Port}

module _ (dev : Device) where
  -- `CySaveChannelStateSync`
  unfoldable pub save_channel_state : Port → Bus Port
  save_channel_state p = do
    select_channel dev p.chip_base p.channel
    cor1 ← read_reg dev p.chip_base Cd1400.cor1
    cor2 ← read_reg dev p.chip_base Cd1400.cor2
    cor3 ← read_reg dev p.chip_base Cd1400.cor3
    tcor ← read_reg dev p.chip_base Cd1400.tcor
    tbpr ← read_reg dev p.chip_base Cd1400.tbpr
    rcor ← read_reg dev p.chip_base Cd1400.rcor
    rbpr ← read_reg dev p.chip_base Cd1400.rbpr
    srer ← read_reg dev p.chip_base Cd1400.srer
    schr1 ← read_reg dev p.chip_base Cd1400.schr1
    schr2 ← read_reg dev p.chip_base Cd1400.schr2
    msvr1 ← read_reg dev p.chip_base Cd1400.msvr1
    msvr2 ← read_reg dev p.chip_base Cd1400.msvr2
    pure (record p {
      saved = record {
        valid = true;
        cor1 = cor1;
        cor2 = cor2;
        cor3 = cor3;
        tcor = tcor;
        tbpr = tbpr;
        rcor = rcor;
        rbpr = rbpr;
        srer = srer;
        msvr = masked (set_bits msvr1 msvr2) 0x03;
        schr1 = schr1;
        schr2 = schr2;
      };
    })

  -- The writes of DTR, RTS and SRER, for a port that is open.
  unfoldable pub restore_signals : Port → Bus (Unit {0})
  restore_signals p =
      if p.is_open
      then (do
        write_reg dev p.chip_base Cd1400.msvr1 p.saved.msvr
        write_reg dev p.chip_base Cd1400.msvr2 p.saved.msvr
        write_reg dev p.chip_base Cd1400.srer p.saved.srer)
      else pure tt

  -- What `CyRestoreChannelStateSync` does with a state that is valid.
  unfoldable pub restore_registers : Port → Bus Port
  restore_registers p = do
    select_channel dev p.chip_base p.channel
    write_reg dev p.chip_base Cd1400.ccr Cd1400.chan_reset
    write_reg dev p.chip_base Cd1400.cor1 p.saved.cor1
    write_reg dev p.chip_base Cd1400.cor2 p.saved.cor2
    write_reg dev p.chip_base Cd1400.cor3 p.saved.cor3
    write_reg dev p.chip_base Cd1400.ccr (
        set_bits (set_bits (set_bits Cd1400.cor_change Cd1400.cor1_ch) Cd1400.cor2_ch)
          Cd1400.cor3_ch)
    write_reg dev p.chip_base Cd1400.tcor p.saved.tcor
    write_reg dev p.chip_base Cd1400.tbpr p.saved.tbpr
    write_reg dev p.chip_base Cd1400.rcor p.saved.rcor
    write_reg dev p.chip_base Cd1400.rbpr p.saved.rbpr
    write_reg dev p.chip_base Cd1400.schr1 p.saved.schr1
    write_reg dev p.chip_base Cd1400.schr2 p.saved.schr2
    write_reg dev p.chip_base Cd1400.ccr (set_bits Cd1400.enb_rcvr Cd1400.enb_xmtr)
    restore_signals p
    msvr1 ← read_reg dev p.chip_base Cd1400.msvr1
    msvr2 ← read_reg dev p.chip_base Cd1400.msvr2
    pure (record p {
      rx = Ring.reset p.rx;
      tx = Ring.reset p.tx;
      shadow_msvr = set_bits msvr1 msvr2;
      saved = record (p.saved) { valid = false };
    })

  -- `CyRestoreChannelStateSync`; its status is not read
  unfoldable pub restore_channel_state : Port → Bus Port
  restore_channel_state p = if not p.saved.valid then pure p else restore_registers p
