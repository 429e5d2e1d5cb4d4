-- ===== src/Serial/Channel.antt =====
-- The two routines of cyserial.c that set up and shut down a channel of a chip. They run under the
-- interrupt's lock where it is connected, and are called directly where it is not.
use netmodem2irc.Base.{◌-◌, set_bits}
use netmodem2irc.Cd1400
use netmodem2irc.Bus.{Device, Bus, pure, ◌>>=◌, ◌>>◌, read_reg, write_reg, select_channel}
use netmodem2irc.Ring
use netmodem2irc.Port.{Port, dtr_state, rts_state}

module _ (dev : Device) where
  -- `CyInitChannelSync`; its status is always STATUS_SUCCESS
  unfoldable pub init_channel : Port → Bus Port
  init_channel p = do
    select_channel dev p.chip_base p.channel
    write_reg dev p.chip_base Cd1400.ccr Cd1400.chan_reset
    write_reg dev p.chip_base Cd1400.cor1
        (set_bits (set_bits Cd1400.bits_8 Cd1400.stop_1) Cd1400.parity_none)
    write_reg dev p.chip_base Cd1400.cor2 Cd1400.rts_ao
    write_reg dev p.chip_base Cd1400.cor3 (Cd1400.max_char_fifo - 2)
    write_reg dev p.chip_base Cd1400.ccr (
        set_bits (set_bits (set_bits Cd1400.cor_change Cd1400.cor1_ch) Cd1400.cor2_ch)
          Cd1400.cor3_ch)
    write_reg dev p.chip_base Cd1400.ccr (set_bits Cd1400.enb_rcvr Cd1400.enb_xmtr)
    write_reg dev p.chip_base Cd1400.msvr1 (set_bits Cd1400.dtr Cd1400.rts)
    write_reg dev p.chip_base Cd1400.msvr2 (set_bits Cd1400.dtr Cd1400.rts)
    write_reg dev p.chip_base Cd1400.srer (set_bits Cd1400.rx_data Cd1400.mdm_ch)
    msvr1 ← read_reg dev p.chip_base Cd1400.msvr1
    msvr2 ← read_reg dev p.chip_base Cd1400.msvr2
    pure (record p {
      rx = Ring.reset p.rx;
      tx = Ring.reset p.tx;
      shadow_msvr = set_bits msvr1 msvr2;
      modem_control = set_bits dtr_state rts_state;
      event_history = 0;
    })

  -- `CyShutdownChannelSync`
  unfoldable pub shutdown_channel : Port → Bus Port
  shutdown_channel p = do
    select_channel dev p.chip_base p.channel
    write_reg dev p.chip_base Cd1400.srer 0
    write_reg dev p.chip_base Cd1400.ccr (set_bits Cd1400.dis_rcvr Cd1400.dis_xmtr)
    write_reg dev p.chip_base Cd1400.msvr1 0
    write_reg dev p.chip_base Cd1400.msvr2 0
    pure (record p { modem_control = 0 })
