-- ===== src/Isr/Connect.antt =====
-- The routines of cyisr.c that connect and disconnect a port's interrupt, and the callback that
-- starts its transmitter.
use netmodem2irc.Base.{◌&&◌, ltb, false, if◌then◌else◌, set_bits, has_bits}
use netmodem2irc.Cd1400
use netmodem2irc.Bus.{Device, Bus, pure, ◌>>=◌, ◌>>◌, read_reg, write_reg, select_channel}
use netmodem2irc.Port.{Port, Status, cts_handshake}
use netmodem2irc.Card.{Card}

-- `CyConnectInterrupt`
unfoldable pub connect_interrupt : Card → Port → Status × Port
connect_interrupt c p =
    if ltb 0 c.num_pdos && p.interrupt_connected
    then (Status.success, p)
    else (Status.success, record p { interrupt_connected = false })

-- `CyDisconnectInterrupt`
unfoldable pub disconnect_interrupt : Port → Port
disconnect_interrupt p =
    if p.interrupt_connected && p.interrupt
    then record p { interrupt = false; interrupt_connected = false }
    else p

module _ (dev : Device) where
  -- `srer |= CyTxRdy`
  unfoldable pub start_tx : Port → Bus (Unit {0})
  start_tx p = do
    srer ← read_reg dev p.chip_base Cd1400.srer
    write_reg dev p.chip_base Cd1400.srer (set_bits srer Cd1400.tx_rdy)

  -- `CySyncEnableTx`; its status is always STATUS_SUCCESS
  unfoldable pub sync_enable_tx : Port → Bus (Unit {0})
  sync_enable_tx p = do
    select_channel dev p.chip_base p.channel
    (if has_bits p.hand_flow.control_handshake cts_handshake
        then (do
          msvr1 ← read_reg dev p.chip_base Cd1400.msvr1
          msvr2 ← read_reg dev p.chip_base Cd1400.msvr2
          (if has_bits (set_bits msvr1 msvr2) Cd1400.cts then start_tx p else pure tt))
        else start_tx p)
