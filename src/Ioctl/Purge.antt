-- ===== src/Ioctl/Purge.antt =====
-- IOCTL_SERIAL_PURGE and `CySyncPurgeBuffers` (fossil/cyclades/src/cyisr.c).
use netmodem2irc.Base.{
  ℕ, zero, suc, Bool, List, [], ◌++◌, ltb, ◌==◌, if◌then◌else◌, has_bits, set_bits,
}
use netmodem2irc.Cd1400
use netmodem2irc.Bus.{Device, Bus, pure, ◌>>=◌, ◌>>◌, read_reg, write_reg, select_channel}
use netmodem2irc.Ring
use netmodem2irc.Port.{
  Port, Irp, Status, purge_txabort, purge_rxabort, purge_txclear, purge_rxclear,
}
use netmodem2irc.Serial.{cancel_all}
use netmodem2irc.Ioctl.Bytes.{ulong_at}
use netmodem2irc.Ioctl.Switch.{Handled, refused}

-- The two loops that cancel pending IRPs: the port and the IRPs as they are completed.
unfoldable pub abort : ℕ → Port → Port × List Irp
abort mask p =
    let tx : Bool = has_bits mask purge_txabort in
    let rx : Bool = has_bits mask purge_rxabort in
    (
      record p {
        write_queue = if tx then [] else p.write_queue;
        read_queue = if rx then [] else p.read_queue;
      },
      (if tx then cancel_all p.write_queue else []) ++ (if rx then cancel_all p.read_queue else []),
    )

module _ (dev : Device) where
  -- `while (CyReadReg(RDCR) && maxDrain-- > 0) (void)CyReadReg(RDSR);`
  unfoldable pub drain : ℕ → ℕ → Bus (Unit {0})
  drain zero base = read_reg dev base Cd1400.rdcr >> pure tt
  drain (suc n) base = do
    rdcr ← read_reg dev base Cd1400.rdcr
    (if rdcr == 0 then pure tt else (read_reg dev base Cd1400.rdsr >> drain n base))

  unfoldable pub clear_rx : ℕ → Port → Bus Port
  clear_rx mask p =
      if has_bits mask purge_rxclear
      then (do
        select_channel dev p.chip_base p.channel
        drain 12 p.chip_base
        pure (record p { rx = Ring.reset p.rx }))
      else pure p

  unfoldable pub clear_tx : ℕ → Port → Bus Port
  clear_tx mask p =
      if has_bits mask purge_txclear
      then (do
        select_channel dev p.chip_base p.channel
        write_reg dev p.chip_base Cd1400.ccr Cd1400.flush_trans_fifo
        pure (record p { tx = Ring.reset p.tx }))
      else pure p

  -- `CySyncPurgeBuffers`
  unfoldable pub sync_purge_buffers : ℕ → Port → Bus Port
  sync_purge_buffers mask p = do p' ← clear_rx mask p; clear_tx mask p'

  -- IOCTL_SERIAL_PURGE
  unfoldable pub purge : ℕ → Irp → Port → Bus Handled
  purge in_len irp p =
      let mask : ℕ = ulong_at irp.buffer 0 in
      let aborted : Port × List Irp = abort mask p in
      if ltb in_len 4 then pure (refused Status.buffer_too_small irp p) else (do
        p' ←
            (if has_bits mask (set_bits purge_txclear purge_rxclear)
              then sync_purge_buffers mask aborted.0
              else pure aborted.0)
        pure (Handled.answered Status.success 0 irp p' aborted.1))
