-- ===== src/Write.antt =====
-- fossil/cyclades/src/cywrite.c: IRP_MJ_WRITE and the DPC that feeds pending writes to TxBuf.
pub mod Copy
pub mod Dispatch
pub mod Dpc
use netmodem2irc.Base.{
  ℕ, ◌+◌, ◌-◌, Bool, true, false, not, ◌&&◌, List, [], ◌∷◌, drop, ltb, leb, ◌==◌, if◌then◌else◌,
  set_bits,
}
use netmodem2irc.Cd1400
use netmodem2irc.Bus.{Device, Bus, pure, ◌>>=◌, ◌>>◌, read_reg, write_reg, select_channel}
use netmodem2irc.Ring
use netmodem2irc.Port.{Port, Outcome, acquire, release, Irp, Status, nt_success, finish}
use netmodem2irc.Port.Queue.{csq_insert}

-- `IoMarkIrpPending`, `IoCsqInsertIrp`
unfoldable pub queue_write : Irp → Port → Outcome
queue_write irp p = record {
  result = Status.pending;
  port = release (record p { write_queue = csq_insert irp p.write_queue });
  completed = [];
}

-- What follows the copy of the fast path, `written` bytes of the IRP being in TxBuf.
unfoldable pub after_copy : Irp → ℕ × Port → Outcome
after_copy irp (written, p) =
    if written == irp.length
    then record {
      result = Status.success;
      port = release p;
      completed = finish Status.success written irp ∷ [];
    }
    else if ltb 0 written
    then queue_write (record irp { offset = written }) p
    else queue_write irp p

-- `offset`, set back to 0 where it is not below the length
unfoldable pub start_offset : Irp → ℕ
start_offset irp = if leb irp.length irp.offset then 0 else irp.offset

module _ (dev : Device) where
  -- `srer = CyReadReg(SRER); srer |= CyTxRdy; CyWriteReg(SRER, srer);` on the port's channel
  unfoldable pub enable_tx_rdy : Port → Bus (Unit {0})
  enable_tx_rdy p = do
    select_channel dev p.chip_base p.channel
    srer ← read_reg dev p.chip_base Cd1400.srer
    write_reg dev p.chip_base Cd1400.srer (set_bits srer Cd1400.tx_rdy)

  -- `CySyncWriteToTxBuf` on `Buffer` and `Length`: `Written` and the port.
  unfoldable pub sync_write_to_tx_buf : List ℕ → ℕ → Port → Bus (ℕ × Port)
  sync_write_to_tx_buf bytes len p =
      let res : ℕ × Ring.Ring = Ring.write_loop len 0 bytes p.tx in
      let p' : Port = record p { tx = res.1 } in
      if (p.tx.count == 0) && ltb 0 res.1.count
      then (enable_tx_rdy p >> pure (res.0, p'))
      else pure (res.0, p')

  unfoldable pub write_open : Irp → Port → Bus Outcome
  write_open irp p =
      if p.interrupt_connected
      then (do res ← sync_write_to_tx_buf irp.buffer irp.length p; pure (after_copy irp res))
      else pure (queue_write irp p)

  -- `CyDispatchWrite`. `lock` is what IoAcquireRemoveLock returns.
  unfoldable pub dispatch_write : Status → Irp → Port → Bus Outcome
  dispatch_write lock irp p =
      if p.is_fdo
      then pure (record {
        result = Status.invalid_device_request;
        port = p;
        completed = finish Status.invalid_device_request 0 irp ∷ [];
      })
      else if not (nt_success lock)
      then pure (record { result = lock; port = p; completed = record irp { status = lock } ∷ [] })
      else if not p.is_open
      then pure (record {
        result = Status.invalid_device_state;
        port = release (acquire p);
        completed = finish Status.invalid_device_state 0 irp ∷ [];
      })
      else write_open irp (acquire p)

  -- One round of the DPC copies what it can of an IRP that it took off the queue.
  unfoldable pub dpc_write : Irp → Port → Bus (ℕ × Port)
  dpc_write irp p =
      if p.interrupt_connected && p.interrupt
      then sync_write_to_tx_buf (drop (start_offset irp) irp.buffer) (irp.length - start_offset irp)
          p
      else pure (0, p)

  -- The loop of `CyWriteDpcComplete` over the write queue, from whose head each round takes an
  -- IRP: the queue and the port afterwards, and the IRPs that were completed. An IRP that does not
  -- fit goes back to the end of the queue, and the loop stops.
  unfoldable pub write_dpc_loop : List Irp → Port → Bus (List Irp × Port × List Irp)
  write_dpc_loop [] p = pure ([], p, [])
  write_dpc_loop (irp ∷ queue) p =
      let round : Bus (List Irp × Port × List Irp) = do
        res ← dpc_write irp p
        let more : Bus (List Irp × Port × List Irp) = do
          rest ← write_dpc_loop queue res.1
          pure (rest.0, rest.1, finish Status.success irp.length irp ∷ rest.2)
        (if ltb res.0 (irp.length - start_offset irp)
            then pure
                (csq_insert (record irp { offset = start_offset irp + res.0 }) queue, res.1, [])
            else more)
      in if ltb p.tx.count Ring.ring_size then round else pure (irp ∷ queue, p, [])

  -- `CyWriteDpcComplete`, which `CyWriteDpcRoutine` calls: the port and the completed IRPs.
  unfoldable pub write_dpc : Port → Bus (Port × List Irp)
  write_dpc p = do
    res ← write_dpc_loop p.write_queue p
    pure (record (res.1) { write_queue = res.0 }, res.2)
