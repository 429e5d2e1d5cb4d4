-- ===== src/Read.antt =====
-- fossil/cyclades/src/cyread.c: IRP_MJ_READ and the DPC that completes pending reads.
pub mod Copy
pub mod Dispatch
pub mod Dpc
use netmodem2irc.Base.{
  ℕ, ◌+◌, ◌-◌, ◌*◌, ◌/◌, ◌%◌, ◌^◌, Bool, true, false, not, ◌&&◌, ◌||◌, Option, some, none, List, [],
  ◌∷◌, ◌++◌, ltb, leb, ◌==◌, if◌then◌else◌,
}
use netmodem2irc.Ring
use netmodem2irc.Port.{
  Port, PnpState, Outcome, acquire, release, Irp, Status, nt_success, finish, Timeouts,
}
use netmodem2irc.Port.Queue.{csq_insert}

-- `CySyncReadFromRxBuf` on the buffer of an IRP and `Requested`: `Actual`, the IRP, the port.
unfoldable pub sync_read_from_rx_buf : Irp → Port → ℕ × Irp × Port
sync_read_from_rx_buf irp p =
    let res : ℕ × List ℕ × Ring.Ring = Ring.read_loop irp.length 0 irp.buffer p.rx in
    (res.0, record irp { buffer = res.1 }, record p { rx = res.2 })

-- `(ULONG)(-1)`
abbrev pub max_ulong : ℕ
max_ulong = 2 ^ 32 - 1

-- The test for "return immediately".
unfoldable pub returns_at_once : Timeouts → Bool
returns_at_once t =
    (t.read_interval == max_ulong) && (t.read_multiplier == 0) && (t.read_constant == 0)

-- `totalTimeoutMs`, in ULONG arithmetic; 0 where neither field is set.
unfoldable pub total_timeout : Timeouts → ℕ → ℕ
total_timeout t requested =
    if ltb 0 t.read_constant || ltb 0 t.read_multiplier
    then (t.read_constant + (t.read_multiplier * requested) % 2 ^ 32) % 2 ^ 32
    else 0

-- What goes into `DriverContext[1]`, a 64-bit pointer: the tick at which the read times out, or
-- NULL. `tick` is the QuadPart of KeQueryTickCount.
unfoldable pub read_deadline : Timeouts → ℕ → ℕ → ℕ
read_deadline t requested tick =
    if ltb 0 (total_timeout t requested)
    then (tick + total_timeout t requested / 16 + 1) % 2 ^ 64
    else 0

-- The slow path: return at once, or queue the IRP.
unfoldable pub queue_read : ℕ → Irp → Port → Outcome
queue_read tick irp p =
    if returns_at_once p.timeouts
    then record {
      result = Status.success;
      port = release p;
      completed = finish Status.success 0 irp ∷ [];
    }
    else record {
      result = Status.pending;
      port = release (record p {
        read_queue =
            csq_insert (record irp { deadline = read_deadline p.timeouts irp.length tick })
              p.read_queue;
      });
      completed = [];
    }

-- The open port: the fast path where bytes wait in RxBuf, else the slow one.
unfoldable pub read_open : ℕ → Irp → Port → Outcome
read_open tick irp p =
    let got : ℕ × Irp × Port = sync_read_from_rx_buf irp p in
    if ltb 0 p.rx.count && p.interrupt_connected
    then (if ltb 0 got.0
        then record {
          result = Status.success;
          port = release got.2;
          completed = finish Status.success got.0 got.1 ∷ [];
        }
        else queue_read tick got.1 got.2)
    else queue_read tick irp p

-- `CyDispatchRead`. `lock` is what IoAcquireRemoveLock returns.
unfoldable pub dispatch_read : Status → ℕ → Irp → Port → Outcome
dispatch_read lock tick irp p =
    if p.is_fdo
    then record {
      result = Status.invalid_device_request;
      port = p;
      completed = finish Status.invalid_device_request 0 irp ∷ [];
    }
    else if not (nt_success lock)
    then record { result = lock; port = p; completed = record irp { status = lock } ∷ [] }
    else if not p.is_open
    then record {
      result = Status.invalid_device_state;
      port = release (acquire p);
      completed = finish Status.invalid_device_state 0 irp ∷ [];
    }
    else read_open tick irp (acquire p)

-- One round of the DPC's loop reads for an IRP that it took off the queue.
unfoldable pub dpc_read : Irp → Port → ℕ × Irp × Port
dpc_read irp p =
    if ltb 0 p.rx.count && (p.interrupt_connected && p.interrupt)
    then sync_read_from_rx_buf irp p
    else (0, irp, p)

-- `timedOut`
unfoldable pub timed_out : ℕ → Irp → Bool
timed_out tick irp = not (irp.deadline == 0) && leb irp.deadline (tick % 2 ^ 64)

-- The loop of `CyReadDpcComplete` over the read queue, from whose head each round takes an IRP:
-- the queue and the port afterwards, and the IRPs that were completed. An IRP with no data goes
-- back to the end of the queue, and the loop stops.
unfoldable pub read_dpc_loop : ℕ → List Irp → Port → List Irp × Port × List Irp
read_dpc_loop tick [] p = ([], p, [])
read_dpc_loop tick (irp ∷ queue) p =
    let got : ℕ × Irp × Port = dpc_read irp p in
    let rest : List Irp × Port × List Irp = read_dpc_loop tick queue got.2 in
    if ltb 0 got.0 || timed_out tick irp
    then (rest.0, rest.1, finish Status.success got.0 got.1 ∷ rest.2)
    else (csq_insert got.1 queue, got.2, [])

-- `CyReadDpcComplete`, which `CyReadDpcRoutine` calls: the port and the completed IRPs.
unfoldable pub read_dpc : ℕ → Port → Port × List Irp
read_dpc tick p =
    let res : List Irp × Port × List Irp = read_dpc_loop tick p.read_queue p in
    (record (res.1) { read_queue = res.0 }, res.2)
