-- ===== src/Serial.antt =====
-- fossil/cyclades/src/cyserial.c: opening, closing and cleaning up a port.
pub mod Channel
pub mod Session
pub mod Cleanup
pub mod Lifecycle
use netmodem2irc.Base.{
  ℕ, Bool, true, false, not, Option, none, some, List, [], ◌∷◌, ◌++◌, if◌then◌else◌,
}
use netmodem2irc.Bus.{Device, Bus, pure, ◌>>=◌}
use netmodem2irc.Port.{Port, Outcome, acquire, release, is_started, Irp, Status, nt_success, finish}
use netmodem2irc.Serial.Channel.{init_channel, shutdown_channel}

-- `while ((pendingIrp = IoCsqRemoveNextIrp(&Queue, NULL)) != NULL)` with the completion of each IRP
-- as cancelled: the IRPs as they are completed, in order. The queue is empty afterwards.
unfoldable pub cancel_all : List Irp → List Irp
cancel_all [] = []
cancel_all (irp ∷ queue) = finish Status.cancelled 0 irp ∷ cancel_all queue

-- `WaitIrp`, taken and cancelled
unfoldable pub cancel_wait : Option Irp → List Irp
cancel_wait none = []
cancel_wait (some irp) = finish Status.cancelled 0 irp ∷ []

-- What a routine that holds the remove lock does at its end.
abbrev pub done : Status → Irp → Port → Outcome
done status irp p = record {
  result = status;
  port = release p;
  completed = finish status 0 irp ∷ [];
}

-- `CyDispatchCleanup`. `lock` is what IoAcquireRemoveLock returns.
unfoldable pub dispatch_cleanup : Status → Irp → Port → Outcome
dispatch_cleanup lock irp p =
    if p.is_fdo
    then record {
      result = Status.success;
      port = p;
      completed = record irp { status = Status.success } ∷ [];
    }
    else if not (nt_success lock)
    then record { result = lock; port = p; completed = record irp { status = lock } ∷ [] }
    else record {
      result = Status.success;
      port = release (record (acquire p) { read_queue = []; write_queue = []; wait_irp = none });
      completed =
          cancel_all p.read_queue
          ++ (cancel_all p.write_queue
              ++ (cancel_wait p.wait_irp ++ (finish Status.success 0 irp ∷ [])));
    }

module _ (dev : Device) where
  -- Past the lock: the port is started, is not open, and its channel is set up.
  unfoldable pub create_locked : Irp → Port → Bus Outcome
  create_locked irp p =
      if not (is_started p.pnp_state)
      then pure (done Status.device_not_ready irp p)
      else if p.is_open
      then pure (done Status.access_denied irp p)
      else (do
        p' ← init_channel dev p
        pure (done Status.success irp (record p' { is_open = true })))

  -- `CyDispatchCreate`
  unfoldable pub dispatch_create : Status → Irp → Port → Bus Outcome
  dispatch_create lock irp p =
      if p.is_fdo
      then pure (record {
        result = Status.invalid_device_request;
        port = p;
        completed = finish Status.invalid_device_request 0 irp ∷ [];
      })
      else if not (nt_success lock)
      then pure (record { result = lock; port = p; completed = record irp { status = lock } ∷ [] })
      else create_locked irp (acquire p)

  -- `CyDispatchClose`, which takes no lock
  unfoldable pub dispatch_close : Irp → Port → Bus Outcome
  dispatch_close irp p =
      if p.is_fdo
      then pure (record {
        result = Status.success;
        port = p;
        completed = record irp { status = Status.success } ∷ [];
      })
      else (do
        p' ← (if p.is_open then shutdown_channel dev p else pure p)
        pure (record {
          result = Status.success;
          port = record p' { is_open = false };
          completed = finish Status.success 0 irp ∷ [];
        }))
