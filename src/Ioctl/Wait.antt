-- ===== src/Ioctl/Wait.antt =====
-- Event waits: the mask, the history of events and the one IRP that may wait for an event.
use netmodem2irc.Base.{ℕ, Option, some, none, List, [], ◌∷◌, ltb, if◌then◌else◌, has_bits, masked}
use netmodem2irc.Port.{Port, Irp, Status, finish}
use netmodem2irc.Ioctl.Bytes.{ulong_at, ulong_bytes, put}
use netmodem2irc.Ioctl.Switch.{Handled, refused}

-- What SET_WAIT_MASK does with an IRP that waits: it succeeds with no events.
unfoldable pub dismiss : Option Irp → List Irp
dismiss none = []
dismiss (some waiter) = finish Status.success 4 (put (ulong_bytes 0) waiter) ∷ []

-- IOCTL_SERIAL_SET_WAIT_MASK
unfoldable pub set_wait_mask : ℕ → Irp → Port → Handled
set_wait_mask in_len irp p =
    if ltb in_len 4
    then refused Status.buffer_too_small irp p
    else Handled.answered Status.success 0 irp
        (record p { wait_irp = none; wait_mask = ulong_at irp.buffer 0; event_history = 0 })
        (dismiss p.wait_irp)

-- IOCTL_SERIAL_GET_WAIT_MASK
unfoldable pub get_wait_mask : ℕ → Irp → Port → Handled
get_wait_mask out_len irp p =
    if ltb out_len 4
    then refused Status.buffer_too_small irp p
    else Handled.answered Status.success 4 (put (ulong_bytes p.wait_mask) irp) p []

-- WAIT_ON_MASK past its checks: WaitIrp decides.
unfoldable pub wait_on : Option Irp → Irp → Port → Handled
wait_on (some waiter) irp p = refused Status.invalid_parameter irp p
wait_on none irp p =
    if has_bits p.event_history p.wait_mask
    then Handled.answered Status.success 4
        (put (ulong_bytes (masked p.event_history p.wait_mask)) irp)
        (record p { event_history = 0 }) []
    else Handled.pended (record p { wait_irp = some irp })

-- IOCTL_SERIAL_WAIT_ON_MASK
unfoldable pub wait_on_mask : ℕ → Irp → Port → Handled
wait_on_mask out_len irp p =
    if ltb out_len 4 then refused Status.buffer_too_small irp p else wait_on p.wait_irp irp p
