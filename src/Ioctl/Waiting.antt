-- ===== src/Ioctl/Waiting.antt =====
-- One IRP waits for events at a time, and a new mask lets it go.
use netmodem2irc.Base.{ℕ, ◌≤◌, ◌≡◌, false, some, none, [], ◌∷◌, arith, has_bits}
use netmodem2irc.Port.{Port, Irp, Status, finish}
use netmodem2irc.Ioctl.Bytes.{ulong_at, ulong_bytes, put}
use netmodem2irc.Ioctl.Switch.{Handled}
use netmodem2irc.Ioctl.Wait.{dismiss, set_wait_mask, wait_on, wait_on_mask}

-- The port after a request that was handled.
abbrev pub after : Handled → Port
after (Handled.answered s info irp p others) = p
after (Handled.pended p) = p

-- Where no IRP waits and no event of the mask has happened, WAIT_ON_MASK is pended. A second
-- WAIT_ON_MASK is then refused and leaves the first waiting, and SET_WAIT_MASK completes the first
-- with STATUS_SUCCESS and no events, after which none waits, the mask is the new one and the
-- history is empty. The buffers hold a ULONG.
pub wait_on_mask_once :
    (l m n : ℕ) (first second setter : Irp) (p : Port)
    → 4 ≤ l
    → 4 ≤ m
    → 4 ≤ n
    → p.wait_irp ≡ none
    → has_bits p.event_history p.wait_mask ≡ false
    → let q = after (wait_on_mask l first p) in
      (wait_on_mask l first p ≡ Handled.pended q)
      × (q.wait_irp ≡ some first)
      × (wait_on_mask m second q ≡ Handled.answered Status.invalid_parameter 0 second q [])
      × (set_wait_mask n setter q
          ≡ Handled.answered Status.success 0 setter
              (record p { wait_mask = ulong_at setter.buffer 0; event_history = 0 })
              (finish Status.success 4 (put (ulong_bytes 0) first) ∷ []))
unfolding wait_on_mask wait_on set_wait_mask dismiss
wait_on_mask_once l m n first second setter p hl hm hn free quiet =
    rw free (ground (arith, free, quiet))
