-- ===== src/Linux/Descriptors.antt =====
-- `ASYNC_INIT` and `ASYNC_CLOSECOM` keep the descriptors that they open accounted for.
use netmodem2irc.Base.{
  ℕ, ◌+◌, ◌≡◌, refl, Bool, true, false, not, inr, ◌⊎◌, ◌==◌, Option, some, none, [], ◌∷◌,
  if◌then◌else◌, arith,
}
use netmodem2irc.Linux.System.{ℤ, pos, negsuc, is_neg, to_nat, Call, Calls, Os}
use netmodem2irc.Linux.{
  Comm, async_init, init_from, init_socket, init_accept, init_connect, async_closecom,
}

abbrev one_if : Bool → ℕ
one_if true = 1
one_if false = 0

-- Whether a descriptor, or a negative result, is the descriptor `d`.
abbrev pub is_fd : ℕ → ℤ → Bool
is_fd d fd = if is_neg fd then false else to_nat fd == d

-- How often the calls have opened the descriptor `d`, and how often they have closed it.
abbrev pub opened : ℕ → Calls → ℕ
opened d [] = 0
opened d (c ∷ calls) =
    let earlier : ℕ = opened d calls in
    elim c [
      | Call.socket r ↦ earlier + one_if (is_fd d r)
      | Call.accept fd r ↦ earlier + one_if (is_fd d r)
      | _ ↦ earlier
    ]

abbrev pub num_closed : ℕ → Calls → ℕ
num_closed d [] = 0
num_closed d (c ∷ calls) =
    let earlier : ℕ = num_closed d calls in
    elim c [ Call.close fd ↦ earlier + one_if (is_fd d fd) | _ ↦ earlier ]

-- From `l` to `l'`, the descriptor `d` was closed as often as it was opened, or `n` times less.
abbrev pub LeavesOpen : ℕ → ℕ → Calls → Calls → Type 0
LeavesOpen d n l l' = opened d l' + num_closed d l ≡ opened d l + num_closed d l' + n

-- What `ASYNC_INIT` leaves where the descriptor is not inherited: on 0 a carrier on a descriptor,
-- which is the one descriptor left open; on -1 the flags as they were and none left open.
pub record Opens (d : ℕ) (c : Comm) (l : Calls) (res : (ℤ × Comm) × Calls) : Type 0 where
  pub coded : (res.0.0 ≡ pos 0) ⊎ (res.0.0 ≡ negsuc 0)
  pub carrier : (if is_neg res.0.0 then c.cd_okay else 1) ≡ res.0.1.cd_okay
  pub kept : LeavesOpen d (if is_neg res.0.0 then 0 else one_if (is_fd d res.0.1.comm_fd)) l res.1
  pub backed : is_neg res.0.0 ≡ false → is_neg res.0.1.comm_fd ≡ false

module _ (os : Os) (d : ℕ) (c : Comm) (l : Calls) where
  init_connect-Opens : (port : Option ℤ) → Opens d c l (init_connect os port c l)
  unfolding init_connect
  init_connect-Opens none = record {
    coded = inr refl;
    carrier = refl;
    kept = omega arith;
    backed = λ e. absurd (ground (arith, e));
  }
  init_connect-Opens (some port) = ground arith

  init_accept-Opens : (port : ℤ) → Opens d c l (init_accept os port c l)
  unfolding init_accept
  init_accept-Opens port = ground arith

  init_socket-Opens : (port : Option ℤ) → Opens d c l (init_socket os port c l)
  unfolding init_socket
  init_socket-Opens none = init_connect-Opens os.nmport
  init_socket-Opens (some port) = init_accept-Opens port

-- PCBFD holds a descriptor.
abbrev pub inherits : Option ℤ → Bool
inherits none = false
inherits (some fd) = not (is_neg fd)

module _ (os : Os) (d : ℕ) where
  init_from-Opens :
      (fd : Option ℤ) (c : Comm) (l : Calls)
      → inherits fd ≡ false
      → Opens d c l (init_from os fd c l)
  unfolding init_from
  init_from-Opens none c l own = init_socket-Opens os d c l os.pcbport
  init_from-Opens (some fd) c l own =
      let socket = init_socket-Opens os d (record c { comm_fd = fd }) l os.pcbport in
      ground (arith, own, socket)

  -- Where PCBFD holds no descriptor, `ASYNC_INIT` returns 0 or -1, whatever the system answers: on 0
  -- there is a carrier on a descriptor that is not negative, the one descriptor that it opened and
  -- did not close; on -1 CDokay is as before, and each descriptor is closed as often as it is opened.
  pub async_init-Opens :
      (c : Comm) (l : Calls) → inherits os.pcbfd ≡ false → Opens d c l (async_init os c l)
  unfolding async_init
  async_init-Opens c l own = init_from-Opens os.pcbfd c l own

  init_connect-failed :
      (port : Option ℤ) (c : Comm) (l : Calls)
      → is_neg c.comm_fd ≡ true
      → is_neg (init_connect os port c l).0.0 ≡ is_neg (init_connect os port c l).0.1.comm_fd
  unfolding init_connect
  init_connect-failed none c l e = ground (arith, e)
  init_connect-failed (some port) c l e = ground (arith, e)

  init_accept-failed :
      (port : ℤ) (c : Comm) (l : Calls)
      → is_neg c.comm_fd ≡ true
      → is_neg (init_accept os port c l).0.0 ≡ is_neg (init_accept os port c l).0.1.comm_fd
  unfolding init_accept
  init_accept-failed port c l e = ground (arith, e)

  init_socket-failed :
      (port : Option ℤ) (c : Comm) (l : Calls)
      → is_neg c.comm_fd ≡ true
      → is_neg (init_socket os port c l).0.0 ≡ is_neg (init_socket os port c l).0.1.comm_fd
  unfolding init_socket
  init_socket-failed none c l e = init_connect-failed os.nmport c l e
  init_socket-failed (some port) c l e = init_accept-failed port c l e

  init_from-failed :
      (fd : Option ℤ) (c : Comm) (l : Calls)
      → is_neg c.comm_fd ≡ true
      → inherits fd ≡ false
      → is_neg (init_from os fd c l).0.0 ≡ is_neg (init_from os fd c l).0.1.comm_fd
  unfolding init_from
  init_from-failed none c l e own = init_socket-failed os.pcbport c l e
  init_from-failed (some fd) c l e own =
      ground (arith, own, init_socket-failed os.pcbport (record c { comm_fd = fd }) l)

  closecom-LeavesOpen :
      (c : Comm) (l : Calls)
      → num_closed d (async_closecom os c l).1 ≡ num_closed d l + one_if (is_fd d c.comm_fd)
        × (opened d (async_closecom os c l).1 ≡ opened d l)
  unfolding async_closecom
  closecom-LeavesOpen c l = ground arith

  -- Where PCBFD holds no descriptor and the channel is closed, `ASYNC_INIT` and then
  -- `ASYNC_CLOSECOM` close each descriptor as often as they opened it, whether the first succeeds or
  -- fails.
  pub async_closecom-async_init :
      (c : Comm) (l : Calls)
      → is_neg c.comm_fd ≡ true
      → inherits os.pcbfd ≡ false
      → LeavesOpen d 0 l (async_closecom os (async_init os c l).0.1 (async_init os c l).1).1
  unfolding async_init
  async_closecom-async_init c l e own =
      let first = async_init-Opens c l own in
      let same : is_neg (async_init os c l).0.0 ≡ is_neg (async_init os c l).0.1.comm_fd =
        init_from-failed os.pcbfd c l e own in
      let last = closecom-LeavesOpen (async_init os c l).0.1 (async_init os c l).1 in
      ground (arith, first.kept, last.0, last.1, same)
