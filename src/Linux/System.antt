-- ===== src/Linux/System.antt =====
-- The system calls that fossil/linux/async_linux.c makes. The system answers each as a function of
-- all calls so far, so every behaviour of it is some `Os`.
pub use netmodem2irc.Base.Logged.{pure, ◌>>=◌, ◌>>◌}
use netmodem2irc.Base.Logged.{Logged}
use netmodem2irc.Base.{ℕ, ◌-◌, ◌%◌, ◌^◌, Bool, true, false, Option, List, ◌∷◌, ◌==◌}

-- A C int: `pos n` is n and `negsuc n` is -(n + 1).
pub data ℤ : Type 0 where
  pos negsuc : ℕ → ℤ

abbrev pub is_neg : ℤ → Bool
is_neg (pos n) = false
is_neg (negsuc n) = true

-- How far above 0 a number is.
abbrev pub to_nat : ℤ → ℕ
to_nat (pos n) = n
to_nat (negsuc n) = 0

abbrev pub is_zero : ℤ → Bool
is_zero (pos n) = n == 0
is_zero (negsuc n) = false

-- A conversion to the 32-bit size_t.
abbrev pub size_t : ℤ → ℕ
size_t (pos n) = n % 2 ^ 32
size_t (negsuc n) = (2 ^ 32 - 1) - n % 2 ^ 32

-- A call and its result; the read of the text has its count and the write its bytes.
pub data Call : Type 0 where
  socket : ℤ → Call
  bind connect : ℤ → ℤ → ℤ → Call
  listen : ℤ → Call
  accept : ℤ → ℤ → Call
  close shutdown : ℤ → Call
  select : ℤ → ℕ → ℤ → Call
  read : ℤ → ℕ → ℤ → Call
  write : ℤ → List ℕ → ℤ → Call
  recv : ℤ → ℤ → Call

abbrev pub Calls : Type 0
Calls = List Call

-- The answers: `atoi` of the variables PCBFD, PCBPORT and NMPORT where they are set, and what the
-- calls return. A read also says which bytes it stores. A select gets its wait in microseconds.
pub record Os : Type 0 where
  pub pcbfd : Option ℤ
  pub pcbport : Option ℤ
  pub nmport : Option ℤ
  pub on_socket : Calls → ℤ
  pub on_bind : Calls → ℤ → ℤ → ℤ
  pub on_accept : Calls → ℤ → ℤ
  pub on_connect : Calls → ℤ → ℤ → ℤ
  pub on_select : Calls → ℤ → ℕ → ℤ
  pub on_read : Calls → ℤ → ℕ → ℤ × List ℕ
  pub on_write : Calls → ℤ → List ℕ → ℤ
  pub on_recv : Calls → ℤ → ℤ

-- A routine that makes calls: the calls so far, newest first, are its state.
abbrev pub Io {ℓ} : Type ℓ → Type ℓ
Io A = Logged Calls A

-- A call whose result is not used.
abbrev pub tell : Call → Io (Unit {0})
tell c l = (tt, c ∷ l)

module _ (os : Os) where
  abbrev pub open_socket : Io ℤ
  open_socket l = (os.on_socket l, Call.socket (os.on_socket l) ∷ l)

  abbrev pub bind_to : ℤ → ℤ → Io ℤ
  bind_to fd port l = (os.on_bind l fd port, Call.bind fd port (os.on_bind l fd port) ∷ l)

  abbrev pub accept_on : ℤ → Io ℤ
  accept_on fd l = (os.on_accept l fd, Call.accept fd (os.on_accept l fd) ∷ l)

  abbrev pub connect_to : ℤ → ℤ → Io ℤ
  connect_to fd port l =
      (os.on_connect l fd port, Call.connect fd port (os.on_connect l fd port) ∷ l)

  abbrev pub wait_for : ℤ → ℕ → Io ℤ
  wait_for fd usec l = (os.on_select l fd usec, Call.select fd usec (os.on_select l fd usec) ∷ l)

  abbrev pub read_from : ℤ → ℕ → Io (ℤ × List ℕ)
  read_from fd n l = (os.on_read l fd n, Call.read fd n (os.on_read l fd n).0 ∷ l)

  abbrev pub write_to : ℤ → List ℕ → Io ℤ
  write_to fd bytes l = (os.on_write l fd bytes, Call.write fd bytes (os.on_write l fd bytes) ∷ l)

  abbrev pub peek : ℤ → Io ℤ
  peek fd l = (os.on_recv l fd, Call.recv fd (os.on_recv l fd) ∷ l)
