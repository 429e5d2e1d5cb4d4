-- ===== src/Loopback/System.antt =====
-- The calls of Windows that fossil/cyclades/test/cyloopback.c makes on a serial port. Each is answered
-- by a function of all calls so far, so every behaviour of driver and cable is some `Line`.
pub use netmodem2irc.Base.Logged.{pure, ◌>>=◌, ◌>>◌}
use netmodem2irc.Base.Logged.{Logged}
use netmodem2irc.Base.{ℕ, Bool, Option, List, ◌∷◌}

-- A call whose result is a BOOL; the functions of EscapeCommFunction; reading the settings into a
-- DCB, GetCommModemStatus, and a transfer of bytes. `set_rate` and `set_7e1` are SetCommState.
pub data Call : Type 0 where
  open_port set_state get_state set_timeouts purge sleep close_port : Call
  set_dtr clear_dtr set_rts clear_rts get_modem_status : Call
  get_properties set_7e1 set_8n1 purge_all clear_error : Call
  set_rate : ℕ → Call
  write : List ℕ → Call
  read : ℕ → Call

abbrev pub Calls : Type 0
Calls = List Call

-- `read_bytes` is `none` where ReadFile fails, and `written` where WriteFile does. `settings` are
-- ByteSize and whether Parity is EVENPARITY; `dsr_on` and `cts_on` the bits of the modem status.
pub record Line : Type 0 where
  pub succeeds : Calls → Call → Bool
  pub written : Calls → List ℕ → Option ℕ
  pub read_bytes : Calls → ℕ → Option (List ℕ)
  pub settings : Calls → ℕ × Bool
  pub dsr_on : Calls → Bool
  pub cts_on : Calls → Bool

abbrev pub Io {ℓ} : Type ℓ → Type ℓ
Io A = Logged Calls A

module _ (line : Line) where
  -- A call with its BOOL.
  abbrev pub call : Call → Io Bool
  call c l = (line.succeeds l c, c ∷ l)

  abbrev pub write_file : List ℕ → Io (Option ℕ)
  write_file bytes l = (line.written l bytes, Call.write bytes ∷ l)

  abbrev pub read_file : ℕ → Io (Option (List ℕ))
  read_file n l = (line.read_bytes l n, Call.read n ∷ l)

  abbrev pub get_settings : Io (ℕ × Bool)
  get_settings l = (line.settings l, Call.get_state ∷ l)

  abbrev pub get_dsr : Io Bool
  get_dsr l = (line.dsr_on l, Call.get_modem_status ∷ l)

  abbrev pub get_cts : Io Bool
  get_cts l = (line.cts_on l, Call.get_modem_status ∷ l)
