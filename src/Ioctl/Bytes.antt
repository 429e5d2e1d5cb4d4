-- ===== src/Ioctl/Bytes.antt =====
-- The system buffer of a METHOD_BUFFERED request: ULONGs, little endian, and the structures of
-- ntddser.h that the handlers overlay on it.
use netmodem2irc.Base.{ℕ, ◌+◌, ◌*◌, ◌/◌, ◌%◌, List, [], ◌∷◌, ◌++◌, length, get_or, drop}
use netmodem2irc.Port.{Irp, LineControl, HandFlow, Chars, Timeouts, Stats}

-- `((PUCHAR)sysBuf)[i]`
abbrev pub uchar_at : List ℕ → ℕ → ℕ
uchar_at buf i = get_or buf i 0

-- `((PULONG)sysBuf)[i]`
unfoldable pub ulong_at : List ℕ → ℕ → ℕ
ulong_at buf i =
    get_or buf (4 * i) 0
    + 256 * get_or buf (4 * i + 1) 0
    + 65536 * get_or buf (4 * i + 2) 0
    + 16777216 * get_or buf (4 * i + 3) 0

unfoldable pub ulong_bytes : ℕ → List ℕ
ulong_bytes v = v % 256 ∷ v / 256 % 256 ∷ v / 65536 % 256 ∷ v / 16777216 % 256 ∷ []

-- `*(T *)sysBuf = v`, the bytes of `v` being given
abbrev pub put : List ℕ → Irp → Irp
put bytes irp = record irp { buffer = bytes ++ drop (length bytes) irp.buffer }

unfoldable pub line_control_of : List ℕ → LineControl
line_control_of buf = record {
  stop_bits = uchar_at buf 0;
  parity = uchar_at buf 1;
  word_length = uchar_at buf 2;
}

unfoldable pub line_control_bytes : LineControl → List ℕ
line_control_bytes l = l.stop_bits ∷ l.parity ∷ l.word_length ∷ []

unfoldable pub timeouts_of : List ℕ → Timeouts
timeouts_of buf = record {
  read_interval = ulong_at buf 0;
  read_multiplier = ulong_at buf 1;
  read_constant = ulong_at buf 2;
  write_multiplier = ulong_at buf 3;
  write_constant = ulong_at buf 4;
}

unfoldable pub timeouts_bytes : Timeouts → List ℕ
timeouts_bytes t =
    ulong_bytes t.read_interval
    ++ (ulong_bytes t.read_multiplier
        ++ (ulong_bytes t.read_constant
            ++ (ulong_bytes t.write_multiplier ++ ulong_bytes t.write_constant)))

unfoldable pub hand_flow_of : List ℕ → HandFlow
hand_flow_of buf = record {
  control_handshake = ulong_at buf 0;
  flow_replace = ulong_at buf 1;
  xon_limit = ulong_at buf 2;
  xoff_limit = ulong_at buf 3;
}

unfoldable pub hand_flow_bytes : HandFlow → List ℕ
hand_flow_bytes h =
    ulong_bytes h.control_handshake
    ++ (ulong_bytes h.flow_replace ++ (ulong_bytes h.xon_limit ++ ulong_bytes h.xoff_limit))

unfoldable pub chars_of : List ℕ → Chars
chars_of buf = record {
  eof_char = uchar_at buf 0;
  error_char = uchar_at buf 1;
  break_char = uchar_at buf 2;
  event_char = uchar_at buf 3;
  xon_char = uchar_at buf 4;
  xoff_char = uchar_at buf 5;
}

unfoldable pub chars_bytes : Chars → List ℕ
chars_bytes c =
    c.eof_char ∷ c.error_char ∷ c.break_char ∷ c.event_char ∷ c.xon_char ∷ c.xoff_char ∷ []

unfoldable pub stats_bytes : Stats → List ℕ
stats_bytes s =
    ulong_bytes s.received
    ++ (ulong_bytes s.transmitted
        ++ (ulong_bytes s.frame_errors
            ++ (ulong_bytes s.serial_overruns
                ++ (ulong_bytes s.buffer_overruns ++ ulong_bytes s.parity_errors))))
