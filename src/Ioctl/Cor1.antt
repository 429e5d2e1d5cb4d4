-- ===== src/Ioctl/Cor1.antt =====
-- `CyBuildCor1` against the chip's reading of COR1.
use netmodem2irc.Base.{
  ℕ, ◌+◌, ◌/◌, ◌%◌, ◌≡◌, Bool, ◌&&◌, Option, some, none, leb, ◌==◌, if◌then◌else◌, set_bits, arith,
}
use netmodem2irc.Port.{LineControl}
use netmodem2irc.Ioctl.Line.{word_bits, stop_bits, parity_bits, build_cor1}

-- What the bits of COR1 mean: the word length in bits 0 and 1, the stop bits in 2 and 3, and in 5
-- to 7 the parity, as SERIAL_LINE_CONTROL numbers it.
abbrev pub cor1_parity : ℕ → ℕ
cor1_parity c =
    if c == 6 then 1 else if c == 2 then 2 else if c == 5 then 3 else if c == 1 then 4 else 0

abbrev pub cor1_line : Option ℕ → Option LineControl
cor1_line none = none
cor1_line (some c) =
    some
      (record { stop_bits = c / 4 % 4; parity = cor1_parity (c / 32 % 8); word_length = 5 + c % 4 })

-- The settings that SERIAL_LINE_CONTROL can ask for.
abbrev pub is_setting : LineControl → Bool
is_setting l = leb 5 l.word_length && (leb l.word_length 8 && (leb l.stop_bits 2 && leb l.parity 4))

-- The COR1 value of a setting with 5 to 8 data bits, 1, 1.5 or 2 stop bits and one of the five
-- parities reads back as that setting; every other one is refused.
pub build_cor1_lem :
    (l : LineControl) → cor1_line (build_cor1 l) ≡ (if is_setting l then some l else none)
unfolding build_cor1 word_bits stop_bits parity_bits set_bits
build_cor1_lem l = ground arith
