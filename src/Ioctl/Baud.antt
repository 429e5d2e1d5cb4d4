-- ===== src/Ioctl/Baud.antt =====
-- The baud rates: the two tables of cyioctl.c, the look-up, and the handlers that use them.
use netmodem2irc.Base.{ℕ, Bool, Option, some, none, List, [], ◌∷◌, ltb, ◌==◌, if◌then◌else◌}
use netmodem2irc.Cd1400
use netmodem2irc.Bus.{Device, Bus, pure, ◌>>◌, write_reg, select_channel}
use netmodem2irc.Port.{Port, Irp, Status}
use netmodem2irc.Ioctl.Bytes.{ulong_at, ulong_bytes, put}
use netmodem2irc.Ioctl.Switch.{Handled, refused, accepted}

-- `CY_BAUD_ENTRY`
pub record BaudEntry : Type 0 where
  pub baud : ℕ
  pub clock_opt : ℕ
  pub baud_period : ℕ

abbrev entry : ℕ → ℕ → ℕ → BaudEntry
entry b c p = record { baud = b; clock_opt = c; baud_period = p }

-- `CyBaudTable25MHz`, less its end mark
unfoldable pub baud_table_25mhz : List BaudEntry
baud_table_25mhz =
    entry 50 0x04 0xF5
    ∷ entry 75 0x04 0xA3
    ∷ entry 110 0x04 0x6F
    ∷ entry 134 0x04 0x5C
    ∷ entry 150 0x04 0x51
    ∷ entry 200 0x04 0x41
    ∷ entry 300 0x03 0xF5
    ∷ entry 600 0x03 0xA3
    ∷ entry 1200 0x03 0x51
    ∷ entry 1800 0x02 0xA3
    ∷ entry 2400 0x02 0x6D
    ∷ entry 4800 0x02 0x51
    ∷ entry 9600 0x01 0xA3
    ∷ entry 19200 0x01 0x51
    ∷ entry 38400 0x00 0xA3
    ∷ entry 57600 0x00 0x51
    ∷ entry 76800 0x00 0x36
    ∷ entry 115200 0x00 0x1B
    ∷ []

-- `CyBaudTable60MHz`, less its end mark
unfoldable pub baud_table_60mhz : List BaudEntry
baud_table_60mhz =
    entry 50 0x00 0x00
    ∷ entry 75 0x00 0x82
    ∷ entry 110 0x00 0x21
    ∷ entry 134 0x04 0xFF
    ∷ entry 150 0x04 0xDB
    ∷ entry 200 0x04 0xC3
    ∷ entry 300 0x04 0x92
    ∷ entry 600 0x04 0x62
    ∷ entry 1200 0x03 0xC3
    ∷ entry 1800 0x03 0x62
    ∷ entry 2400 0x03 0x41
    ∷ entry 4800 0x02 0xC3
    ∷ entry 9600 0x02 0x62
    ∷ entry 19200 0x01 0xC3
    ∷ entry 38400 0x01 0x62
    ∷ entry 57600 0x00 0xC3
    ∷ entry 76800 0x00 0x82
    ∷ entry 115200 0x00 0x62
    ∷ entry 150000 0x00 0x41
    ∷ entry 230400 0x00 0x32
    ∷ []

-- The loop of `CyLookupBaud`
unfoldable pub find_baud : ℕ → List BaudEntry → Option BaudEntry
find_baud rate [] = none
find_baud rate (e ∷ table) = if e.baud == rate then some e else find_baud rate table

-- `CyLookupBaud`
unfoldable pub lookup_baud : Bool → ℕ → Option BaudEntry
lookup_baud is_60mhz rate =
    if is_60mhz then find_baud rate baud_table_60mhz else find_baud rate baud_table_25mhz

-- IOCTL_SERIAL_GET_BAUD_RATE
unfoldable pub get_baud_rate : ℕ → Irp → Port → Handled
get_baud_rate out_len irp p =
    if ltb out_len 4
    then refused Status.buffer_too_small irp p
    else Handled.answered Status.success 4 (put (ulong_bytes p.baud_rate) irp) p []

module _ (dev : Device) where
  -- `CySyncSetBaud`
  unfoldable pub sync_set_baud : BaudEntry → Port → Bus (Unit {0})
  sync_set_baud e p = do
    select_channel dev p.chip_base p.channel
    write_reg dev p.chip_base Cd1400.tcor e.clock_opt
    write_reg dev p.chip_base Cd1400.tbpr e.baud_period
    write_reg dev p.chip_base Cd1400.rcor e.clock_opt
    write_reg dev p.chip_base Cd1400.rbpr e.baud_period

  -- What follows the look-up.
  unfoldable pub apply_baud : ℕ → Irp → Port → Option BaudEntry → Bus Handled
  apply_baud rate irp p none = pure (refused Status.invalid_parameter irp p)
  apply_baud rate irp p (some e) = do
    sync_set_baud e p
    pure (accepted irp (record p { baud_rate = rate }))

  -- IOCTL_SERIAL_SET_BAUD_RATE
  unfoldable pub set_baud_rate : ℕ → Irp → Port → Bus Handled
  set_baud_rate in_len irp p =
      if ltb in_len 4
      then pure (refused Status.buffer_too_small irp p)
      else apply_baud (ulong_at irp.buffer 0) irp p (lookup_baud p.is_60mhz (ulong_at irp.buffer 0))
