-- ===== src/Ioctl/Line.antt =====
-- The line settings: COR1 from SERIAL_LINE_CONTROL, breaks, and the handlers that set them.
use netmodem2irc.Base.{ℕ, Bool, Option, some, none, [], ltb, ◌==◌, if◌then◌else◌, set_bits}
use netmodem2irc.Cd1400
use netmodem2irc.Bus.{Device, Bus, pure, ◌>>◌, write_reg, select_channel}
use netmodem2irc.Port.{Port, Irp, Status, LineControl}
use netmodem2irc.Ioctl.Bytes.{line_control_of, line_control_bytes, put}
use netmodem2irc.Ioctl.Switch.{Handled, refused, accepted}

-- The three switches of `CyBuildCor1`.
unfoldable pub word_bits : ℕ → Option ℕ
word_bits len =
    if len == 5
    then some Cd1400.bits_5
    else if len == 6
    then some Cd1400.bits_6
    else if len == 7
    then some Cd1400.bits_7
    else if len == 8
    then some Cd1400.bits_8
    else none

-- STOP_BIT_1, STOP_BITS_1_5, STOP_BITS_2
unfoldable pub stop_bits : ℕ → Option ℕ
stop_bits stop =
    if stop == 0
    then some Cd1400.stop_1
    else if stop == 1
    then some Cd1400.stop_1_5
    else if stop == 2
    then some Cd1400.stop_2
    else none

-- NO_PARITY, ODD_PARITY, EVEN_PARITY, MARK_PARITY, SPACE_PARITY
unfoldable pub parity_bits : ℕ → Option ℕ
parity_bits parity =
    if parity == 0
    then some Cd1400.parity_none
    else if parity == 1
    then some Cd1400.parity_o
    else if parity == 2
    then some Cd1400.parity_e
    else if parity == 3
    then some Cd1400.parity_1
    else if parity == 4
    then some Cd1400.parity_0
    else none

abbrev bind : Option ℕ → (ℕ → Option ℕ) → Option ℕ
bind none k = none
bind (some v) k = k v

-- `CyBuildCor1`: nothing for STATUS_INVALID_PARAMETER
unfoldable pub build_cor1 : LineControl → Option ℕ
build_cor1 l = bind (word_bits l.word_length) (λ w.
    bind (stop_bits l.stop_bits)
      (λ s. bind (parity_bits l.parity) (λ q. some (set_bits (set_bits w s) q))))

-- IOCTL_SERIAL_GET_LINE_CONTROL
unfoldable pub get_line_control : ℕ → Irp → Port → Handled
get_line_control out_len irp p =
    if ltb out_len 3
    then refused Status.buffer_too_small irp p
    else Handled.answered Status.success 3 (put (line_control_bytes p.line_control) irp) p []

module _ (dev : Device) where
  -- `CySyncSetLine`
  unfoldable pub sync_set_line : ℕ → Port → Bus (Unit {0})
  sync_set_line cor1 p = do
    select_channel dev p.chip_base p.channel
    write_reg dev p.chip_base Cd1400.cor1 cor1
    write_reg dev p.chip_base Cd1400.ccr (set_bits Cd1400.cor_change Cd1400.cor1_ch)

  -- What follows `CyBuildCor1`.
  unfoldable pub apply_line : LineControl → Irp → Port → Option ℕ → Bus Handled
  apply_line l irp p none = pure (refused Status.invalid_parameter irp p)
  apply_line l irp p (some cor1) = do
    sync_set_line cor1 p
    pure (accepted irp (record p { line_control = l }))

  -- IOCTL_SERIAL_SET_LINE_CONTROL
  unfoldable pub set_line_control : ℕ → Irp → Port → Bus Handled
  set_line_control in_len irp p =
      if ltb in_len 3
      then pure (refused Status.buffer_too_small irp p)
      else apply_line (line_control_of irp.buffer) irp p (build_cor1 (line_control_of irp.buffer))

  -- `CySyncSetBreak`
  unfoldable pub sync_set_break : Bool → Port → Bus (Unit {0})
  sync_set_break break_on p = do
    select_channel dev p.chip_base p.channel
    write_reg dev p.chip_base Cd1400.ccr
        (if break_on then Cd1400.send_spec_1 else Cd1400.send_spec_2)

  -- IOCTL_SERIAL_SET_BREAK_ON, IOCTL_SERIAL_SET_BREAK_OFF
  unfoldable pub set_break : Bool → Irp → Port → Bus Handled
  set_break break_on irp p = do sync_set_break break_on p; pure (accepted irp p)
