-- ===== src/Ioctl/Flow.antt =====
-- Flow control: SERIAL_HANDFLOW into COR2, the XON and XOFF characters, and their handlers.
use netmodem2irc.Base.{ℕ, [], ltb, ◌==◌, if◌then◌else◌, has_bits, set_bits, masked}
use netmodem2irc.Cd1400
use netmodem2irc.Bus.{Device, Bus, pure, ◌>>◌, write_reg, select_channel}
use netmodem2irc.Port.{
  Port, Irp, Status, HandFlow, Chars, cts_handshake, auto_transmit, rts_mask, rts_handshake,
}
use netmodem2irc.Ioctl.Bytes.{hand_flow_of, hand_flow_bytes, chars_of, chars_bytes, put}
use netmodem2irc.Ioctl.Switch.{Handled, refused, accepted}

-- The COR2 value of SET_HANDFLOW.
unfoldable pub cor2_of : HandFlow → ℕ
cor2_of h =
    let cts_ae : ℕ =
      if has_bits h.control_handshake cts_handshake then set_bits 0 Cd1400.cts_ae else 0 in
    let rts_ao : ℕ =
      if masked h.flow_replace rts_mask == rts_handshake
      then set_bits cts_ae Cd1400.rts_ao
      else cts_ae in
    if has_bits h.flow_replace auto_transmit then set_bits rts_ao 0x40 else rts_ao

-- IOCTL_SERIAL_GET_HANDFLOW
unfoldable pub get_handflow : ℕ → Irp → Port → Handled
get_handflow out_len irp p =
    if ltb out_len 16
    then refused Status.buffer_too_small irp p
    else Handled.answered Status.success 16 (put (hand_flow_bytes p.hand_flow) irp) p []

-- IOCTL_SERIAL_GET_CHARS
unfoldable pub get_chars : ℕ → Irp → Port → Handled
get_chars out_len irp p =
    if ltb out_len 6
    then refused Status.buffer_too_small irp p
    else Handled.answered Status.success 6 (put (chars_bytes p.special_chars) irp) p []

module _ (dev : Device) where
  -- `CySyncSetCor2`
  unfoldable pub sync_set_cor2 : ℕ → Port → Bus (Unit {0})
  sync_set_cor2 cor2 p = do
    select_channel dev p.chip_base p.channel
    write_reg dev p.chip_base Cd1400.cor2 cor2
    write_reg dev p.chip_base Cd1400.ccr (set_bits Cd1400.cor_change Cd1400.cor2_ch)

  -- IOCTL_SERIAL_SET_HANDFLOW
  unfoldable pub set_handflow : ℕ → Irp → Port → Bus Handled
  set_handflow in_len irp p =
      if ltb in_len 16 then pure (refused Status.buffer_too_small irp p) else (do
        sync_set_cor2 (cor2_of (hand_flow_of irp.buffer)) p
        pure (accepted irp (record p { hand_flow = hand_flow_of irp.buffer })))

  -- `CySyncSetSpecialChars`
  unfoldable pub sync_set_special_chars : Chars → Port → Bus (Unit {0})
  sync_set_special_chars chars p = do
    select_channel dev p.chip_base p.channel
    write_reg dev p.chip_base Cd1400.schr1 chars.xon_char
    write_reg dev p.chip_base Cd1400.schr2 chars.xoff_char

  -- IOCTL_SERIAL_SET_CHARS
  unfoldable pub set_chars : ℕ → Irp → Port → Bus Handled
  set_chars in_len irp p =
      if ltb in_len 6 then pure (refused Status.buffer_too_small irp p) else (do
        sync_set_special_chars (chars_of irp.buffer) p
        pure (accepted irp (record p { special_chars = chars_of irp.buffer })))
