-- ===== src/Ioctl/Modem.antt =====
-- The modem lines: DTR and RTS, and the inputs that GET_MODEMSTATUS reports.
use netmodem2irc.Base.{ℕ, Bool, [], ltb, if◌then◌else◌, has_bits, set_bits, clear_bits}
use netmodem2irc.Cd1400
use netmodem2irc.Bus.{Device, Bus, pure, ◌>>=◌, ◌>>◌, read_reg, write_reg, select_channel}
use netmodem2irc.Port.{Port, Irp, Status, dtr_state, rts_state, msr_cts, msr_dsr, msr_ri, msr_dcd}
use netmodem2irc.Ioctl.Bytes.{ulong_bytes, put}
use netmodem2irc.Ioctl.Switch.{Handled, refused, accepted}

abbrev add_if : Bool → ℕ → ℕ → ℕ
add_if b bit v = if b then set_bits v bit else v

-- `CyMsvrToModemStatus`, whose second argument is not used
unfoldable pub msvr_to_modem_status : ℕ → ℕ
msvr_to_modem_status msvr = add_if (has_bits msvr Cd1400.dcd) msr_dcd (
    add_if (has_bits msvr Cd1400.ri) msr_ri
      (add_if (has_bits msvr Cd1400.dsr) msr_dsr (add_if (has_bits msvr Cd1400.cts) msr_cts 0)))

-- `msvrValue`, from ModemControl
unfoldable pub msvr_value : ℕ → ℕ
msvr_value control =
    add_if (has_bits control rts_state) Cd1400.rts
      (add_if (has_bits control dtr_state) Cd1400.dtr 0)

-- The new ModemControl of SET_DTR, CLR_DTR, SET_RTS and CLR_RTS: the flag, and whether it is set
unfoldable pub modem_control_with : ℕ → Bool → ℕ → ℕ
modem_control_with flag on control = if on then set_bits control flag else clear_bits control flag

module _ (dev : Device) where
  -- `CySyncSetModem`
  unfoldable pub sync_set_modem : ℕ → Port → Bus (Unit {0})
  sync_set_modem value p = do
    select_channel dev p.chip_base p.channel
    write_reg dev p.chip_base Cd1400.msvr1 value
    write_reg dev p.chip_base Cd1400.msvr2 value

  -- IOCTL_SERIAL_SET_DTR, CLR_DTR, SET_RTS, CLR_RTS
  unfoldable pub set_modem : ℕ → Bool → Irp → Port → Bus Handled
  set_modem flag on irp p = do
    let control : ℕ = modem_control_with flag on p.modem_control
    sync_set_modem (msvr_value control) p
    pure (accepted irp (record p { modem_control = control }))

  -- `CySyncReadMSVR`
  unfoldable pub sync_read_msvr : Port → Bus ℕ
  sync_read_msvr p = do
    select_channel dev p.chip_base p.channel
    msvr1 ← read_reg dev p.chip_base Cd1400.msvr1
    msvr2 ← read_reg dev p.chip_base Cd1400.msvr2
    pure (set_bits msvr1 msvr2)

  -- IOCTL_SERIAL_GET_MODEMSTATUS
  unfoldable pub get_modem_status : ℕ → Irp → Port → Bus Handled
  get_modem_status out_len irp p =
      if ltb out_len 4 then pure (refused Status.buffer_too_small irp p) else (do
        msvr ← sync_read_msvr p
        pure (
            Handled.answered Status.success 4 (put (ulong_bytes (msvr_to_modem_status msvr)) irp) p
              []))
