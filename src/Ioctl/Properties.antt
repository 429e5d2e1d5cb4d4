-- ===== src/Ioctl/Properties.antt =====
-- fossil/cyclades/src/cyioctl.c: what IOCTL_SERIAL_GET_PROPERTIES tells of a port. The values of
-- the macros of ntddser.h and the layout of SERIAL_COMMPROP are a parameter, `Ntddser`.
use netmodem2irc.Base.{ℕ, List, [], ◌∷◌, ◌≡◌, length, if◌then◌else◌, set_bits}
use netmodem2irc.Ring.{ring_size}
use netmodem2irc.Port.{Port}

-- The macros of ntddser.h that the handler names.
pub data Macro : Type 0 where
  sp_serialcomm sp_rs232 : Macro
  baud_075 baud_110 baud_150 baud_300 baud_600 baud_1200 baud_1800 baud_2400 : Macro
  baud_4800 baud_9600 baud_19200 baud_38400 baud_57600 baud_115200 baud_user : Macro
  pcf_dtrdsr pcf_rtscts pcf_cd pcf_parity_check pcf_xonxoff : Macro
  pcf_totaltimeouts pcf_inttimeouts : Macro
  sp_parity sp_baud sp_databits sp_stopbits sp_parity_check sp_handshaking : Macro
  databits_5 databits_6 databits_7 databits_8 : Macro
  stopbits_10 stopbits_15 stopbits_20 : Macro
  parity_none parity_odd parity_even parity_mark parity_space : Macro

-- The members of SERIAL_COMMPROP that the handler sets; the others stay zero.
pub record CommProp : Type 0 where
  pub packet_length : ℕ
  packet_version : ℕ
  service_mask : ℕ
  max_tx_queue : ℕ
  max_rx_queue : ℕ
  max_baud : ℕ
  prov_sub_type : ℕ
  prov_capabilities : ℕ
  settable_params : ℕ
  settable_baud : ℕ
  pub settable_data : ℕ
  settable_stop_parity : ℕ
  current_tx_queue : ℕ
  current_rx_queue : ℕ

-- `bytes` is a zeroed SERIAL_COMMPROP after the members have been set.
pub record Ntddser : Type 0 where
  pub flag : Macro → ℕ
  pub sizeof_commprop : ℕ
  pub bytes : CommProp → List ℕ
  pub sized : (c : CommProp) → length (bytes c) ≡ sizeof_commprop

module _ (ser : Ntddser) where
  -- `A | B | ...`
  unfoldable pub flags : List Macro → ℕ
  flags [] = 0
  flags (f ∷ fs) = set_bits (ser.flag f) (flags fs)

  unfoldable pub settable_bauds : ℕ
  settable_bauds = flags (
      Macro.baud_075 ∷ Macro.baud_110 ∷ Macro.baud_150 ∷ Macro.baud_300 ∷ Macro.baud_600
      ∷ Macro.baud_1200 ∷ Macro.baud_1800 ∷ Macro.baud_2400 ∷ Macro.baud_4800 ∷ Macro.baud_9600
      ∷ Macro.baud_19200 ∷ Macro.baud_38400 ∷ Macro.baud_57600 ∷ Macro.baud_115200 ∷ Macro.baud_user
      ∷ [])

  unfoldable pub provider_capabilities : ℕ
  provider_capabilities = flags (
      Macro.pcf_dtrdsr ∷ Macro.pcf_rtscts ∷ Macro.pcf_cd ∷ Macro.pcf_parity_check
      ∷ Macro.pcf_xonxoff ∷ Macro.pcf_totaltimeouts ∷ Macro.pcf_inttimeouts ∷ [])

  unfoldable pub settable : ℕ
  settable = flags (
      Macro.sp_parity ∷ Macro.sp_baud ∷ Macro.sp_databits ∷ Macro.sp_stopbits
      ∷ Macro.sp_parity_check ∷ Macro.sp_handshaking ∷ [])

  unfoldable pub stop_bits_and_parities : ℕ
  stop_bits_and_parities = flags (
      Macro.stopbits_10 ∷ Macro.stopbits_15 ∷ Macro.stopbits_20 ∷ Macro.parity_none
      ∷ Macro.parity_odd ∷ Macro.parity_even ∷ Macro.parity_mark ∷ Macro.parity_space ∷ [])

  unfoldable pub comm_prop : Port → CommProp
  comm_prop p = record {
    packet_length = ser.sizeof_commprop;
    packet_version = 2;
    service_mask = ser.flag Macro.sp_serialcomm;
    max_tx_queue = ring_size;
    max_rx_queue = ring_size;
    max_baud = if p.is_60mhz then ser.flag Macro.baud_user else ser.flag Macro.baud_115200;
    prov_sub_type = ser.flag Macro.sp_rs232;
    prov_capabilities = provider_capabilities;
    settable_params = settable;
    settable_baud = settable_bauds;
    settable_data =
        flags (Macro.databits_5 ∷ Macro.databits_6 ∷ Macro.databits_7 ∷ Macro.databits_8 ∷ []);
    settable_stop_parity = stop_bits_and_parities;
    current_tx_queue = ring_size;
    current_rx_queue = ring_size;
  }
