-- ===== src/Ioctl/ModemLines.antt =====
-- The modem lines as the client sees them, and as the chip gets them.
use netmodem2irc.Base.{ℕ, ◌≡◌, arith, has_bits, set_bits}
use netmodem2irc.Cd1400
use netmodem2irc.Port.{msr_cts, msr_dsr, msr_ri, msr_dcd}
use netmodem2irc.Ioctl.Modem.{msvr_to_modem_status}

-- GET_MODEMSTATUS reports each of CTS, DSR, RI and DCD exactly where MSVR has that input.
pub msvr_to_modem_status_lem :
    (m : ℕ)
    → let s = msvr_to_modem_status m in
      (has_bits s msr_cts ≡ has_bits m Cd1400.cts)
      × (has_bits s msr_dsr ≡ has_bits m Cd1400.dsr)
      × (has_bits s msr_ri ≡ has_bits m Cd1400.ri)
      × (has_bits s msr_dcd ≡ has_bits m Cd1400.dcd)
unfolding msvr_to_modem_status has_bits set_bits
msvr_to_modem_status_lem m = ground arith
