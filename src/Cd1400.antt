-- ===== src/Cd1400.antt =====
-- fossil/cyclades/inc/cd1400.h: the offsets of the CD1400 registers that the driver touches, the
-- values that it writes to them and the bits that it tests, and the geometry of a card.
use netmodem2irc.Base.{ℕ, ◌*◌}

-- `CY_MAX_CHIPS`
abbrev pub max_chips : ℕ
max_chips = 8

-- `CY_PORTS_PER_CHIP`
abbrev pub ports_per_chip : ℕ
ports_per_chip = 4

-- `CY_MAX_CHAR_FIFO`
abbrev pub max_char_fifo : ℕ
max_char_fifo = 12

-- `CY_REG_SIZE`
abbrev pub reg_size : ℕ
reg_size = 0x0400

-- `CD1400_REV_G`
abbrev pub rev_g : ℕ
rev_g = 0x46

-- `CD1400_REV_J`
abbrev pub rev_j : ℕ
rev_j = 0x48

-- `CyGFRCR`
abbrev pub gfrcr : ℕ
gfrcr = 0x40 * 2

-- `CyCAR`
abbrev pub car : ℕ
car = 0x68 * 2

-- `CySVRR`
abbrev pub svrr : ℕ
svrr = 0x67 * 2

-- `CySRModem`
abbrev pub sr_modem : ℕ
sr_modem = 0x04

-- `CySRTransmit`
abbrev pub sr_transmit : ℕ
sr_transmit = 0x02

-- `CySRReceive`
abbrev pub sr_receive : ℕ
sr_receive = 0x01

-- `CyRIVR`
abbrev pub rivr : ℕ
rivr = 0x43 * 2

-- `CyTIVR`
abbrev pub tivr : ℕ
tivr = 0x42 * 2

-- `CyMIVR`
abbrev pub mivr : ℕ
mivr = 0x41 * 2

-- `CyIVRMask`
abbrev pub ivr_mask : ℕ
ivr_mask = 0x07

-- `CyIVRRxEx`
abbrev pub ivr_rx_ex : ℕ
ivr_rx_ex = 0x07

-- `CyIVRRxOK`
abbrev pub ivr_rx_ok : ℕ
ivr_rx_ok = 0x03

-- `CyTDR`
abbrev pub tdr : ℕ
tdr = 0x63 * 2

-- `CyRDSR`
abbrev pub rdsr : ℕ
rdsr = 0x62 * 2

-- `CyBREAK`
abbrev pub break_bit : ℕ
break_bit = 0x08

-- `CyPARITY`
abbrev pub parity_bit : ℕ
parity_bit = 0x04

-- `CyFRAME`
abbrev pub frame_bit : ℕ
frame_bit = 0x02

-- `CyOVERRUN`
abbrev pub overrun_bit : ℕ
overrun_bit = 0x01

-- `CyEOSRR`
abbrev pub eosrr : ℕ
eosrr = 0x60 * 2

-- `CyMISR`
abbrev pub misr : ℕ
misr = 0x4C * 2

-- `CyCCR`
abbrev pub ccr : ℕ
ccr = 0x05 * 2

-- `CyCHAN_RESET`
abbrev pub chan_reset : ℕ
chan_reset = 0x80

-- `CyCHIP_RESET`
abbrev pub chip_reset : ℕ
chip_reset = 0x81

-- `CyFlushTransFIFO`
abbrev pub flush_trans_fifo : ℕ
flush_trans_fifo = 0x82

-- `CyCOR_CHANGE`
abbrev pub cor_change : ℕ
cor_change = 0x40

-- `CyCOR1ch`
abbrev pub cor1_ch : ℕ
cor1_ch = 0x02

-- `CyCOR2ch`
abbrev pub cor2_ch : ℕ
cor2_ch = 0x04

-- `CyCOR3ch`
abbrev pub cor3_ch : ℕ
cor3_ch = 0x08

-- `CySEND_SPEC_1`
abbrev pub send_spec_1 : ℕ
send_spec_1 = 0x21

-- `CySEND_SPEC_2`
abbrev pub send_spec_2 : ℕ
send_spec_2 = 0x22

-- `CyDIS_RCVR`
abbrev pub dis_rcvr : ℕ
dis_rcvr = 0x01

-- `CyENB_RCVR`
abbrev pub enb_rcvr : ℕ
enb_rcvr = 0x02

-- `CyDIS_XMTR`
abbrev pub dis_xmtr : ℕ
dis_xmtr = 0x04

-- `CyENB_XMTR`
abbrev pub enb_xmtr : ℕ
enb_xmtr = 0x08

-- `CySRER`
abbrev pub srer : ℕ
srer = 0x06 * 2

-- `CyMdmCh`
abbrev pub mdm_ch : ℕ
mdm_ch = 0x80

-- `CyRxData`
abbrev pub rx_data : ℕ
rx_data = 0x10

-- `CyTxRdy`
abbrev pub tx_rdy : ℕ
tx_rdy = 0x04

-- `CyCOR1`
abbrev pub cor1 : ℕ
cor1 = 0x08 * 2

-- `CyPARITY_NONE`
abbrev pub parity_none : ℕ
parity_none = 0x00

-- `CyPARITY_0`
abbrev pub parity_0 : ℕ
parity_0 = 0x20

-- `CyPARITY_1`
abbrev pub parity_1 : ℕ
parity_1 = 0xA0

-- `CyPARITY_E`
abbrev pub parity_e : ℕ
parity_e = 0x40

-- `CyPARITY_O`
abbrev pub parity_o : ℕ
parity_o = 0xC0

-- `Cy_1_STOP`
abbrev pub stop_1 : ℕ
stop_1 = 0x00

-- `Cy_1_5_STOP`
abbrev pub stop_1_5 : ℕ
stop_1_5 = 0x04

-- `Cy_2_STOP`
abbrev pub stop_2 : ℕ
stop_2 = 0x08

-- `Cy_5_BITS`
abbrev pub bits_5 : ℕ
bits_5 = 0x00

-- `Cy_6_BITS`
abbrev pub bits_6 : ℕ
bits_6 = 0x01

-- `Cy_7_BITS`
abbrev pub bits_7 : ℕ
bits_7 = 0x02

-- `Cy_8_BITS`
abbrev pub bits_8 : ℕ
bits_8 = 0x03

-- `CyCOR2`
abbrev pub cor2 : ℕ
cor2 = 0x09 * 2

-- `CyIXM`
abbrev pub ixm : ℕ
ixm = 0x80

-- `CyTxIBE`
abbrev pub tx_ibe : ℕ
tx_ibe = 0x40

-- `CyRtsAO`
abbrev pub rts_ao : ℕ
rts_ao = 0x04

-- `CyCtsAE`
abbrev pub cts_ae : ℕ
cts_ae = 0x02

-- `CyCOR3`
abbrev pub cor3 : ℕ
cor3 = 0x0A * 2

-- `CyCCSR`
abbrev pub ccsr : ℕ
ccsr = 0x0B * 2

-- `CyRDCR`
abbrev pub rdcr : ℕ
rdcr = 0x0E * 2

-- `CySCHR1`
abbrev pub schr1 : ℕ
schr1 = 0x1A * 2

-- `CySCHR2`
abbrev pub schr2 : ℕ
schr2 = 0x1B * 2

-- `CyMSVR1`
abbrev pub msvr1 : ℕ
msvr1 = 0x6C * 2

-- `CyMSVR2`
abbrev pub msvr2 : ℕ
msvr2 = 0x6D * 2

-- `CyDSR`
abbrev pub dsr : ℕ
dsr = 0x80

-- `CyCTS`
abbrev pub cts : ℕ
cts = 0x40

-- `CyRI`
abbrev pub ri : ℕ
ri = 0x20

-- `CyDCD`
abbrev pub dcd : ℕ
dcd = 0x10

-- `CyDTR`
abbrev pub dtr : ℕ
dtr = 0x02

-- `CyRTS`
abbrev pub rts : ℕ
rts = 0x01

-- `CyRBPR`
abbrev pub rbpr : ℕ
rbpr = 0x78 * 2

-- `CyRCOR`
abbrev pub rcor : ℕ
rcor = 0x7C * 2

-- `CyTBPR`
abbrev pub tbpr : ℕ
tbpr = 0x72 * 2

-- `CyTCOR`
abbrev pub tcor : ℕ
tcor = 0x76 * 2

-- `CY_ISA_WINDOW`
abbrev pub isa_window : ℕ
isa_window = 0x2000

-- `CY_DEFAULT_MEMBASE`
abbrev pub default_membase : ℕ
default_membase = 0xD4000

-- `CY_EPLD_REV`
abbrev pub epld_rev : ℕ
epld_rev = 0x1E00
