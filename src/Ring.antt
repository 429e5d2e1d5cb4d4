-- ===== src/Ring.antt =====
-- The ring buffers of CY_PDO_EXT (fossil/cyclades/inc/cycommon.h): RxBuf, RxHead, RxTail, RxCount
-- and the same four fields of TxBuf, and the statements that cyisr.c, cyread.c and cywrite.c
-- repeat to store and to fetch one byte.
pub mod Fifo
pub mod Loops
use netmodem2irc.Base.{
  ℕ, zero, suc, ◌+◌, ◌-◌, ◌%◌, ◌^◌, List, [], get_or, set, replicate, leb, ltb, if◌then◌else◌,
}

abbrev pub ring_size : ℕ
ring_size = 4096

pub record Ring : Type 0 where
  pub buf : List ℕ
  pub head : ℕ
  pub tail : ℕ
  pub count : ℕ

-- `i++` on a ULONG, and `i--`
abbrev pub ulong_inc : ℕ → ℕ
ulong_inc i = (i + 1) % 2 ^ 32

abbrev pub ulong_dec : ℕ → ℕ
ulong_dec i = (i + (2 ^ 32 - 1)) % 2 ^ 32

-- `i++; if (i >= CY_RING_BUF_SIZE) i = 0;`
unfoldable pub advance : ℕ → ℕ
advance i = if leb ring_size (ulong_inc i) then 0 else ulong_inc i

-- One byte goes in at the head, as in CyRxBufPut past its guard.
unfoldable pub store : Ring → ℕ → Ring
store r byte = record r {
  buf = set r.buf r.head byte;
  head = advance r.head;
  count = ulong_inc r.count;
}

-- One byte comes out at the tail, as in CyTxBufGet past its guard.
unfoldable pub fetch : Ring → ℕ × Ring
fetch r = (get_or r.buf r.tail 0, record r { tail = advance r.tail; count = ulong_dec r.count })

-- `Head = Tail = Count = 0;` the bytes stay.
unfoldable pub reset : Ring → Ring
reset r = record r { head = 0; tail = 0; count = 0 }

-- A zeroed extension (RtlZeroMemory).
unfoldable pub zeroed : Ring
zeroed = record { buf = replicate ring_size 0; head = 0; tail = 0; count = 0 }

-- The copy loop of CySyncReadFromRxBuf: the first number is `Requested - copied`. It returns
-- `copied`, the caller's buffer and the ring.
unfoldable pub read_loop : ℕ → ℕ → List ℕ → Ring → ℕ × List ℕ × Ring
read_loop zero copied out r = (copied, out, r)
read_loop (suc n) copied out r =
    let rest = read_loop n (copied + 1) (set out copied (fetch r).0) (fetch r).1 in
    if ltb 0 r.count then rest else (copied, out, r)

-- The copy loop of CySyncWriteToTxBuf: the first number is `Length - written`.
unfoldable pub write_loop : ℕ → ℕ → List ℕ → Ring → ℕ × Ring
write_loop zero written bytes r = (written, r)
write_loop (suc n) written bytes r =
    let rest = write_loop n (written + 1) bytes (store r (get_or bytes written 0)) in
    if ltb r.count ring_size then rest else (written, r)
