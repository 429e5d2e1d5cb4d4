-- ===== src/Bus/Trace.antt =====
-- One access of the bus, and the history of accesses.
use netmodem2irc.Base.{ℕ, List}

pub data Access : Type 0 where
  -- an address and the byte read from it, or written to it
  rd : ℕ → ℕ → Access
  wr : ℕ → ℕ → Access

-- Newest first.
abbrev pub Log : Type 0
Log = List Access
