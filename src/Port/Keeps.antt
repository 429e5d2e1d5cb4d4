-- ===== src/Port/Keeps.antt =====
-- What a request that moves no bytes leaves of a port.
use netmodem2irc.Base.{◌≡◌, ◌⊎◌, inl, inr, refl, ◌∙◌, false, length, ap, arith}
use netmodem2irc.Ring.{Ring}
use netmodem2irc.Ring
use netmodem2irc.Port.{Port}
use netmodem2irc.Port.Whole.{Whole}

-- The ring is as it was, or it was emptied.
abbrev pub KeptRing : Ring → Ring → Type 0
KeptRing r q = (q ≡ r) ⊎ ((q.buf ≡ r.buf) × (q.head ≡ 0) × (q.tail ≡ 0) × (q.count ≡ 0))

-- The port lies where it did, its interrupt is not connected where it was not, and its rings are kept.
pub record Keeps (home p : Port) : Type 0 where
  pub at_index : p.port_index ≡ home.port_index
  pub at_base : p.chip_base ≡ home.chip_base
  pub at_chan : p.channel ≡ home.channel
  pub off : (p.interrupt_connected ≡ home.interrupt_connected) ⊎ (p.interrupt_connected ≡ false)
  pub kept_rx : KeptRing home.rx p.rx
  pub kept_tx : KeptRing home.tx p.tx

pub same_Keeps :
    {home p q : Port}
    → Keeps home p
    → q.port_index ≡ p.port_index
    → q.chip_base ≡ p.chip_base
    → q.channel ≡ p.channel
    → q.interrupt_connected ≡ p.interrupt_connected
    → q.rx ≡ p.rx
    → q.tx ≡ p.tx
    → Keeps home q
same_Keeps w i b c o e f = record {
  at_index = i ∙ w.at_index;
  at_base = b ∙ w.at_base;
  at_chan = c ∙ w.at_chan;
  off = rw o w.off;
  kept_rx = rw e w.kept_rx;
  kept_tx = rw f w.kept_tx;
}

pub Keeps-refl : (p : Port) → Keeps p p
Keeps-refl p = record {
  at_index = refl;
  at_base = refl;
  at_chan = refl;
  off = inl refl;
  kept_rx = inl refl;
  kept_tx = inl refl;
}

KeptRing-IsValid : (r q : Ring) → KeptRing r q → Ring.Fifo.IsValid r → Ring.Fifo.IsValid q
KeptRing-IsValid r q (inl same) v = rw same v
KeptRing-IsValid r q (inr empty) v = record {
  storage = ap length empty.0 ∙ v.storage;
  tail_in = omega (arith, empty.2);
  count_in = omega (arith, empty.3);
  head_at = omega (arith, empty.1, empty.2, empty.3);
}

pub Keeps-Whole : {home p q : Port} → Whole home p → Keeps p q → Whole home q
Keeps-Whole {p = p} {q = q} w k = record {
  at_index = k.at_index ∙ w.at_index;
  at_base = k.at_base ∙ w.at_base;
  at_chan = k.at_chan ∙ w.at_chan;
  valid = record {
    rx_valid = KeptRing-IsValid p.rx q.rx k.kept_rx w.valid.rx_valid;
    tx_valid = KeptRing-IsValid p.tx q.tx k.kept_tx w.valid.tx_valid;
  };
}

-- The interrupt is not connected, and both rings are empty.
pub record Quiet (p : Port) : Type 0 where
  pub off : p.interrupt_connected ≡ false
  pub no_rx : p.rx.count ≡ 0
  pub no_tx : p.tx.count ≡ 0

KeptRing-empty : (r q : Ring) → KeptRing r q → r.count ≡ 0 → q.count ≡ 0
KeptRing-empty r q (inl same) e = ap (λ (x : Ring). x.count) same ∙ e
KeptRing-empty r q (inr empty) e = empty.3

pub Keeps-Quiet : (p q : Port) → Quiet p → Keeps p q → Quiet q
Keeps-Quiet p q v k = record {
  off = ground (arith, v, k.off);
  no_rx = KeptRing-empty p.rx q.rx k.kept_rx v.no_rx;
  no_tx = KeptRing-empty p.tx q.tx k.kept_tx v.no_tx;
}
