-- ===== src/Port/Whole.antt =====
-- What stays of a port while requests and interrupts reach it.
use netmodem2irc.Base.{◌≡◌, ◌∙◌}
use netmodem2irc.Port.{Port, IsValid}

-- The port lies where the other one does, and its rings are well formed.
pub record Whole (home p : Port) : Type 0 where
  pub at_index : p.port_index ≡ home.port_index
  pub at_base : p.chip_base ≡ home.chip_base
  pub at_chan : p.channel ≡ home.channel
  pub valid : IsValid p

-- The ports agree in all that `Whole` reads.
pub record Alike (p q : Port) : Type 0 where
  pub same_index : q.port_index ≡ p.port_index
  pub same_base : q.chip_base ≡ p.chip_base
  pub same_chan : q.channel ≡ p.channel
  pub same_rx : q.rx ≡ p.rx
  pub same_tx : q.tx ≡ p.tx

pub then_Alike : {p q r : Port} → Alike p q → Alike q r → Alike p r
then_Alike a b = record {
  same_index = b.same_index ∙ a.same_index;
  same_base = b.same_base ∙ a.same_base;
  same_chan = b.same_chan ∙ a.same_chan;
  same_rx = b.same_rx ∙ a.same_rx;
  same_tx = b.same_tx ∙ a.same_tx;
}

pub same_rings : (p q : Port) → q.rx ≡ p.rx → q.tx ≡ p.tx → IsValid p → IsValid q
same_rings p q e f v = record { rx_valid = rw e v.rx_valid; tx_valid = rw f v.tx_valid }

pub Alike-Whole : {home p q : Port} → Alike p q → Whole home p → Whole home q
Alike-Whole {p = p} {q = q} a w = record {
  at_index = a.same_index ∙ w.at_index;
  at_base = a.same_base ∙ w.at_base;
  at_chan = a.same_chan ∙ w.at_chan;
  valid = same_rings p q a.same_rx a.same_tx w.valid;
}

pub same_Whole :
    {home p q : Port}
    → Whole home p
    → q.port_index ≡ p.port_index
    → q.chip_base ≡ p.chip_base
    → q.channel ≡ p.channel
    → q.rx ≡ p.rx
    → q.tx ≡ p.tx
    → Whole home q
same_Whole w i b c e f =
    Alike-Whole (record { same_index = i; same_base = b; same_chan = c; same_rx = e; same_tx = f })
      w
