-- ===== src/Isr/Bodies.antt =====
-- What the services do to a port leaves it where it is, with well-formed rings.
use netmodem2irc.Base.{ℕ, zero, suc, refl, inl, inr, arith, Option-cases}
use netmodem2irc.Cd1400
use netmodem2irc.Bus.{Device, Log, read_reg}
use netmodem2irc.Ring.Fifo.{store-IsValid, fetch-IsValid}
use netmodem2irc.Port.{Port, Stats, IsValid}
use netmodem2irc.Port.Whole.{Whole, Alike, then_Alike, Alike-Whole, same_Whole}
use netmodem2irc.Isr.{
  rx_buf_put, tx_buf_get, note, note_line, count_line_errors, receive_exception, receive_loop,
  receive_normal, receive_body, transmit_loop, transmit_body, modem_body, note_modem, capped,
}

pub rx_buf_put-IsValid : (x : ℕ) (p : Port) → IsValid p → IsValid (rx_buf_put x p).1
unfolding rx_buf_put
rx_buf_put-IsValid x p v = ground (arith, store-IsValid p.rx x v.rx_valid)

pub tx_buf_get-IsValid : (p : Port) → IsValid p → IsValid (tx_buf_get p).1
unfolding tx_buf_get
tx_buf_get-IsValid p v = ground (arith, fetch-IsValid p.tx v.tx_valid)

note-Alike :
    (status bit ev : ℕ) (count_error : Stats → Stats) (p : Port)
    → Alike p (note status bit ev count_error p)
unfolding note
note-Alike status bit ev count_error p = ground arith

pub count_line_errors-Alike : (s : ℕ) (p : Port) → Alike p (count_line_errors s p)
unfolding count_line_errors
count_line_errors-Alike s p =
    then_Alike
      (then_Alike (then_Alike (note-Alike s _ _ _ p) (note-Alike s _ _ _ _)) (note-Alike s _ _ _ _))
      (note-Alike s _ _ _ _)

note_line-Alike : (misr bit ev : ℕ) (p : Port) → Alike p (note_line misr bit ev p)
unfolding note_line
note_line-Alike misr bit ev p = ground arith

note_modem-Alike : (m : ℕ) (p : Port) → Alike p (note_modem m p)
unfolding note_modem
note_modem-Alike m p =
    then_Alike
      (then_Alike (then_Alike (note_line-Alike m _ _ p) (note_line-Alike m _ _ _))
        (note_line-Alike m _ _ _))
      (note_line-Alike m _ _ _)

rx_buf_put-Whole : {home : Port} (x : ℕ) (p : Port) → Whole home p → Whole home (rx_buf_put x p).1
unfolding rx_buf_put
rx_buf_put-Whole x p v = ground (arith, v, store-IsValid p.rx x v.valid.rx_valid)

tx_buf_get-Whole : {home : Port} (p : Port) → Whole home p → Whole home (tx_buf_get p).1
unfolding tx_buf_get
tx_buf_get-Whole p v = ground (arith, v, fetch-IsValid p.tx v.valid.tx_valid)

module _ (dev : Device) where
  receive_loop-Whole :
      (home : Port) (n base : ℕ) (p : Port) (log : Log)
      → Whole home p
      → Whole home (receive_loop dev n base p log).0
  unfolding receive_loop
  receive_loop-Whole home zero base p log v = v
  receive_loop-Whole home (suc n) base p log v =
      receive_loop-Whole home n base _ _ (rx_buf_put-Whole _ p v)

  receive_exception-Whole :
      (home : Port) (base : ℕ) (p : Port) (log : Log)
      → Whole home p
      → Whole home (receive_exception dev base p log).0
  unfolding receive_exception
  receive_exception-Whole home base p log v =
      let status = read_reg dev base Cd1400.rdsr log in
      let noted = Alike-Whole (count_line_errors-Alike status.0 p) v in
      same_Whole
        (rx_buf_put-Whole (read_reg dev base Cd1400.rdsr status.1).0 (count_line_errors status.0 p)
          noted)
        refl refl refl refl refl

  receive_normal-Whole :
      (home : Port) (base : ℕ) (p : Port) (log : Log)
      → Whole home p
      → Whole home (receive_normal dev base p log).0
  unfolding receive_normal
  receive_normal-Whole home base p log v =
      let got = read_reg dev base Cd1400.rdcr log in
      let w = receive_loop-Whole home (capped got.0) base p got.1 v in
      same_Whole w refl refl refl refl refl

  pub receive_body-Whole :
      (home : Port) (base v : ℕ) (p : Port) (log : Log)
      → Whole home p
      → Whole home (receive_body dev base v p log).0
  unfolding receive_body
  receive_body-Whole home base v p log h =
      ground
        (arith, receive_exception-Whole home base p log h, receive_normal-Whole home base p log h)

  transmit_loop-Whole :
      (home : Port) (n sent base : ℕ) (p : Port) (log : Log)
      → Whole home p
      → Whole home (transmit_loop dev n sent base p log).0.1
  unfolding transmit_loop
  transmit_loop-Whole home zero sent base p log v = v
  transmit_loop-Whole home (suc n) sent base p log v = elim (Option-cases ((tx_buf_get p).0)) [
    | inl empty ↦ rw (empty, transmit_loop) v
    | inr (byte, e) ↦
        rw (e, transmit_loop) (transmit_loop-Whole home n _ base _ _ (tx_buf_get-Whole p v))
  ]

  pub transmit_body-Whole :
      (home : Port) (base v : ℕ) (p : Port) (log : Log)
      → Whole home p
      → Whole home (transmit_body dev base v p log).0
  unfolding transmit_body
  transmit_body-Whole home base v p log h =
      ground (arith, transmit_loop-Whole home Cd1400.max_char_fifo 0 base p log h)

  pub modem_body-Whole :
      (home : Port) (base v : ℕ) (p : Port) (log : Log)
      → Whole home p
      → Whole home (modem_body dev base v p log).0
  unfolding modem_body
  modem_body-Whole home base v p log h =
      Alike-Whole (note_modem-Alike _ (record p { shadow_msvr = _ }))
        (same_Whole h refl refl refl refl refl)
