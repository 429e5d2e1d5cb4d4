-- ===== src/Linux/Session.antt =====
-- What holds between two calls of the serial functions, whatever the system answers: the carrier
-- flags agree, and no system call gets a negative descriptor.
use netmodem2irc.Base.{
  ℕ, zero, suc, ◌-◌, ◌≤◌, ◌≡◌, refl, true, false, Bool-cases, inl, inr, Option, some, none, List,
  [], ◌∷◌, arith,
}
use netmodem2irc.Linux.System.{ℤ, is_neg, to_nat, Call, Calls, Os, read_from}
use netmodem2irc.Linux.{
  Comm, closed, async_init, init_from, init_socket, init_accept, init_connect, async_closecom,
  async_comminkey, read_key, async_csendstr, async_csendbyte, async_cgetbuf, async_cgetstr,
  getstr_loop, async_checkcomm, async_online, async_clearinbuf, clear_loop, async_turnoffdtr,
}

-- The descriptor of a call is not negative.
abbrev pub OnOpen : Call → Type 0
OnOpen (Call.socket r) = Unit {0}
OnOpen (Call.bind fd port r) = is_neg fd ≡ false
OnOpen (Call.connect fd port r) = is_neg fd ≡ false
OnOpen (Call.listen fd) = is_neg fd ≡ false
OnOpen (Call.accept fd r) = is_neg fd ≡ false
OnOpen (Call.close fd) = is_neg fd ≡ false
OnOpen (Call.shutdown fd) = is_neg fd ≡ false
OnOpen (Call.select fd usec r) = is_neg fd ≡ false
OnOpen (Call.read fd n r) = is_neg fd ≡ false
OnOpen (Call.write fd bytes r) = is_neg fd ≡ false
OnOpen (Call.recv fd r) = is_neg fd ≡ false

abbrev pub AllOnOpen : Calls → Type 0
AllOnOpen [] = Unit {0}
AllOnOpen (c ∷ calls) = OnOpen c × AllOnOpen calls

-- The carrier flags are 0 or 1 and the same, and with a carrier there is a descriptor. No listening
-- socket stays.
pub record Sound (c : Comm) (calls : Calls) : Type 0 where
  pub flag : c.cd_okay ≤ 1
  pub same : c.cd_up ≡ c.cd_okay
  pub backed : c.cd_okay ≡ 1 → is_neg c.comm_fd ≡ false
  pub quiet : is_neg c.listen_fd ≡ true
  pub open_fds : AllOnOpen calls

module _ (os : Os) (c : Comm) (l : Calls) (s : Sound c l) where
  closecom-Sound : Sound (async_closecom os c l).0 (async_closecom os c l).1
  unfolding async_closecom
  closecom-Sound = ground (arith, s)

  comminkey-Sound : Sound (async_comminkey os c l).0.1 (async_comminkey os c l).1
  unfolding async_comminkey read_key
  comminkey-Sound = ground (arith, s)

  csendstr-Sound :
      (bytes : List ℕ) → Sound (async_csendstr os bytes c l).0 (async_csendstr os bytes c l).1
  unfolding async_csendstr
  csendstr-Sound bytes = ground (arith, s)

  csendbyte-Sound : (ch : ℕ) → Sound (async_csendbyte os ch c l).0 (async_csendbyte os ch c l).1
  unfolding async_csendbyte
  csendbyte-Sound ch = ground (arith, s)

  cgetbuf-Sound : (n : ℤ) → Sound (async_cgetbuf os n c l).0.2 (async_cgetbuf os n c l).1
  unfolding async_cgetbuf
  cgetbuf-Sound n = ground (arith, s)

  online-Sound : Sound (async_online os c l).0.1 (async_online os c l).1
  unfolding async_online
  online-Sound = ground (arith, s)

  turnoffdtr-Sound : Sound (async_turnoffdtr os c l).0 (async_turnoffdtr os c l).1
  unfolding async_turnoffdtr
  turnoffdtr-Sound = ground (arith, s)

  checkcomm-Sound : Sound c (async_checkcomm os c l).1
  unfolding async_checkcomm
  checkcomm-Sound = ground (arith, s)

  init_connect-Sound :
      (port : Option ℤ)
      → c.cd_okay ≡ 0
      → Sound (init_connect os port c l).0.1 (init_connect os port c l).1
  unfolding init_connect
  init_connect-Sound none idle = s
  init_connect-Sound (some port) idle = ground (arith, s)

  init_accept-Sound :
      (port : ℤ) → c.cd_okay ≡ 0 → Sound (init_accept os port c l).0.1 (init_accept os port c l).1
  unfolding init_accept
  init_accept-Sound port idle = ground (arith, s)

  init_socket-Sound :
      (port : Option ℤ)
      → c.cd_okay ≡ 0
      → Sound (init_socket os port c l).0.1 (init_socket os port c l).1
  unfolding init_socket
  init_socket-Sound none idle = init_connect-Sound os.nmport idle
  init_socket-Sound (some port) idle = init_accept-Sound port idle

module _ (os : Os) where
  -- The descriptor does not matter while there is no carrier.
  init_from-Sound :
      (fd : Option ℤ) (c : Comm) (l : Calls)
      → Sound c l
      → c.cd_okay ≡ 0
      → Sound (init_from os fd c l).0.1 (init_from os fd c l).1
  unfolding init_from
  init_from-Sound none c l s idle = init_socket-Sound os c l s os.pcbport idle
  init_from-Sound (some fd) c l s idle = ground (
    arith,
    s,
    init_socket-Sound os (record c { comm_fd = fd }) l
        (record {
          flag = s.flag;
          same = s.same;
          backed = λ e. absurd (omega (arith, e, idle));
          quiet = s.quiet;
          open_fds = s.open_fds;
        })
        os.pcbport idle,
  )

  getstr_loop-Sound :
      (room : ℕ) (c : Comm) (l : Calls)
      → Sound c l
      → Sound (getstr_loop os room c l).0.1 (getstr_loop os room c l).1
  unfolding getstr_loop
  getstr_loop-Sound zero c l s = s
  getstr_loop-Sound (suc room) c l s =
      let key = async_comminkey os c l in
      let now = comminkey-Sound os c l s in
      ground (arith, now, getstr_loop-Sound room key.0.1 key.1 now)

  checkcomm-open :
      (c : Comm) (l : Calls) → (async_checkcomm os c l).0 ≡ true → is_neg c.comm_fd ≡ false
  unfolding async_checkcomm
  checkcomm-open c l y = ground (arith, y)

  clear_loop-Sound : (n : ℕ) (c : Comm) (l : Calls) → Sound c l → Sound c (clear_loop os n c l).1
  unfolding clear_loop
  clear_loop-Sound zero c l s = checkcomm-Sound os c l s
  clear_loop-Sound (suc n) c l s =
      let more = async_checkcomm os c l in
      let now = checkcomm-Sound os c l s in
      let got = read_from os c.comm_fd 256 more.1 in
      elim (Bool-cases more.0) [
        | inl y ↦
            let after : Sound c got.1 = record {
              flag = now.flag;
              same = now.same;
              backed = now.backed;
              quiet = now.quiet;
              open_fds = (checkcomm-open c l y, now.open_fds);
            } in
            simp y (clear_loop-Sound n c got.1 after)
        | inr x ↦ simp x now
      ]

  clearinbuf-Sound : (c : Comm) (l : Calls) → Sound c l → Sound c (async_clearinbuf os c l).1
  unfolding async_clearinbuf
  clearinbuf-Sound c l s = ground (arith, s, clear_loop-Sound 64 c l s)

-- One call of a serial function, on the variables and the calls so far. The channel is initialised
-- only while there is no carrier.
pub data Step (os : Os) (c : Comm) (l : Calls) : Comm → Calls → Type 0 where
  init : c.cd_okay ≡ 0 → Step os c l (async_init os c l).0.1 (async_init os c l).1
  closecom : Step os c l (async_closecom os c l).0 (async_closecom os c l).1
  comminkey : Step os c l (async_comminkey os c l).0.1 (async_comminkey os c l).1
  csendbyte : (ch : ℕ) → Step os c l (async_csendbyte os ch c l).0 (async_csendbyte os ch c l).1
  csendstr :
      (bytes : List ℕ) → Step os c l (async_csendstr os bytes c l).0 (async_csendstr os bytes c l).1
  cgetbuf : (n : ℤ) → Step os c l (async_cgetbuf os n c l).0.2 (async_cgetbuf os n c l).1
  cgetstr : (n : ℤ) → Step os c l (async_cgetstr os n c l).0.2 (async_cgetstr os n c l).1
  checkcomm : Step os c l c (async_checkcomm os c l).1
  online : Step os c l (async_online os c l).0.1 (async_online os c l).1
  clearinbuf : Step os c l c (async_clearinbuf os c l).1
  turnoffdtr : Step os c l (async_turnoffdtr os c l).0 (async_turnoffdtr os c l).1

-- What a program that uses the functions can reach.
pub data Reach (os : Os) : Comm → Calls → Type 0 where
  start : Reach os closed []
  next :
      (c : Comm) (l : Calls) (c' : Comm) (l' : Calls)
      → Reach os c l
      → Step os c l c' l'
      → Reach os c' l'

Step-Sound :
    (os : Os) (c : Comm) (l : Calls) (c' : Comm) (l' : Calls)
    → Sound c l
    → Step os c l c' l'
    → Sound c' l'
unfolding async_init async_cgetstr
Step-Sound os c l _ _ s (Step.init idle) = init_from-Sound os os.pcbfd c l s idle
Step-Sound os c l _ _ s Step.closecom = closecom-Sound os c l s
Step-Sound os c l _ _ s Step.comminkey = comminkey-Sound os c l s
Step-Sound os c l _ _ s (Step.csendbyte ch) = csendbyte-Sound os c l s ch
Step-Sound os c l _ _ s (Step.csendstr bytes) = csendstr-Sound os c l s bytes
Step-Sound os c l _ _ s (Step.cgetbuf n) = cgetbuf-Sound os c l s n
Step-Sound os c l _ _ s (Step.cgetstr n) = getstr_loop-Sound os (to_nat n - 1) c l s
Step-Sound os c l _ _ s Step.checkcomm = checkcomm-Sound os c l s
Step-Sound os c l _ _ s Step.online = online-Sound os c l s
Step-Sound os c l _ _ s Step.clearinbuf = clearinbuf-Sound os c l s
Step-Sound os c l _ _ s Step.turnoffdtr = turnoffdtr-Sound os c l s

-- After any sequence of calls of the serial functions from the start, whatever the system answers,
-- if the channel is initialised only while there is no carrier: CDokay and CDup are the same and 0
-- or 1, a carrier has a descriptor that is not negative, no listening socket is left, and no system
-- call ever got a negative descriptor.
pub Reach-Sound : (os : Os) (c : Comm) (l : Calls) → Reach os c l → Sound c l
Reach-Sound os _ _ Reach.start = record {
  flag = omega arith;
  same = refl;
  backed = λ e. absurd (omega (arith, e));
  quiet = refl;
  open_fds = tt;
}
Reach-Sound os _ _ (Reach.next c l c' l' r step) =
    Step-Sound os c l c' l' (Reach-Sound os c l r) step
