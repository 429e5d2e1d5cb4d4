-- ===== src/Linux.antt =====
-- fossil/linux/async_linux.c: the serial functions of PCBoard over a socket.
pub mod System
pub mod Session
pub mod Descriptors
pub mod Clearing
pub mod Lines
use netmodem2irc.Base.{
  ℕ, zero, suc, ◌+◌, ◌-◌, ◌%◌, Bool, true, false, ◌||◌, Option, some, none, List, [], ◌∷◌, ◌==◌,
  ltb, get_or, length, ◌++◌, if◌then◌else◌,
}
use netmodem2irc.Linux.System.{
  ℤ, pos, negsuc, is_neg, to_nat, is_zero, size_t, Call, Os, Io, pure, ◌>>=◌, ◌>>◌, tell,
  open_socket, bind_to, accept_on, connect_to, wait_for, read_from, write_to, peek,
}

-- The variables that change: `CDokay`, `CDup`, `_InBytes`, `_OutBytes`, `comm_fd` and `listen_fd`.
-- The two counters are as in the source while they fit an int.
pub record Comm : Type 0 where
  pub cd_okay : ℕ
  pub cd_up : ℕ
  pub in_bytes : ℕ
  pub out_bytes : ℕ
  pub comm_fd : ℤ
  pub listen_fd : ℤ

-- Their initial values
abbrev pub closed : Comm
closed = record {
  cd_okay = 0;
  cd_up = 0;
  in_bytes = 0;
  out_bytes = 0;
  comm_fd = negsuc 0;
  listen_fd = negsuc 0;
}

-- `CDokay = 1; CDup = 1;` and `CDokay = 0; CDup = 0;`
abbrev pub connected : Comm → Comm
connected c = record c { cd_okay = 1; cd_up = 1 }

abbrev pub dropped : Comm → Comm
dropped c = record c { cd_okay = 0; cd_up = 0 }

module _ (os : Os) where
  -- Option C of `ASYNC_INIT`: connect to the port in NMPORT.
  unfoldable pub init_connect : Option ℤ → Comm → Io (ℤ × Comm)
  init_connect none c = pure (negsuc 0, c)
  init_connect (some port) c = do
    fd ← open_socket os
    let fails : Io (ℤ × Comm) = do
      tell (Call.close fd)
      pure (negsuc 0, record c { comm_fd = negsuc 0 })
    let connects : Io (ℤ × Comm) = do
      r ← connect_to os fd port
      (if is_neg r then fails else pure (pos 0, connected (record c { comm_fd = fd })))
    (if is_neg fd then pure (negsuc 0, record c { comm_fd = fd }) else connects)

  -- Option B: accept one connection on the port in PCBPORT, and close the listening socket.
  unfoldable pub init_accept : ℤ → Comm → Io (ℤ × Comm)
  init_accept port c = do
    lfd ← open_socket os
    let accepts : Io (ℤ × Comm) = do
      tell (Call.listen lfd)
      fd ← accept_on os lfd
      tell (Call.close lfd)
      (if is_neg fd
          then pure (negsuc 0, record c { comm_fd = fd; listen_fd = negsuc 0 })
          else pure (pos 0, connected (record c { comm_fd = fd; listen_fd = negsuc 0 })))
    let binds : Io (ℤ × Comm) = do
      r ← bind_to os lfd port
      (if is_neg r
          then (do tell (Call.close lfd); pure (negsuc 0, record c { listen_fd = negsuc 0 }))
          else accepts)
    (if is_neg lfd then pure (negsuc 0, record c { listen_fd = lfd }) else binds)

  -- Options B and C, tried in this order.
  unfoldable pub init_socket : Option ℤ → Comm → Io (ℤ × Comm)
  init_socket none c = init_connect os.nmport c
  init_socket (some port) c = init_accept port c

  -- Option A: the descriptor in PCBFD.
  unfoldable pub init_from : Option ℤ → Comm → Io (ℤ × Comm)
  init_from none c = init_socket os.pcbport c
  init_from (some fd) c =
      if is_neg fd
      then init_socket os.pcbport (record c { comm_fd = fd })
      else pure (pos 0, connected (record c { comm_fd = fd }))

  -- `ASYNC_INIT`
  unfoldable pub async_init : Comm → Io (ℤ × Comm)
  async_init c = init_from os.pcbfd c

  -- `ASYNC_CLOSECOM`
  unfoldable pub async_closecom : Comm → Io Comm
  async_closecom c =
      if is_neg c.comm_fd
      then pure (dropped c)
      else (do tell (Call.close c.comm_fd); pure (dropped (record c { comm_fd = negsuc 0 })))

  -- Where select says that there is something to read; a byte is an unsigned char.
  unfoldable pub read_key : Comm → Io (ℤ × Comm)
  read_key c = do
    got ← read_from os c.comm_fd 1
    pure (
        if to_nat got.0 == 1
        then (pos (get_or got.1 0 0 % 256), record c { in_bytes = c.in_bytes + 1 })
        else (negsuc 0, dropped c))

  -- `ASYNC_COMMINKEY`
  unfoldable pub async_comminkey : Comm → Io (ℤ × Comm)
  async_comminkey c = if is_neg c.comm_fd then pure (negsuc 0, c) else (do
    ready ← wait_for os c.comm_fd 10000
    (if ltb 0 (to_nat ready) then read_key c else pure (negsuc 0, c)))

  -- `ASYNC_CSENDSTR` of the bytes, and `ASYNC_CSENDBYTE`
  unfoldable pub async_csendstr : List ℕ → Comm → Io Comm
  async_csendstr bytes c = if is_neg c.comm_fd then pure c else (do
    sent ← write_to os c.comm_fd bytes
    pure (
        if ltb 0 (to_nat sent)
        then record c { out_bytes = c.out_bytes + to_nat sent }
        else dropped c))

  unfoldable pub async_csendbyte : ℕ → Comm → Io Comm
  async_csendbyte ch c = if is_neg c.comm_fd then pure c else (do
    sent ← write_to os c.comm_fd (ch ∷ [])
    pure (if to_nat sent == 1 then record c { out_bytes = c.out_bytes + 1 } else dropped c))

  -- `ASYNC_CGETBUF`: what it returns, and the bytes that the read stored
  unfoldable pub async_cgetbuf : ℤ → Comm → Io (ℕ × List ℕ × Comm)
  async_cgetbuf maxlen c = if is_neg c.comm_fd then pure (0, [], c) else (do
    got ← read_from os c.comm_fd (size_t maxlen)
    pure (
        if ltb 0 (to_nat got.0)
        then (to_nat got.0, got.1, record c { in_bytes = c.in_bytes + to_nat got.0 })
        else (0, got.1, if is_neg got.0 then c else dropped c)))

  -- The loop of `ASYNC_CGETSTR`, by the bytes for which there still is room: the bytes stored.
  unfoldable pub getstr_loop : ℕ → Comm → Io (List ℕ × Comm)
  getstr_loop zero c = pure ([], c)
  getstr_loop (suc room) c = do
    key ← async_comminkey c
    let rest : Io (List ℕ × Comm) = do
      res ← getstr_loop room key.1
      pure (to_nat key.0 ∷ res.0, res.1)
    (if is_neg key.0
        then pure ([], key.1)
        else if (to_nat key.0 == 13) || (to_nat key.0 == 10)
        then pure (to_nat key.0 ∷ [], key.1)
        else rest)

  -- `ASYNC_CGETSTR`: what is stored in `buf`, the final NUL included
  unfoldable pub async_cgetstr : ℤ → Comm → Io (ℕ × List ℕ × Comm)
  async_cgetstr maxlen c = do
    res ← getstr_loop (to_nat maxlen - 1) c
    pure (length res.0, res.0 ++ (0 ∷ []), res.1)

  -- `ASYNC_CHECKCOMM`
  unfoldable pub async_checkcomm : Comm → Io Bool
  async_checkcomm c =
      if is_neg c.comm_fd
      then pure false
      else (do ready ← wait_for os c.comm_fd 0; pure (ltb 0 (to_nat ready)))

  -- `ASYNC_ONLINE`, which `ASYNC_CDSTILLUP` calls
  unfoldable pub async_online : Comm → Io (ℕ × Comm)
  async_online c =
      if is_neg c.comm_fd
      then pure (0, c)
      else (do r ← peek os c.comm_fd; pure (if is_zero r then (0, dropped c) else (c.cd_okay, c)))

  -- The loop of `ASYNC_CLEARINBUF`, by 64 - iter.
  unfoldable pub clear_loop : ℕ → Comm → Io (Unit {0})
  clear_loop zero c = async_checkcomm c >> pure tt
  clear_loop (suc n) c = do
    more ← async_checkcomm c
    let round : Io (Unit {0}) = do read_from os c.comm_fd 256; clear_loop n c
    (if more then round else pure tt)

  -- `ASYNC_CLEARINBUF`
  unfoldable pub async_clearinbuf : Comm → Io (Unit {0})
  async_clearinbuf c = if is_neg c.comm_fd then pure tt else clear_loop 64 c

  -- `ASYNC_TURNOFFDTR`
  unfoldable pub async_turnoffdtr : Comm → Io Comm
  async_turnoffdtr c =
      if is_neg c.comm_fd
      then pure (dropped c)
      else (do tell (Call.shutdown c.comm_fd); pure (dropped c))
