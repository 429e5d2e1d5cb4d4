-- ===== src/CoInstall.antt =====
-- fossil/cyclades/tools/cycoinstall.c: the co-installer that gives a port its COM number. Windows
-- answers each call as a function of all calls so far.
pub mod Handles
pub use netmodem2irc.Base.Logged.{pure, ◌>>=◌, ◌>>◌}
use netmodem2irc.Base.Logged.{Logged}
use netmodem2irc.Base.{
  ℕ, Bool, true, false, not, ◌&&◌, Option, none, some, List, ◌∷◌, ◌==◌, if◌then◌else◌,
}

-- A call; the values that are written carry the number of the port.
pub data Request : Type 0 where
  load_library find_open find_claim find_close com_db_open com_db_claim com_db_close : Request
  create_key close_key open_serialcomm close_serialcomm free_library : Request
  set_port_name set_serialcomm : ℕ → Request

-- Newest first, with the result: 0 where the call fails, a NULL or INVALID_HANDLE_VALUE counting as
-- failure.
abbrev pub Calls : Type 0
Calls = List (Request × ℕ)

-- `claim` is what the claim of a port leaves in `portNum` and `claimed`, which are 0 and FALSE before.
pub record Windows : Type 0 where
  pub answer : Calls → Request → ℕ
  pub claim : Calls → ℕ × Bool

abbrev pub Io {ℓ} : Type ℓ → Type ℓ
Io A = Logged Calls A

-- DIF_INSTALLDEVICE, DIF_REMOVE and the other functions; ERROR_DI_POSTPROCESSING_REQUIRED and
-- NO_ERROR
pub data DiFunction : Type 0 where
  install_device remove other : DiFunction

pub data DiResult : Type 0 where
  postprocessing_required no_error : DiResult

module _ (w : Windows) where
  abbrev pub ask : Request → Io ℕ
  ask r l = (w.answer l r, (r, w.answer l r) ∷ l)

  -- `pClaim`, by its success and what it stores
  abbrev pub claim_port : Io (Bool × ℕ × Bool)
  claim_port l = (
    (not (w.answer l Request.com_db_claim == 0), (w.claim l).0, (w.claim l).1),
    (Request.com_db_claim, w.answer l Request.com_db_claim) ∷ l,
  )

module _ (w : Windows) where
  -- The values of a port that was claimed: in the device's key, and in SERIALCOMM.
  unfoldable pub name_device : ℕ → Io (Unit {0})
  name_device port_num = do
    key ← ask w Request.create_key
    let writes : Io (Unit {0}) = do
      ask w (Request.set_port_name port_num)
      ask w Request.close_key
      pure tt
    (if key == 0 then pure tt else writes)

  unfoldable pub name_serialcomm : ℕ → Io (Unit {0})
  name_serialcomm port_num = do
    key ← ask w Request.open_serialcomm
    let writes : Io (Unit {0}) = do
      ask w (Request.set_serialcomm port_num)
      ask w Request.close_serialcomm
      pure tt
    (if key == 0 then pure tt else writes)

  -- What is done with the open ComDB.
  unfoldable pub claim_and_name : Io (Unit {0})
  unfolding name_device name_serialcomm
  claim_and_name = do
    got ← claim_port w
    let names : Io (Unit {0}) = do name_device got.1; name_serialcomm got.1
    (if got.0 && got.2 then names else pure tt)
    ask w Request.com_db_close
    pure tt

  -- What is done with the loaded library.
  unfoldable pub with_library : Io (Unit {0})
  unfolding claim_and_name
  with_library = do
    p_open ← ask w Request.find_open
    p_claim ← ask w Request.find_claim
    p_close ← ask w Request.find_close
    let opens : Io (Unit {0}) = do
      opened ← ask w Request.com_db_open
      (if opened == 0 then pure tt else claim_and_name)
    (if not (p_open == 0) && (not (p_claim == 0) && not (p_close == 0)) then opens else pure tt)
    ask w Request.free_library
    pure tt

  -- DIF_INSTALLDEVICE, before the installation
  unfoldable pub install : Io DiResult
  unfolding with_library
  install = do
    library ← ask w Request.load_library
    (if library == 0 then pure tt else with_library)
    pure DiResult.postprocessing_required

  -- `CyclomCoInstaller`, with `Context->PostProcessing`
  unfoldable pub co_installer : DiFunction → Bool → Io DiResult
  unfolding install
  co_installer DiFunction.install_device post = if post then pure DiResult.no_error else install
  co_installer DiFunction.remove post = pure DiResult.no_error
  co_installer DiFunction.other post = pure DiResult.no_error
