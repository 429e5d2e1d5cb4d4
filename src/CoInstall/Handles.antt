-- ===== src/CoInstall/Handles.antt =====
-- What the co-installer opens and what it writes.
use netmodem2irc.Base.{
  ℕ, ◌+◌, ◌*◌, ◌≤◌, ◌≡◌, refl, Bool, true, false, not, ◌&&◌, [], ◌∷◌, ◌==◌, if◌then◌else◌, arith,
}
use netmodem2irc.CoInstall.{
  Request, Calls, Windows, DiFunction, ask, claim_port, name_device, name_serialcomm,
  claim_and_name, with_library, install, co_installer,
}

-- What the co-installer opens.
pub data Handle : Type 0 where
  library com_db device_key serialcomm : Handle

abbrev same_kind : Handle → Handle → Bool
same_kind Handle.library Handle.library = true
same_kind Handle.com_db Handle.com_db = true
same_kind Handle.device_key Handle.device_key = true
same_kind Handle.serialcomm Handle.serialcomm = true
same_kind _ _ = false

-- Whether a call opens one of the kind where it succeeds, and whether it closes one.
abbrev opens : Handle → Request → Bool
opens k Request.load_library = same_kind k Handle.library
opens k Request.com_db_open = same_kind k Handle.com_db
opens k Request.create_key = same_kind k Handle.device_key
opens k Request.open_serialcomm = same_kind k Handle.serialcomm
opens k _ = false

abbrev closes : Handle → Request → Bool
closes k Request.free_library = same_kind k Handle.library
closes k Request.com_db_close = same_kind k Handle.com_db
closes k Request.close_key = same_kind k Handle.device_key
closes k Request.close_serialcomm = same_kind k Handle.serialcomm
closes k _ = false

abbrev pub num_opened : Handle → Calls → ℕ
num_opened k [] = 0
num_opened k ((r, n) ∷ calls) =
    (if opens k r then (if n == 0 then 0 else 1) else 0) + num_opened k calls

abbrev pub num_closed : Handle → Calls → ℕ
num_closed k [] = 0
num_closed k ((r, n) ∷ calls) = (if closes k r then 1 else 0) + num_closed k calls

-- How many values are written.
abbrev writes : Request → Bool
writes (Request.set_port_name n) = true
writes (Request.set_serialcomm n) = true
writes _ = false

abbrev pub num_writes : Calls → ℕ
num_writes [] = 0
num_writes ((r, n) ∷ calls) = (if writes r then 1 else 0) + num_writes calls

-- How often a port was claimed: the call succeeded, and it set `claimed`.
abbrev claims : Request → Bool
claims Request.com_db_claim = true
claims _ = false

abbrev pub num_claims : Windows → Calls → ℕ
num_claims w [] = 0
num_claims w ((r, n) ∷ calls) =
    (if claims r && (not (n == 0) && (w.claim calls).1) then 1 else 0) + num_claims w calls

-- From the first calls to the second everything of the kind `k` that was opened is closed, one port
-- at most is claimed, and two values at most are written for each claim.
pub record Orderly (w : Windows) (k : Handle) (l l' : Calls) : Type 0 where
  pub closed : num_opened k l' + num_closed k l ≡ num_opened k l + num_closed k l'
  pub one_claim : num_claims w l' ≤ num_claims w l + 1
  pub written : num_writes l' + 2 * num_claims w l ≤ num_writes l + 2 * num_claims w l'

module _ (w : Windows) (k : Handle) where
  name_device-Orderly :
      (n : ℕ) (l : Calls)
      → let l' = (name_device w n l).1 in
        (num_opened k l' + num_closed k l ≡ num_opened k l + num_closed k l')
        × (num_claims w l' ≡ num_claims w l)
        × (num_writes l' ≤ num_writes l + 1)
  unfolding name_device
  name_device-Orderly n l = ground arith

  name_serialcomm-Orderly :
      (n : ℕ) (l : Calls)
      → let l' = (name_serialcomm w n l).1 in
        (num_opened k l' + num_closed k l ≡ num_opened k l + num_closed k l')
        × (num_claims w l' ≡ num_claims w l)
        × (num_writes l' ≤ num_writes l + 1)
  unfolding name_serialcomm
  name_serialcomm-Orderly n l = ground arith

  -- What follows the opening of the ComDB closes it.
  claim_and_name-Orderly :
      (l : Calls)
      → let l' = (claim_and_name w l).1 in
        (num_opened k l' + num_closed k l + (if same_kind k Handle.com_db then 1 else 0)
          ≡ num_opened k l + num_closed k l')
        × (num_claims w l' ≤ num_claims w l + 1)
        × (num_writes l' + 2 * num_claims w l ≤ num_writes l + 2 * num_claims w l')
  unfolding claim_and_name
  claim_and_name-Orderly l =
      let got = claim_port w l in
      let named = name_device w got.0.1 got.1 in
      ground (arith, name_device-Orderly got.0.1 got.1, name_serialcomm-Orderly got.0.1 named.1)

  with_library-Orderly :
      (l : Calls)
      → let l' = (with_library w l).1 in
        (num_opened k l' + num_closed k l + (if same_kind k Handle.library then 1 else 0)
          ≡ num_opened k l + num_closed k l')
        × (num_claims w l' ≤ num_claims w l + 1)
        × (num_writes l' + 2 * num_claims w l ≤ num_writes l + 2 * num_claims w l')
  unfolding with_library
  with_library-Orderly l =
      let p_open = ask w Request.find_open l in
      let p_claim = ask w Request.find_claim p_open.1 in
      let p_close = ask w Request.find_close p_claim.1 in
      let opened = ask w Request.com_db_open p_close.1 in
      ground (arith, claim_and_name-Orderly opened.1)

  -- A call of the co-installer, for any function and whatever Windows answers, frees the library and
  -- closes the ComDB and each of the keys as often as it opens them, claims one COM number at most,
  -- and writes no more than two values where it claims one, and none where the claim fails or leaves
  -- `claimed` FALSE.
  pub co_installer-Orderly :
      (f : DiFunction) (post : Bool) (l : Calls) → Orderly w k l (co_installer w f post l).1
  unfolding co_installer install
  co_installer-Orderly DiFunction.install_device true l = omega arith
  co_installer-Orderly DiFunction.install_device false l =
      let library = ask w Request.load_library l in ground (arith, with_library-Orderly library.1)
  co_installer-Orderly DiFunction.remove post l = omega arith
  co_installer-Orderly DiFunction.other post l = omega arith

-- Where the claim leaves `claimed` FALSE, as a ComDBClaimNextFreePort that takes no third argument
-- does, no value is written, although the number is claimed.
co_installer_unnamed :
    (w : Windows) (f : DiFunction) (post : Bool) (l : Calls)
    → ((l' : Calls) → (w.claim l').1 ≡ false)
    → num_writes (co_installer w f post l).1 ≡ num_writes l
unfolding co_installer install with_library claim_and_name
co_installer_unnamed w DiFunction.install_device true l never = refl
co_installer_unnamed w DiFunction.install_device false l never =
    let library = ask w Request.load_library l in
    let p_open = ask w Request.find_open library.1 in
    let p_claim = ask w Request.find_claim p_open.1 in
    let p_close = ask w Request.find_close p_claim.1 in
    let opened = ask w Request.com_db_open p_close.1 in ground (arith, never opened.1)
co_installer_unnamed w DiFunction.remove post l never = refl
co_installer_unnamed w DiFunction.other post l never = refl
