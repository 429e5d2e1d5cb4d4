-- ===== src/Install/Handles/Parts.antt =====
-- The parts of an installation and of a removal close the handles that they open.
use netmodem2irc.Base.{
  ℕ, zero, suc, ◌+◌, ◌-◌, ◌≡◌, Bool, true, false, List, [], ◌∷◌, ◌==◌, if◌then◌else◌, arith,
}
use netmodem2irc.Install.System.{File, Devices, Request, Calls, Windows, ask}
use netmodem2irc.Install.{
  is_member, is_elevated, wait_stopped, stop_open, stop_driver_service, delete_driver_service,
  delete_driver_file, clean_registry, install_certificate, copy_and_scan, after_files, check_files,
  remove_loop, remove_devices, remove_inf, remove_certificates, remove_all,
}

-- What the program opens.
pub data Handle : Type 0 where
  token sid manager service devices pipe : Handle

abbrev same_kind : Handle → Handle → Bool
same_kind Handle.token Handle.token = true
same_kind Handle.sid Handle.sid = true
same_kind Handle.manager Handle.manager = true
same_kind Handle.service Handle.service = true
same_kind Handle.devices Handle.devices = true
same_kind Handle.pipe Handle.pipe = true
same_kind _ _ = false

-- Whether a call gives a handle of the kind where it succeeds, and whether it closes one.
abbrev opens : Handle → Request → Bool
opens k Request.open_token = same_kind k Handle.token
opens k Request.allocate_sid = same_kind k Handle.sid
opens k Request.open_manager = same_kind k Handle.manager
opens k Request.open_service = same_kind k Handle.service
opens k (Request.open_devices set) = same_kind k Handle.devices
opens k Request.open_pipe = same_kind k Handle.pipe
opens k _ = false

abbrev closes : Handle → Request → Bool
closes k Request.close_token = same_kind k Handle.token
closes k Request.free_sid = same_kind k Handle.sid
closes k Request.close_manager = same_kind k Handle.manager
closes k Request.close_service = same_kind k Handle.service
closes k Request.close_devices = same_kind k Handle.devices
closes k Request.close_pipe = same_kind k Handle.pipe
closes k _ = false

-- How many handles of the kind the calls have opened, and how many they have closed.
abbrev pub num_opened : Handle → Calls → ℕ
num_opened k [] = 0
num_opened k ((r, n) ∷ calls) =
    (if opens k r then (if n == 0 then 0 else 1) else 0) + num_opened k calls

abbrev pub num_closed : Handle → Calls → ℕ
num_closed k [] = 0
num_closed k ((r, n) ∷ calls) = (if closes k r then 1 else 0) + num_closed k calls

-- Every handle of the kind that was opened from the first calls to the second is closed.
abbrev pub Balanced : Handle → Calls → Calls → Type 0
Balanced k l l' = num_opened k l' + num_closed k l ≡ num_opened k l + num_closed k l'

module _ (w : Windows) (k : Handle) where
  pub is_member-Balanced : (l : Calls) → Balanced k l (is_member w l).1
  unfolding is_member
  is_member-Balanced l = ground arith

  pub is_elevated-Balanced : (l : Calls) → Balanced k l (is_elevated w l).1
  unfolding is_elevated
  is_elevated-Balanced l =
      let token = ask w Request.open_token l in
      let e = ask w Request.token_elevation token.1 in ground (arith, is_member-Balanced e.1)

  pub wait_stopped-Balanced : (n : ℕ) (l : Calls) → Balanced k l (wait_stopped w n l).1
  unfolding wait_stopped
  wait_stopped-Balanced zero l = omega arith
  wait_stopped-Balanced (suc n) l =
      let state = ask w Request.query_service l in
      let rested = ask w Request.sleep state.1 in ground (arith, wait_stopped-Balanced n rested.1)

  pub stop_open-Balanced : (l : Calls) → Balanced k l (stop_open w l).1
  unfolding stop_open
  stop_open-Balanced l =
      let r = ask w Request.stop_service l in ground (arith, wait_stopped-Balanced 20 r.1)

  pub stop_driver_service-Balanced : (l : Calls) → Balanced k l (stop_driver_service w l).1
  unfolding stop_driver_service
  stop_driver_service-Balanced l =
      let scm = ask w Request.open_manager l in
      let svc = ask w Request.open_service scm.1 in ground (arith, stop_open-Balanced svc.1)

  pub delete_driver_service-Balanced : (l : Calls) → Balanced k l (delete_driver_service w l).1
  unfolding delete_driver_service
  delete_driver_service-Balanced l = ground arith

  pub delete_driver_file-Balanced : (l : Calls) → Balanced k l (delete_driver_file w l).1
  unfolding delete_driver_file
  delete_driver_file-Balanced l = ground arith

  pub clean_registry-Balanced : (l : Calls) → Balanced k l (clean_registry w l).1
  unfolding clean_registry
  clean_registry-Balanced l = ground arith

  pub install_certificate-Balanced : (l : Calls) → Balanced k l (install_certificate w l).1
  unfolding install_certificate
  install_certificate-Balanced l = ground arith

  pub copy_and_scan-Balanced : (l : Calls) → Balanced k l (copy_and_scan w l).1
  unfolding copy_and_scan
  copy_and_scan-Balanced l = ground arith

  pub after_files-Balanced :
      (test_sign : Bool) (l : Calls) → Balanced k l (after_files w test_sign l).1
  unfolding after_files
  after_files-Balanced false l = copy_and_scan-Balanced l
  after_files-Balanced true l =
      let there = ask w (Request.has_file File.cert) l in
      let installed = install_certificate w there.1 in
      ground (arith, install_certificate-Balanced there.1, copy_and_scan-Balanced installed.1)

  pub check_files-Balanced :
      (files : List File) (l : Calls) → Balanced k l (check_files w files l).1
  unfolding check_files
  check_files-Balanced [] l = omega arith
  check_files-Balanced (f ∷ files) l =
      let there = ask w (Request.has_file f) l in ground (arith, check_files-Balanced files there.1)

  pub remove_loop-Balanced :
      (set : Devices) (idx n : ℕ) (l : Calls) → Balanced k l (remove_loop w set idx n l).1
  unfolding remove_loop
  remove_loop-Balanced set idx zero l = omega arith
  remove_loop-Balanced set idx (suc n) l =
      let id = ask w (Request.hardware_id set idx) l in
      let removed = ask w (Request.remove_device set idx) id.1 in
      ground (
        arith,
        remove_loop-Balanced set (idx + 1) n id.1,
        remove_loop-Balanced set (idx + 1) n removed.1,
      )

  pub remove_devices-Balanced :
      (set : Devices) (l : Calls) → Balanced k l (remove_devices w set l).1
  unfolding remove_devices
  remove_devices-Balanced set l =
      let info = ask w (Request.open_devices set) l in
      ground (arith, remove_loop-Balanced set 0 (info.0 - 1) info.1)

  pub remove_inf-Balanced : (l : Calls) → Balanced k l (remove_inf w l).1
  unfolding remove_inf
  remove_inf-Balanced l = ground arith

  pub remove_certificates-Balanced : (l : Calls) → Balanced k l (remove_certificates w l).1
  unfolding remove_certificates
  remove_certificates-Balanced l = ground arith

  pub remove_all-Balanced : (cert : Bool) (l : Calls) → Balanced k l (remove_all w cert l).1
  unfolding remove_all
  remove_all-Balanced cert l =
      let a = remove_devices w Devices.all_devices l in
      let b = remove_devices w Devices.pci_devices a.1 in
      let c = delete_driver_service w b.1 in
      let d = delete_driver_file w c.1 in
      let e = clean_registry w d.1 in
      let f = remove_inf w e.1 in
      let before : Balanced k l f.1 = omega (
        arith,
        remove_devices-Balanced Devices.all_devices l,
        remove_devices-Balanced Devices.pci_devices a.1,
        delete_driver_service-Balanced b.1,
        delete_driver_file-Balanced c.1,
        clean_registry-Balanced d.1,
        remove_inf-Balanced e.1,
      ) in
      elim cert as (λ b. Balanced k l (remove_all w b l).1) [
        | true ↦ omega (arith, before, remove_certificates-Balanced f.1)
        | false ↦ before
      ]
