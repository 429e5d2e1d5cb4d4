-- ===== src/Install/Handles.antt =====
-- The program closes every handle that it opens.
pub mod Parts
use netmodem2irc.Base.{
  ℕ, zero, suc, ◌+◌, ◌-◌, ◌≡◌, Bool, true, false, Option, some, none, List, [], ◌∷◌, ◌==◌,
  if◌then◌else◌, arith,
}
use netmodem2irc.Install.System.{File, Devices, Request, Calls, Windows, ask}
use netmodem2irc.Install.{
  is_member, is_elevated, wait_stopped, stop_open, stop_driver_service, delete_driver_service,
  delete_driver_file, clean_registry, install_certificate, copy_and_scan, after_files, check_files,
  do_install, remove_loop, remove_devices, remove_inf, remove_certificates, remove_all,
  do_uninstall,
}
use netmodem2irc.Install.Main.{
  Argument, Flags, no_flags, parse_arguments, query_state, show_service, show_file, show_loop,
  show_devices, read_lines, show_test_signing, do_status, act, main,
}
use netmodem2irc.Install.Handles.Parts.{
  Handle, Balanced, is_member-Balanced, is_elevated-Balanced, wait_stopped-Balanced,
  stop_open-Balanced, stop_driver_service-Balanced, delete_driver_service-Balanced,
  delete_driver_file-Balanced, clean_registry-Balanced, install_certificate-Balanced,
  copy_and_scan-Balanced, after_files-Balanced, check_files-Balanced, remove_loop-Balanced,
  remove_devices-Balanced, remove_inf-Balanced, remove_certificates-Balanced, remove_all-Balanced,
}

module _ (w : Windows) (k : Handle) where
  do_install-Balanced : (test_sign : Bool) (l : Calls) → Balanced k l (do_install w test_sign l).1
  unfolding do_install
  do_install-Balanced test_sign l =
      let admin = is_elevated w l in
      let path = ask w Request.resolve_path admin.1 in
      let all = check_files w (File.inf ∷ File.driver ∷ File.port_inf ∷ []) path.1 in
      ground (
        arith,
        is_elevated-Balanced w k l,
        check_files-Balanced w k (File.inf ∷ File.driver ∷ File.port_inf ∷ []) path.1,
        after_files-Balanced w k test_sign all.1,
      )

  do_uninstall-Balanced :
      (force remove_cert : Bool) (l : Calls) → Balanced k l (do_uninstall w force remove_cert l).1
  unfolding do_uninstall
  do_uninstall-Balanced force remove_cert l =
      let admin = is_elevated w l in
      let stopped = stop_driver_service w admin.1 in
      ground (
        arith,
        is_elevated-Balanced w k l,
        stop_driver_service-Balanced w k admin.1,
        remove_all-Balanced w k remove_cert stopped.1,
      )

  show_service-Balanced : (l : Calls) → Balanced k l (show_service w l).1
  unfolding show_service query_state
  show_service-Balanced l = ground arith

  show_file-Balanced : (l : Calls) → Balanced k l (show_file w l).1
  unfolding show_file
  show_file-Balanced l = ground arith

  show_loop-Balanced : (idx n : ℕ) (l : Calls) → Balanced k l (show_loop w idx n l).1
  unfolding show_loop
  show_loop-Balanced idx zero l = omega arith
  show_loop-Balanced idx (suc n) l =
      let id = ask w (Request.hardware_id Devices.pci_devices idx) l in
      let shown = ask w (Request.description Devices.pci_devices idx) id.1 in
      ground (arith, show_loop-Balanced (idx + 1) n id.1, show_loop-Balanced (idx + 1) n shown.1)

  show_devices-Balanced : (l : Calls) → Balanced k l (show_devices w l).1
  unfolding show_devices
  show_devices-Balanced l =
      let info = ask w (Request.open_devices Devices.pci_devices) l in
      ground (arith, show_loop-Balanced 0 (info.0 - 1) info.1)

  read_lines-Balanced : (n : ℕ) (l : Calls) → Balanced k l (read_lines w n l).1
  unfolding read_lines
  read_lines-Balanced zero l = omega arith
  read_lines-Balanced (suc n) l =
      let got = ask w Request.read_line l in ground (arith, read_lines-Balanced n got.1)

  show_test_signing-Balanced : (l : Calls) → Balanced k l (show_test_signing w l).1
  unfolding show_test_signing
  show_test_signing-Balanced l =
      let pipe = ask w Request.open_pipe l in
      ground (arith, read_lines-Balanced (pipe.0 - 1) pipe.1)

  do_status-Balanced : (l : Calls) → Balanced k l (do_status w l).1
  unfolding do_status
  do_status-Balanced l =
      let a = show_service w l in
      let b = show_file w a.1 in
      let c = show_devices w b.1 in
      omega (
        arith,
        show_service-Balanced l,
        show_file-Balanced a.1,
        show_devices-Balanced b.1,
        show_test_signing-Balanced c.1,
      )

  act-Balanced : (o : Option Flags) (l : Calls) → Balanced k l (act w o l).1
  unfolding act
  act-Balanced none l = omega arith
  act-Balanced (some f) l = ground (
    arith,
    do_install-Balanced f.test_sign l,
    do_uninstall-Balanced f.forced f.remove_cert l,
    do_status-Balanced l,
  )

  -- A run of the program, with any arguments and whatever Windows answers, closes as many handles of
  -- each kind as it opens: tokens, SIDs, the service manager, services, device sets and pipes.
  pub main-Balanced : (args : List Argument) (l : Calls) → Balanced k l (main w args l).1
  unfolding main
  main-Balanced [] l = omega arith
  main-Balanced (a ∷ args) l = act-Balanced (parse_arguments (a ∷ args) no_flags) l
