-- ===== src/Install.antt =====
-- fossil/cyclades/tools/cyinstall.c: installing and removing the driver.
pub mod System
pub mod Main
pub mod Handles
pub mod Changes
use netmodem2irc.Base.{
  ℕ, zero, suc, ◌+◌, ◌-◌, Bool, true, false, not, ◌&&◌, ◌||◌, List, [], ◌∷◌, ltb, leb, ◌==◌,
  if◌then◌else◌,
}
use netmodem2irc.Install.System.{
  File, Key, Devices, Store, Request, Windows, Io, pure, ◌>>=◌, ◌>>◌, ask, failed_with,
}

module _ (w : Windows) where
  -- Where the token does not tell: membership in the administrators' group.
  unfoldable pub is_member : Io Bool
  is_member = do
    sid ← ask w Request.allocate_sid
    (if sid == 0
        then pure false
        else (do r ← ask w Request.check_membership; ask w Request.free_sid; pure (ltb 1 r)))

  -- `IsElevated`
  unfoldable pub is_elevated : Io Bool
  is_elevated = do
    token ← ask w Request.open_token
    (if token == 0 then pure false else (do
      e ← ask w Request.token_elevation
      admin ← (if e == 0 then is_member else pure (ltb 1 e))
      ask w Request.close_token
      pure admin))

  -- The loop that waits for the service, by `retries`.
  unfoldable pub wait_stopped : ℕ → Io Bool
  wait_stopped zero = pure false
  wait_stopped (suc n) = do
    state ← ask w Request.query_service
    let again : Io Bool = ask w Request.sleep >> wait_stopped n
    (if state == w.service_stopped + 1 then pure true else again)

  -- With the service open: stop it and wait.
  unfoldable pub stop_open : Io Bool
  stop_open = do
    r ← ask w Request.stop_service
    (if r == 0 then failed_with w w.service_not_active else wait_stopped 20)

  -- `StopDriverService`
  unfoldable pub stop_driver_service : Io Bool
  stop_driver_service = do
    scm ← ask w Request.open_manager
    (if scm == 0 then pure false else (do
      svc ← ask w Request.open_service
      (if svc == 0
          then (do
            gone ← failed_with w w.service_does_not_exist
            ask w Request.close_manager
            pure gone)
          else (do
            stopped ← stop_open
            ask w Request.close_service
            ask w Request.close_manager
            pure stopped))))

  -- `DeleteDriverService`
  unfoldable pub delete_driver_service : Io Bool
  delete_driver_service = do
    scm ← ask w Request.open_manager
    (if scm == 0 then pure false else (do
      svc ← ask w Request.open_service
      (if svc == 0
          then (do
            gone ← failed_with w w.service_does_not_exist
            ask w Request.close_manager
            pure gone)
          else (do
            r ← ask w Request.delete_service
            ask w Request.close_service
            ask w Request.close_manager
            pure (not (r == 0))))))

  -- `DeleteDriverFile`
  unfoldable pub delete_driver_file : Io Bool
  delete_driver_file = do
    dir ← ask w Request.system_directory
    (if (dir == 0) || leb (w.max_path - 30) dir then pure false else (do
      r ← ask w Request.delete_driver_file
      gone ← failed_with w w.file_not_found
      (if not (r == 0)
          then pure true
          else if gone
          then pure true
          else (do later ← ask w Request.delete_at_reboot; pure (not (later == 0))))))

  -- `CleanRegistry`
  unfoldable pub clean_registry : Io (Unit {0})
  clean_registry = do
    ask w (Request.delete_key Key.parameters_key)
    ask w (Request.delete_key Key.enum_key)
    ask w (Request.delete_key Key.security_key)
    ask w (Request.delete_key Key.service_key)
    pure tt

  -- The certificate in both stores, and TESTSIGNING; whether they succeed is only printed.
  unfoldable pub install_certificate : Io (Unit {0})
  install_certificate = do
    ask w (Request.add_certificate Store.trusted_publisher)
    ask w (Request.add_certificate Store.root)
    ask w (Request.set_test_signing true)
    pure tt

  -- The files are there: the driver store, and the search for hardware.
  unfoldable pub copy_and_scan : Io ℕ
  copy_and_scan = do
    copied ← ask w Request.copy_inf
    (if copied == 0 then pure 1 else (do
      found ← ask w Request.locate_root
      (if found == 0 then pure 0 else (do ask w Request.reenumerate; pure 0))))

  unfoldable pub after_files : Bool → Io ℕ
  after_files test_sign =
      if test_sign
      then (do
        there ← ask w (Request.has_file File.cert)
        (if there == 0 then pure 1 else (install_certificate >> copy_and_scan)))
      else copy_and_scan

  -- The files that must be there, one after the other.
  unfoldable pub check_files : List File → Io Bool
  check_files [] = pure true
  check_files (f ∷ files) = do
    there ← ask w (Request.has_file f)
    let rest : Io Bool = check_files files
    (if there == 0 then pure false else rest)

  -- `DoInstall`
  unfoldable pub do_install : Bool → Io ℕ
  do_install test_sign = do
    admin ← is_elevated
    (if not admin then pure 1 else (do
      path ← ask w Request.resolve_path
      (if path == 0 then pure 1 else (do
        all ← check_files (File.inf ∷ File.driver ∷ File.port_inf ∷ [])
        (if all then after_files test_sign else pure 1)))))

  -- The loop over the devices of a set, by their number.
  unfoldable pub remove_loop : Devices → ℕ → ℕ → Io (Unit {0})
  remove_loop set idx zero = pure tt
  remove_loop set idx (suc n) = do
    id ← ask w (Request.hardware_id set idx)
    let rest : Io (Unit {0}) = remove_loop set (idx + 1) n
    let removes : Io (Unit {0}) = ask w (Request.remove_device set idx) >> rest
    (if ltb 1 id then removes else rest)

  unfoldable pub remove_devices : Devices → Io (Unit {0})
  remove_devices set = do
    info ← ask w (Request.open_devices set)
    (if info == 0
        then pure tt
        else (do remove_loop set 0 (info - 1); ask w Request.close_devices; pure tt))

  -- Step 6, the INF: the entry is looked up in setupapi.dll.
  unfoldable pub remove_inf : Io (Unit {0})
  remove_inf = do
    api ← ask w Request.setupapi
    (if api == 0 then pure tt else (do
      entry ← ask w Request.uninstall_entry
      (if entry == 0 then pure tt else (ask w Request.uninstall_inf >> pure tt))))

  unfoldable pub remove_certificates : Io (Unit {0})
  remove_certificates = do
    ask w (Request.remove_certificate Store.trusted_publisher)
    ask w (Request.remove_certificate Store.root)
    ask w (Request.set_test_signing false)
    pure tt

  -- Steps 2 to 7
  unfoldable pub remove_all : Bool → Io ℕ
  remove_all remove_cert = do
    remove_devices Devices.all_devices
    remove_devices Devices.pci_devices
    delete_driver_service
    delete_driver_file
    clean_registry
    remove_inf
    (if remove_cert then remove_certificates else pure tt)
    pure 0

  -- `DoUninstall`
  unfoldable pub do_uninstall : Bool → Bool → Io ℕ
  do_uninstall force remove_cert = do
    admin ← is_elevated
    (if not admin then pure 1 else (do
      stopped ← stop_driver_service
      (if not stopped && not force then pure 1 else remove_all remove_cert)))
