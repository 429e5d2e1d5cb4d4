-- ===== src/Install/Changes.antt =====
-- An installation that fails has changed nothing.
use netmodem2irc.Base.{
  ℕ, ◌+◌, ◌≡◌, refl, Bool, true, false, List, [], ◌∷◌, ◌==◌, if◌then◌else◌, arith,
}
use netmodem2irc.Install.System.{File, Request, Calls, Windows, ask}
use netmodem2irc.Install.{
  is_member, is_elevated, copy_and_scan, after_files, check_files, do_install,
}

-- Whether a call changes the system where it succeeds.
abbrev changes : Request → Bool
changes Request.stop_service = true
changes Request.delete_service = true
changes Request.delete_driver_file = true
changes Request.delete_at_reboot = true
changes (Request.delete_key key) = true
changes Request.copy_inf = true
changes Request.reenumerate = true
changes (Request.add_certificate store) = true
changes (Request.remove_certificate store) = true
changes (Request.set_test_signing on) = true
changes (Request.remove_device set idx) = true
changes Request.uninstall_inf = true
changes _ = false

-- How many calls have changed the system.
abbrev pub num_changes : Calls → ℕ
num_changes [] = 0
num_changes ((r, n) ∷ calls) =
    (if changes r then (if n == 0 then 0 else 1) else 0) + num_changes calls

module _ (w : Windows) where
  is_member-num_changes : (l : Calls) → num_changes (is_member w l).1 ≡ num_changes l
  unfolding is_member
  is_member-num_changes l = ground arith

  is_elevated-num_changes : (l : Calls) → num_changes (is_elevated w l).1 ≡ num_changes l
  unfolding is_elevated
  is_elevated-num_changes l =
      let token = ask w Request.open_token l in
      let e = ask w Request.token_elevation token.1 in ground (arith, is_member-num_changes e.1)

  check_files-num_changes :
      (files : List File) (l : Calls) → num_changes (check_files w files l).1 ≡ num_changes l
  unfolding check_files
  check_files-num_changes [] l = refl
  check_files-num_changes (f ∷ files) l =
      let there = ask w (Request.has_file f) l in
      ground (arith, check_files-num_changes files there.1)

  copy_and_scan-num_changes :
      (l : Calls) → (copy_and_scan w l).0 ≡ 1 → num_changes (copy_and_scan w l).1 ≡ num_changes l
  unfolding copy_and_scan
  copy_and_scan-num_changes l failed = ground (arith, failed)

  -- An installation without /testsign that returns 1 has made no call that changed the system,
  -- whatever Windows answers.
  pub do_install-num_changes :
      (l : Calls)
      → (do_install w false l).0 ≡ 1
      → num_changes (do_install w false l).1 ≡ num_changes l
  unfolding do_install after_files
  do_install-num_changes l failed =
      let admin = is_elevated w l in
      let path = ask w Request.resolve_path admin.1 in
      let all = check_files w (File.inf ∷ File.driver ∷ File.port_inf ∷ []) path.1 in
      ground (
        arith,
        failed,
        is_elevated-num_changes l,
        check_files-num_changes (File.inf ∷ File.driver ∷ File.port_inf ∷ []) path.1,
        copy_and_scan-num_changes all.1,
      )
