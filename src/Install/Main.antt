-- ===== src/Install/Main.antt =====
-- `DoStatus`, whose output is left out, and `main`.
use netmodem2irc.Base.{
  ℕ, zero, suc, ◌+◌, ◌-◌, Bool, true, false, Option, some, none, List, [], ◌∷◌, ltb, ◌==◌,
  if◌then◌else◌,
}
use netmodem2irc.Install.System.{File, Devices, Request, Windows, Io, pure, ◌>>=◌, ◌>>◌, ask}
use netmodem2irc.Install.{do_install, do_uninstall}

-- An argument, by the option that it is, whatever its case.
pub data Argument : Type 0 where
  install uninstall status testsign removecert force silent verbose unknown : Argument

-- The flags of `main`; those that only change the output are left out.
pub record Flags : Type 0 where
  pub do_install : Bool
  pub do_uninstall : Bool
  pub do_status : Bool
  pub test_sign : Bool
  pub remove_cert : Bool
  pub forced : Bool

abbrev pub no_flags : Flags
no_flags = record {
  do_install = false;
  do_uninstall = false;
  do_status = false;
  test_sign = false;
  remove_cert = false;
  forced = false;
}

-- The loop over the arguments: an unknown one ends the program.
unfoldable pub parse_arguments : List Argument → Flags → Option Flags
parse_arguments [] f = some f
parse_arguments (Argument.install ∷ args) f = parse_arguments args (record f { do_install = true })
parse_arguments (Argument.uninstall ∷ args) f =
    parse_arguments args (record f { do_uninstall = true })
parse_arguments (Argument.status ∷ args) f = parse_arguments args (record f { do_status = true })
parse_arguments (Argument.testsign ∷ args) f = parse_arguments args (record f { test_sign = true })
parse_arguments (Argument.removecert ∷ args) f =
    parse_arguments args (record f { remove_cert = true })
parse_arguments (Argument.force ∷ args) f = parse_arguments args (record f { forced = true })
parse_arguments (Argument.silent ∷ args) f = parse_arguments args f
parse_arguments (Argument.verbose ∷ args) f = parse_arguments args f
parse_arguments (Argument.unknown ∷ args) f = none

module _ (w : Windows) where
  -- With the service manager open: the state of the service, if there is one.
  unfoldable pub query_state : Io (Unit {0})
  query_state = do
    svc ← ask w Request.open_service
    (if svc == 0
        then pure tt
        else (do ask w Request.query_service; ask w Request.close_service; pure tt))

  unfoldable pub show_service : Io (Unit {0})
  show_service = do
    scm ← ask w Request.open_manager
    (if scm == 0 then pure tt else (do query_state; ask w Request.close_manager; pure tt))

  -- Whether the driver is there.
  unfoldable pub show_file : Io (Unit {0})
  show_file = do
    dir ← ask w Request.system_directory
    (if dir == 0 then pure tt else (ask w (Request.has_file File.installed_driver) >> pure tt))

  -- The loop over the PCI devices.
  unfoldable pub show_loop : ℕ → ℕ → Io (Unit {0})
  show_loop idx zero = pure tt
  show_loop idx (suc n) = do
    id ← ask w (Request.hardware_id Devices.pci_devices idx)
    let rest : Io (Unit {0}) = show_loop (idx + 1) n
    let shows : Io (Unit {0}) = ask w (Request.description Devices.pci_devices idx) >> rest
    (if ltb 1 id then shows else rest)

  unfoldable pub show_devices : Io (Unit {0})
  show_devices = do
    info ← ask w (Request.open_devices Devices.pci_devices)
    (if info == 0
        then pure tt
        else (do show_loop 0 (info - 1); ask w Request.close_devices; pure tt))

  -- The lines of `bcdedit /enum`.
  unfoldable pub read_lines : ℕ → Io (Unit {0})
  read_lines zero = pure tt
  read_lines (suc n) = ask w Request.read_line >> read_lines n

  unfoldable pub show_test_signing : Io (Unit {0})
  show_test_signing = do
    pipe ← ask w Request.open_pipe
    (if pipe == 0 then pure tt else (do read_lines (pipe - 1); ask w Request.close_pipe; pure tt))

  -- `DoStatus`
  unfoldable pub do_status : Io ℕ
  do_status = do show_service; show_file; show_devices; show_test_signing; pure 0

  -- The action of `main`, once the arguments are parsed.
  unfoldable pub act : Option Flags → Io ℕ
  act none = pure 1
  act (some f) =
      if f.do_install
      then do_install w f.test_sign
      else if f.do_uninstall
      then do_uninstall w f.forced f.remove_cert
      else if f.do_status
      then do_status
      else pure 1

  -- `main`, by its exit code
  unfoldable pub main : List Argument → Io ℕ
  main [] = pure 1
  main (a ∷ args) = act (parse_arguments (a ∷ args) no_flags)
