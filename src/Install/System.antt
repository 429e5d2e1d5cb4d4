-- ===== src/Install/System.antt =====
-- The calls of Windows that fossil/cyclades/tools/cyinstall.c makes. Windows answers each as a
-- function of all calls so far, so every behaviour of it is some `Windows`.
pub use netmodem2irc.Base.Logged.{pure, ◌>>=◌, ◌>>◌}
use netmodem2irc.Base.Logged.{Logged}
use netmodem2irc.Base.{ℕ, Bool, List, ◌∷◌, ◌==◌}

-- CY_INF_FILE, CY_DRIVER_FILE, cyyport.inf, CY_CERT_FILE, and the driver where it is installed
pub data File : Type 0 where
  inf driver port_inf cert installed_driver : File

-- The registry keys of the service, and the two sets of devices that are searched.
pub data Key : Type 0 where
  parameters_key enum_key security_key service_key : Key

pub data Devices : Type 0 where
  all_devices pci_devices : Devices

pub data Store : Type 0 where
  trusted_publisher root : Store

-- A call. A wait and a close have no result that is read.
pub data Request : Type 0 where
  open_token token_elevation close_token allocate_sid check_membership free_sid : Request
  open_manager open_service stop_service query_service sleep : Request
  close_service close_manager delete_service : Request
  system_directory delete_driver_file delete_at_reboot : Request
  delete_key : Key → Request
  resolve_path copy_inf locate_root reenumerate : Request
  has_file : File → Request
  add_certificate remove_certificate : Store → Request
  set_test_signing : Bool → Request
  open_devices : Devices → Request
  hardware_id remove_device : Devices → ℕ → Request
  description : Devices → ℕ → Request
  close_devices open_pipe read_line close_pipe : Request
  setupapi uninstall_entry uninstall_inf : Request

-- A call with its result: 0 where it fails, a NULL or INVALID_* counting as failure. A query of the
-- service that succeeds gives 1 and its state, token_elevation and check_membership 1 and the
-- Boolean, open_devices and open_pipe 1 and the number of devices or lines, hardware_id 1, or 2 where the name that is
-- looked for is in it, system_directory the length of the name, locate_root and reenumerate 1 for CR_SUCCESS.
abbrev pub Calls : Type 0
Calls = List (Request × ℕ)

-- The answers, GetLastError after the calls so far, and the codes and MAX_PATH of its headers.
pub record Windows : Type 0 where
  pub answer : Calls → Request → ℕ
  pub last_error : Calls → ℕ
  pub service_does_not_exist : ℕ
  pub service_not_active : ℕ
  pub file_not_found : ℕ
  pub service_stopped : ℕ
  pub max_path : ℕ

abbrev pub Io {ℓ} : Type ℓ → Type ℓ
Io A = Logged Calls A

module _ (w : Windows) where
  abbrev pub ask : Request → Io ℕ
  ask r l = (w.answer l r, (r, w.answer l r) ∷ l)

  -- GetLastError is a given code.
  abbrev pub failed_with : ℕ → Io Bool
  failed_with code l = (w.last_error l == code, l)
