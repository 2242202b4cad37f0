-- ===== src/Container/Tests.antt =====
-- The theorems on the checks of a container at concrete configurations.
mod Driver
mod Update
use mercuryc.Base.{
  ℕ, Bytes, List, [], ◌∷◌, none, some, Bool, true, false, ◌≡◌, refl, codes, ◌&&◌, ◌||◌, not, length,
  leb, has_prefix, has_suffix, distinct, if◌then◌else◌,
}
use mercuryc.Base.Dict.{is_some, has}
use mercuryc.Config.{config_key_checker, is_true}
use mercuryc.Device.{Device, Devices, get}
use mercuryc.Container.{Daemon, valid_hostname, all_hostname_bytes, valid_config}
use mercuryc.Container.Devices.{get_root_disk_device, valid_devices}
use mercuryc.Container.Proofs.Names.{valid_hostname_lem, starts_with_letter}
use mercuryc.Container.Proofs.Settings.{valid_config_keys_known, valid_config_exclusive}
use mercuryc.Container.Proofs.Devices.{
  get_root_disk_device_lem, valid_devices_lem, all_valid, only, root_disks, disk_paths,
}

-- A daemon with a pool for every name.
abbrev daemon : Daemon
daemon = record {
  architectures = 2 ∷ [];
  has_idmap_set = true;
  mercury_valid_config = λ text. true;
  is_dir = λ path. true;
  path_exists = λ path. true;
  pool_exists = λ pool. true;
  device_type = λ path. none;
}

abbrev config : List (Bytes × Bytes)
config = (codes "limits.cpu.priority", codes "5") ∷ (codes "security.privileged", codes "true") ∷ []

abbrev root : Device
root =
    (codes "type", codes "disk") ∷ (codes "path", codes "/") ∷ (codes "pool", codes "default") ∷ []

abbrev devices : Devices
devices = (codes "eth0", (codes "type", codes "none") ∷ []) ∷ (codes "root", root) ∷ []

valid_devices_example :
    valid_devices daemon (some devices) true
    ≡ all_valid daemon devices
      && (if true then is_some (only (root_disks devices)) else distinct (disk_paths devices))
valid_devices_example = valid_devices_lem daemon devices true refl
