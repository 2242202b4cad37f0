-- ===== src/Container/Tests/Update.antt =====
-- An update of a container at which the theorems are applied.
use mercuryc.Base.{
  ℕ, Bytes, List, [], ◌∷◌, Option, none, some, Bool, true, false, not, ◌≡◌, refl, codes, bytes_eq,
  string_in_slice,
}
use mercuryc.Base.Dict.{find, unique}
use mercuryc.Device.{Device, Devices, Changes, get}
use mercuryc.Device.Proofs.Update.{applied, same_device}
use mercuryc.Container.{Daemon}
use mercuryc.Container.Update.{Args, Settings, Source, start_update}
use mercuryc.Container.Proofs.Update.{wanted, start_update_lem}

abbrev daemon : Daemon
daemon = record {
  architectures = 2 ∷ [];
  has_idmap_set = true;
  mercury_valid_config = λ text. true;
  is_dir = λ path. true;
  path_exists = λ path. true;
  pool_exists = λ pool. true;
  device_type = λ path. none;
}

abbrev root : Device
root =
    (codes "type", codes "disk") ∷ (codes "path", codes "/") ∷ (codes "pool", codes "default") ∷ []

abbrev old_config : List (Bytes × Bytes)
old_config = (codes "volatile.base_image", codes "ab") ∷ (codes "user.a", codes "1") ∷ []

abbrev new_config : List (Bytes × Bytes)
new_config = (codes "volatile.base_image", codes "ab") ∷ (codes "user.a", codes "2") ∷ []

abbrev with_config : List (Bytes × Bytes) → Args
with_config config = record {
  description = [];
  architecture = 2;
  ephemeral = false;
  config = config;
  devices = (codes "root", root) ∷ [];
  profiles = [];
}

abbrev settings : List (Bytes × Bytes) → Settings
settings config = record {
  args = with_config config;
  expanded_config = config;
  expanded_devices = (codes "root", root) ∷ [];
}

-- A data base without profiles.
abbrev source : Source
source = record {
  profiles = [];
  profile_config = λ name. none;
  profile_devices = λ name. none;
  accepts = λ s. true;
}

abbrev outcome : Settings × (List Bytes × Changes)
outcome = (
  settings new_config,
  (codes "user.a" ∷ [], record { rmlist = []; addlist = []; updatelist = [] }),
)

start_update-outcome :
    start_update daemon source true (settings old_config) (with_config new_config) ≡ some outcome
unfolding start_update mercuryc.Container.valid_config mercuryc.Container.valid_config_key
    mercuryc.Config.config_key_checker bytes_eq mercuryc.Config.check mercuryc.Base.has_prefix
    mercuryc.Container.Devices.valid_devices mercuryc.Container.Devices.valid_device get
    string_in_slice mercuryc.Container.Devices.valid_device_config_key
    mercuryc.Arch.architecture_name mercuryc.Container.Expand.expand
    mercuryc.Container.Devices.get_root_disk_device mercuryc.Container.Devices.is_root_disk_device
    mercuryc.Storage.config_diff mercuryc.Device.update mercuryc.Base.Dict.select
    mercuryc.Device.contains mercuryc.Device.device_equals
start_update-outcome = refl

start_update_lem_example :
    (find (codes "user.a") new_config ≡ wanted (λ name. none) [] new_config (codes "user.a"))
    × (string_in_slice (codes "user.a") (codes "user.a" ∷ [])
        ≡ not (bytes_eq (get (codes "user.a") old_config) (get (codes "user.a") new_config)))
    × (same_device
          (applied ((codes "root", root) ∷ []) outcome.1.1 (codes "user.a"))
          (wanted (λ name. none) [] ((codes "root", root) ∷ []) (codes "user.a"))
        ≡ true)
unfolding find bytes_eq
start_update_lem_example =
    start_update_lem daemon source true (settings old_config) (with_config new_config) outcome
      (codes "user.a") start_update-outcome (λ name m h. cc) (λ name m h. cc) refl refl refl
