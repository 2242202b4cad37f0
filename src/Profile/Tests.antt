-- ===== src/Profile/Tests.antt =====
-- A profile whose root device another profile hides from one of the two containers.
use mercuryc.Base.{
  Bytes, List, [], ◌∷◌, Option, none, some, Bool, true, false, ◌≡◌, refl, arith, inl, codes,
  bytes_eq, if◌then◌else◌,
}
use mercuryc.Base.Dict.{find, unique}
use mercuryc.Device.{Device, Devices}
use mercuryc.Container.{Daemon}
use mercuryc.Profile.{ProfilePut, Container, World, bad_request, do_profile_update}
use mercuryc.Profile.Proofs.{do_profile_update-root}

abbrev daemon : Daemon
daemon = record {
  architectures = 2 ∷ [];
  has_idmap_set = true;
  mercury_valid_config = λ text. true;
  is_dir = λ path. true;
  path_exists = λ path. true;
  pool_exists = λ pool. true;
  device_type = λ path. none;
}

abbrev root : Bytes → Devices
root pool =
    (
      codes "root",
      (codes "type", codes "disk") ∷ (codes "path", codes "/") ∷ (codes "pool", pool) ∷ [],
    )
    ∷ []

abbrev put_devices : Devices → ProfilePut
put_devices devices = record { description = []; config = []; devices = devices }

-- The profiles default, on the pool a, and big, on the pool b.
abbrev db : Bytes → Option Devices
db name =
    if bytes_eq name (codes "default") then some (root (codes "a")) else some (root (codes "b"))

abbrev hidden : Container
hidden = record { local_devices = []; profiles = codes "default" ∷ codes "big" ∷ [] }

abbrev reliant : Container
reliant = record { local_devices = []; profiles = codes "default" ∷ [] }

abbrev world : List Container → World
world containers = record {
  containers = containers;
  profile_devices = db;
  unchanged = false;
  commits = true;
  updates = λ c. true;
}

-- A container that relies on the device stops the change.
reliant_refused :
    (do_profile_update daemon
      (world (hidden ∷ reliant ∷ []))
      (codes "default")
      (put_devices (root (codes "a")))
      (put_devices (root (codes "c")))).1
    ≡ bad_request
unfolding do_profile_update mercuryc.Container.valid_config find
    mercuryc.Container.Devices.valid_devices mercuryc.Container.Devices.valid_device
    mercuryc.Device.get bytes_eq mercuryc.Base.string_in_slice
    mercuryc.Container.Devices.valid_device_config_key mercuryc.Base.has_prefix
    mercuryc.Container.Devices.get_root_disk_device mercuryc.Container.Devices.is_root_disk_device
reliant_refused = refl

db-unique : (name : Bytes) (m : Devices) → db name ≡ some m → unique m ≡ true
unfolding mercuryc.Base.Dict.find
db-unique name m e = ground arith

do_profile_update-root_example :
    find (codes "root") (root (codes "b")) ≡ find (codes "root") (root (codes "b"))
unfolding find bytes_eq mercuryc.Container.Devices.get_root_disk_device
    mercuryc.Container.Devices.is_root_disk_device mercuryc.Device.get
    mercuryc.Container.Expand.expand do_profile_update mercuryc.Container.valid_config
    mercuryc.Container.Devices.valid_devices mercuryc.Container.Devices.valid_device
    mercuryc.Base.string_in_slice mercuryc.Container.Devices.valid_device_config_key
    mercuryc.Base.has_prefix
do_profile_update-root_example =
    do_profile_update-root daemon (world (hidden ∷ [])) (codes "default") (codes "root")
      ((codes "type", codes "disk") ∷ (codes "path", codes "/") ∷ (codes "pool", codes "a") ∷ [])
      (put_devices (root (codes "a"))) (put_devices (root (codes "c"))) hidden (root (codes "b"))
      (root (codes "b")) db-unique refl refl refl refl refl (inl refl) refl refl refl refl
