-- ===== src/Storage/Tests.antt =====
-- Pools and volumes at which the theorems are applied.
use mercuryc.Base.{
  ℕ, ◌≤◌, ◌*◌, ◌^◌, Bytes, List, [], ◌∷◌, Option, none, some, Bool, true, false, not, ◌&&◌, ◌≡◌,
  ◌⊎◌, refl, codes, is_empty, string_in_slice, bytes_eq, distinct, split, if◌then◌else◌,
}
use mercuryc.Base.Dict.{is_some}
use mercuryc.Device.{get}
use mercuryc.Storage.{no_flags, resolve_mount_options}
use mercuryc.Storage.Pool.{Disk}
use mercuryc.Storage.Pool
use mercuryc.Storage.Volume.{StoragePool}
use mercuryc.Storage.Update.{Writable, State, Backend, pool_update}
use mercuryc.Storage.Proofs.Diff.{known_flags, unknown, resolve_mount_options_lem}
use mercuryc.Storage.Proofs.Filling.{has_empty_thinpool}
use mercuryc.Storage.Proofs.Defaults.{fill_default-validate_config}
use mercuryc.Storage.Proofs.Updates.{Updated, pool_update_lem}

abbrev old_config : List (Bytes × Bytes)
old_config = (codes "size", codes "1GB") ∷ (codes "user.a", codes "x") ∷ []

abbrev new_config : List (Bytes × Bytes)
new_config = (codes "size", codes "2GB") ∷ []

resolve_mount_options_lem_example :
    resolve_mount_options (codes "ro,discard,noatime")
    ≡ some (
      known_flags (split (codes "ro,discard,noatime") b',') no_flags,
      unknown (split (codes "ro,discard,noatime") b','),
    )
resolve_mount_options_lem_example = resolve_mount_options_lem (codes "ro,discard,noatime")

abbrev disk : Disk
disk = record { frsize = 4096; blocks = 104857600 }

abbrev thin_config : List (Bytes × Bytes)
thin_config = (codes "lvm.use_thinpool", []) ∷ []

abbrev thin_filled : List (Bytes × Bytes)
thin_filled =
    (codes "lvm.use_thinpool", [])
    ∷ (codes "size", codes "80GB")
    ∷ (codes "lvm.thinpool_name", codes "APOLLOThinpool")
    ∷ []

fill_default-validate_config_example :
    Pool.validate_config (codes "lvm") thin_filled
    ≡ not (bytes_eq (codes "lvm") (codes "lvm") && has_empty_thinpool thin_config)
unfolding Pool.validate_config mercuryc.Config.is_one_of string_in_slice bytes_eq
    mercuryc.Base.Dict.find mercuryc.Config.is_true mercuryc.Base.to_lower get
    mercuryc.Base.has_prefix mercuryc.Config.is_bool Pool.fill_default mercuryc.Base.Dict.put
    mercuryc.Strconv.format_uint
fill_default-validate_config_example =
    fill_default-validate_config (codes "lvm") (some disk) thin_config thin_filled refl refl

abbrev zfs_pool : StoragePool
zfs_pool = record { driver = codes "zfs"; config = [] }

abbrev backend : Backend
backend = record {
  update = λ new changed. not (string_in_slice (codes "source") changed);
  pool_found = true;
  write = true;
}

abbrev before : State
before = record {
  memory = record { description = []; config = old_config };
  stored = record { description = []; config = old_config };
}

abbrev wanted : Writable
wanted = record { description = codes "two"; config = new_config }

pool_update_lem_example :
    ((pool_update backend before wanted).1 ≡ false → (pool_update backend before wanted).0 ≡ before)
    × (before.memory ≡ before.stored
        → (pool_update backend before wanted).1 ≡ true
        → Updated (pool_update backend before wanted).0 wanted)
    × (bytes_eq (get (codes "driver") old_config) (get (codes "driver") new_config) ≡ false
        → (pool_update backend before wanted).1 ≡ false)
pool_update_lem_example = pool_update_lem backend before wanted
