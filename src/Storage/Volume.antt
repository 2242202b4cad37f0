-- ===== src/Storage/Volume.antt =====
-- apollo/storage_volumes_config.go: the keys of a storage volume, the check of its configuration and
-- its defaults.
use mercuryc.Base.{
  Bytes, List, [], ◌∷◌, Option, none, some, Bool, true, false, ◌&&◌, ◌||◌, not, if◌then◌else◌,
  codes, ◌>>=◌, bytes_eq, is_empty, has_prefix,
}
use mercuryc.Base.Dict.{find, put}
use mercuryc.Size.{parse_byte_size}
use mercuryc.Device.{get}
use mercuryc.Storage.Pool.{Checker, any, bool, size, filesystem, check}

-- storageVolumeConfigKeys
abbrev pub storage_volume_config_keys : List (Bytes × Checker)
storage_volume_config_keys =
    (codes "block.mount_options", any)
    ∷ (codes "block.filesystem", filesystem)
    ∷ (codes "size", size)
    ∷ (codes "zfs.use_refquota", bool)
    ∷ (codes "zfs.remove_snapshots", bool)
    ∷ (codes "volatile.idmap.last", any)
    ∷ (codes "volatile.idmap.next", any)
    ∷ []

-- api.StoragePool
pub record StoragePool : Type 0 where
  pub driver : Bytes
  pub config : List (Bytes × Bytes)

abbrev pub is_unset : Bytes → List (Bytes × Bytes) → Bool
is_unset key config = is_empty (get key config)

-- The checks of the whole configuration against the pool's driver, which the code makes at each key.
unfoldable pub fits_pool : StoragePool → List (Bytes × Bytes) → Bool
fits_pool pool config =
    ((bytes_eq pool.driver (codes "zfs") && not (bytes_eq pool.driver (codes "dir")))
      || (is_unset (codes "zfs.use_refquota") config
          && is_unset (codes "zfs.remove_snapshots") config))
    && (not (bytes_eq pool.driver (codes "dir"))
        || (is_unset (codes "block.mount_options") config
            && (is_unset (codes "block.filesystem") config && is_unset (codes "size") config)))

unfoldable pub valid_entry : StoragePool → List (Bytes × Bytes) → Bytes → Bytes → Bool
unfolding fits_pool
valid_entry pool config key val =
    has_prefix key (codes "user.")
    || (elim (find key storage_volume_config_keys) [
      | none ↦ false
      | some validator ↦ check validator val
    ]
        && fits_pool pool config)

unfoldable pub entries_loop : StoragePool → List (Bytes × Bytes) → List (Bytes × Bytes) → Bool
unfolding valid_entry
entries_loop pool config [] = true
entries_loop pool config ((key, val) ∷ rest) =
    valid_entry pool config key val && entries_loop pool config rest

-- storageVolumeValidateConfig
unfoldable pub validate_config : List (Bytes × Bytes) → StoragePool → Bool
unfolding entries_loop
validate_config config pool = entries_loop pool config config

abbrev pub fill : Bool → Bytes → Bytes → List (Bytes × Bytes) → List (Bytes × Bytes)
fill test key value config = if test then put key value config else config

abbrev pub is_no_size : List (Bytes × Bytes) → Bool
is_no_size config =
    bytes_eq (get (codes "size") config) (codes "0") || is_empty (get (codes "size") config)

-- The defaults on a pool of the driver lvm.
unfoldable pub fill_lvm : StoragePool → List (Bytes × Bytes) → List (Bytes × Bytes)
fill_lvm pool config =
    let fs = codes "block.filesystem" in
    let c =
      fill (is_unset fs config) fs (get (codes "volume.block.filesystem") pool.config) config in
    let d = fill (is_unset fs c) fs (codes "ext4") c in
    let e = fill (is_no_size d) (codes "size") (get (codes "volume.size") pool.config) d in
    fill (is_no_size e) (codes "size") (codes "10GB") e

-- storageVolumeFillDefault
unfoldable pub fill_default : List (Bytes × Bytes) → StoragePool → Option (List (Bytes × Bytes))
unfolding fill_lvm
fill_default config pool =
    if bytes_eq pool.driver (codes "dir")
    then some (put (codes "size") [] config)
    else if bytes_eq pool.driver (codes "lvm")
    then some (fill_lvm pool config)
    else if is_unset (codes "size") config
    then some config
    else (do
      v ← parse_byte_size (get (codes "size") config)
      some (put (codes "size") (codes "10GB") config))
