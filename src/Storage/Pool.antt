-- ===== src/Storage/Pool.antt =====
-- apollo/storage_pools_config.go: the keys of a storage pool, the check of its configuration and its
-- defaults. A check's result is whether it returns no error; the error of storagePoolFillDefault is `none`.
use mercuryc.Base.{
  ℕ, ◌*◌, ◌/◌, ◌%◌, ◌^◌, Bytes, List, [], ◌∷◌, ◌++◌, Option, none, some, Bool, true, false, ◌&&◌,
  ◌||◌, not, ltb, if◌then◌else◌, codes, ◌>>=◌, bytes_eq, is_empty, has_prefix,
}
use mercuryc.Base.Dict.{find, put, has, is_some}
use mercuryc.Base.Word.{int64_mod}
use mercuryc.Strconv.{format_uint}
use mercuryc.Size.{parse_byte_size}
use mercuryc.Config.{is_bool, is_one_of, is_true}
use mercuryc.Device.{get}

-- The checkers that the table holds.
pub data Checker : Type 0 where
  any bool size filesystem : Checker

unfoldable pub check : Checker → Bytes → Bool
check any value = true
check bool value = is_bool value
check size value = is_empty value || is_some (parse_byte_size value)
check filesystem value = is_one_of value (codes "ext4" ∷ codes "xfs" ∷ [])

-- storagePoolConfigKeys
abbrev pub storage_pool_config_keys : List (Bytes × Checker)
storage_pool_config_keys =
    (codes "btrfs.mount_options", any)
    ∷ (codes "lvm.thinpool_name", any)
    ∷ (codes "lvm.use_thinpool", bool)
    ∷ (codes "lvm.vg_name", any)
    ∷ (codes "size", size)
    ∷ (codes "source", any)
    ∷ (codes "volume.block.filesystem", filesystem)
    ∷ (codes "volume.block.mount_options", any)
    ∷ (codes "volume.size", size)
    ∷ (codes "volume.zfs.remove_snapshots", bool)
    ∷ (codes "volume.zfs.use_refquota", bool)
    ∷ (codes "zfs.clone_copy", bool)
    ∷ (codes "zfs.pool_name", any)
    ∷ (codes "rsync.bwlimit", any)
    ∷ []

abbrev pub supported_drivers : List Bytes
supported_drivers = codes "btrfs" ∷ codes "dir" ∷ codes "lvm" ∷ codes "zfs" ∷ []

-- Whether a key may be used with a driver.
unfoldable pub fits_driver : Bytes → Bytes → Bool
fits_driver driver key =
    if bytes_eq driver (codes "dir") && bytes_eq key (codes "size")
    then false
    else if not (bytes_eq driver (codes "lvm"))
        && (has_prefix key (codes "lvm.")
            || (has_prefix key (codes "volume.block.") || bytes_eq key (codes "volume.size")))
    then false
    else not (
        not (bytes_eq driver (codes "zfs"))
        && (has_prefix key (codes "volume.zfs.") || has_prefix key (codes "zfs.")))

unfoldable pub valid_entry : Bytes → Bytes → Bytes → Bool
unfolding fits_driver check
valid_entry driver key val =
    has_prefix key (codes "user.")
    || (fits_driver driver key && elim (find key storage_pool_config_keys) [
      | none ↦ false
      | some validator ↦ check validator val
    ])

unfoldable pub entries_loop : Bytes → List (Bytes × Bytes) → Bool
unfolding valid_entry
entries_loop driver [] = true
entries_loop driver ((key, val) ∷ config) = valid_entry driver key val && entries_loop driver config

-- The check of lvm.use_thinpool against lvm.thinpool_name.
unfoldable pub thinpool_agrees : List (Bytes × Bytes) → Bool
thinpool_agrees config = not (
    has (codes "lvm.use_thinpool") config
    && (not (is_true (get (codes "lvm.use_thinpool") config))
        && not (is_empty (get (codes "lvm.thinpool_name") config))))

-- storagePoolValidateConfig
unfoldable pub validate_config : Bytes → List (Bytes × Bytes) → Bool
unfolding entries_loop thinpool_agrees
validate_config driver config =
    let limit = get (codes "rsync.bwlimit") config in
    if not (is_one_of driver supported_drivers)
    then false
    else if bytes_eq driver (codes "lvm") && not (thinpool_agrees config)
    then false
    else if not (is_empty limit) && not (is_some (parse_byte_size limit))
    then false
    else entries_loop driver config

-- What Statfs gives of the file system: the fragment size and the number of blocks.
pub record Disk : Type 0 where
  pub frsize : ℕ
  pub blocks : ℕ

-- A fifth of the disk in GB, at least 15 and at most 100.
unfoldable pub default_gb : Disk → ℕ
default_gb disk =
    let size = (disk.frsize * disk.blocks) % int64_mod / 2 ^ 30 / 5 in
    if ltb 100 size then 100 else if ltb size 15 then 15 else size

unfoldable pub fill_size : Option Disk → List (Bytes × Bytes) → Option (List (Bytes × Bytes))
unfolding default_gb
fill_size disk config =
    if is_empty (get (codes "size") config)
    then (do d ← disk; some (put (codes "size") (format_uint (default_gb d) ++ codes "GB") config))
    else (do v ← parse_byte_size (get (codes "size") config); some config)

abbrev pub uses_thinpool : List (Bytes × Bytes) → Bool
uses_thinpool config =
    let value = get (codes "lvm.use_thinpool") config in is_empty value || is_true value

unfoldable pub fill_thinpool : List (Bytes × Bytes) → List (Bytes × Bytes)
fill_thinpool config =
    if uses_thinpool config && is_empty (get (codes "lvm.thinpool_name") config)
    then put (codes "lvm.thinpool_name") (codes "APOLLOThinpool") config
    else config

unfoldable pub fill_lvm : List (Bytes × Bytes) → Option (List (Bytes × Bytes))
unfolding fill_thinpool
fill_lvm config =
    let filled = fill_thinpool config in
    let size = get (codes "volume.size") filled in
    if is_empty size then some filled else (do v ← parse_byte_size size; some filled)

-- storagePoolFillDefault; the map is filled in place, so before an error a part may be filled.
unfoldable pub fill_default :
    Bytes → Option Disk → List (Bytes × Bytes) → Option (List (Bytes × Bytes))
unfolding fill_size fill_lvm
fill_default driver disk config = do
  filled ← if bytes_eq driver (codes "dir") then some config else fill_size disk config
  if bytes_eq driver (codes "lvm") then fill_lvm filled else some filled
