-- ===== src/Storage.antt =====
-- apollo/storage_utils.go: the difference of two configurations and the mount options; and the names
-- of the volume types in apollo/storage_volumes_utils.go.
pub mod Pool
pub mod Volume
pub mod Update
pub mod Proofs
mod Tests
use mercuryc.Base.{
  ℕ, zero, suc, ◌+◌, ◌-◌, ◌^◌, Bytes, List, [], ◌∷◌, ◌++◌, Option, none, some, Bool, true, false,
  ◌&&◌, ◌||◌, not, ◌==◌, ltb, if◌then◌else◌, codes, bytes_eq, is_empty, split, string_in_slice,
  has_prefix, length, take, drop, get_elem?,
}
use mercuryc.Base.Dict.{find}
use mercuryc.Device.{get}

-- One loop of storageConfigDiff over the keys of a map, from the changed keys and userOnly.
unfoldable pub diff_loop :
    List (Bytes × Bytes)
    → List (Bytes × Bytes)
    → List (Bytes × Bytes)
    → List Bytes
    → Bool
    → List Bytes × Bool
diff_loop old new [] changed user_only = (changed, user_only)
diff_loop old new ((key, v) ∷ rest) changed user_only =
    let differs = not (bytes_eq (get key old) (get key new)) in
    diff_loop old new rest
      (if differs && not (string_in_slice key changed) then changed ++ key ∷ [] else changed)
      (if differs && not (has_prefix key (codes "user.")) then false else user_only)

-- storageConfigDiff; nil is the empty list.
unfoldable pub config_diff : List (Bytes × Bytes) → List (Bytes × Bytes) → List Bytes × Bool
unfolding diff_loop
config_diff old new =
    let (changed, user_only) = diff_loop old new old [] true in
    let (changed', user_only') = diff_loop old new new changed user_only in
    if is_empty changed' then ([], false) else (changed', user_only')

-- mountOptions: the flag's bits are set, or cleared.
pub record MountOption : Type 0 where
  pub capture : Bool
  pub flag : List ℕ

-- MountOptions, each flag as the numbers of its bits in the mount system call.
abbrev pub mount_options : List (Bytes × MountOption)
mount_options =
    (codes "async", record { capture = false; flag = 4 ∷ [] })
    ∷ (codes "atime", record { capture = false; flag = 10 ∷ [] })
    ∷ (codes "bind", record { capture = true; flag = 12 ∷ [] })
    ∷ (codes "defaults", record { capture = true; flag = [] })
    ∷ (codes "dev", record { capture = false; flag = 2 ∷ [] })
    ∷ (codes "diratime", record { capture = false; flag = 11 ∷ [] })
    ∷ (codes "dirsync", record { capture = true; flag = 7 ∷ [] })
    ∷ (codes "exec", record { capture = false; flag = 3 ∷ [] })
    ∷ (codes "lazytime", record { capture = true; flag = 25 ∷ [] })
    ∷ (codes "mand", record { capture = true; flag = 6 ∷ [] })
    ∷ (codes "noatime", record { capture = true; flag = 10 ∷ [] })
    ∷ (codes "nodev", record { capture = true; flag = 2 ∷ [] })
    ∷ (codes "nodiratime", record { capture = true; flag = 11 ∷ [] })
    ∷ (codes "noexec", record { capture = true; flag = 3 ∷ [] })
    ∷ (codes "nomand", record { capture = false; flag = 6 ∷ [] })
    ∷ (codes "norelatime", record { capture = false; flag = 21 ∷ [] })
    ∷ (codes "nostrictatime", record { capture = false; flag = 24 ∷ [] })
    ∷ (codes "nosuid", record { capture = true; flag = 1 ∷ [] })
    ∷ (codes "rbind", record { capture = true; flag = 12 ∷ 14 ∷ [] })
    ∷ (codes "relatime", record { capture = true; flag = 21 ∷ [] })
    ∷ (codes "remount", record { capture = true; flag = 5 ∷ [] })
    ∷ (codes "ro", record { capture = true; flag = 0 ∷ [] })
    ∷ (codes "rw", record { capture = false; flag = 0 ∷ [] })
    ∷ (codes "strictatime", record { capture = true; flag = 24 ∷ [] })
    ∷ (codes "suid", record { capture = false; flag = 1 ∷ [] })
    ∷ (codes "sync", record { capture = true; flag = 4 ∷ [] })
    ∷ []

abbrev pub mem : ℕ → List ℕ → Bool
mem n [] = false
mem n (x ∷ xs) = x == n || mem n xs

-- The flags of a call: for each bit, whether it is set.
abbrev pub Flags : Type 0
Flags = ℕ → Bool

-- mountFlags |= do.flag, and mountFlags &= ^do.flag.
unfoldable pub apply_option : MountOption → Flags → Flags
apply_option o flags bit = if mem bit o.flag then o.capture else flags bit

-- The loop of apolloResolveMountoptions: `i` is its index, and an option that is known is taken out of
-- `tmp`. `none` is the end of the fuel; the number of options is enough.
unfoldable pub resolve_loop : ℕ → ℕ → List Bytes → Flags → Option (Flags × List Bytes)
unfolding apply_option find
resolve_loop zero i tmp flags = if ltb i (length tmp) then none else some (flags, tmp)
resolve_loop (suc fuel) i tmp flags = elim (get_elem? tmp i) [
  | none ↦ some (flags, tmp)
  | some opt ↦ elim (find opt mount_options) [
    | none ↦ resolve_loop fuel (suc i) tmp flags
    | some o ↦ resolve_loop fuel i (take i tmp ++ drop (suc i) tmp) (apply_option o flags)
  ]
]

abbrev pub no_flags : Flags
no_flags bit = false

-- apolloResolveMountoptions; the options that are left are joined by commas.
unfoldable pub resolve_mount_options : Bytes → Option (Flags × List Bytes)
unfolding resolve_loop
resolve_mount_options options =
    let tmp = split options b',' in resolve_loop (length tmp) 0 tmp no_flags

-- storagePoolVolumeTypeNameToType and storagePoolVolumeTypeToName
pub data VolumeType : Type 0 where
  container image custom : VolumeType

unfoldable pub type_of_name : Bytes → Option VolumeType
type_of_name name =
    if bytes_eq name (codes "container")
    then some container
    else if bytes_eq name (codes "image")
    then some image
    else if bytes_eq name (codes "custom")
    then some custom
    else none

unfoldable pub name_of_type : VolumeType → Bytes
name_of_type container = codes "container"
name_of_type image = codes "image"
name_of_type custom = codes "custom"

-- storagePoolVolumeTypeToAPIEndpoint
unfoldable pub endpoint_of_type : VolumeType → Bytes
endpoint_of_type container = codes "containers"
endpoint_of_type image = codes "images"
endpoint_of_type custom = codes "custom"
