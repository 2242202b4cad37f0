-- ===== src/Container.antt =====
-- The validation of a container's name and configuration in apollo/container.go; the devices are in
-- a child. A check's
-- result is whether it returns no error; which error a map with several faults gives depends on the
-- order in which it is walked, and is not modelled.
pub mod Devices
pub mod Lock
pub mod Raw
pub mod Expand
pub mod Update
pub mod Proofs
mod Tests
use mercuryc.Base.{
  ℕ, Bytes, List, [], ◌∷◌, ◌++◌, Option, none, some, Bool, true, false, ◌&&◌, ◌<◌, ◌||◌, not, ◌==◌,
  ltb, leb, if◌then◌else◌, ◌≡◌, ◌>>=◌, codes, bytes_eq, is_empty, string_in_slice, has_prefix,
  has_suffix, contains_text, split_two, length, to_lower,
}
use mercuryc.Base.Dict.{find, has, is_some}
use mercuryc.Strconv.{atoi, is_digit}
use mercuryc.Config.{Checker, check, config_key_checker, is_true}
use mercuryc.Device.{Device, get}

-- What the checks ask of the daemon and of the host.
pub record Daemon : Type 0 where
  pub architectures : List ℕ
  pub has_idmap_set : Bool
  pub mercury_valid_config : Bytes → Bool
  pub is_dir : Bytes → Bool
  pub path_exists : Bytes → Bool
  pub pool_exists : Bytes → Bool
  pub device_type : Bytes → Option Bytes

-- containerGetParentAndSnapshotName: the snapshot's name, if there is a delimiter.
unfoldable pub parent_and_snapshot_name : Bytes → Bytes × Option Bytes
parent_and_snapshot_name name = split_two b'/' name

-- The bytes of the expression [-a-zA-Z0-9].
unfoldable pub is_hostname_byte : ℕ → Bool
is_hostname_byte c =
    c == b'-'
    || ((leb b'a' c && leb c b'z') || ((leb b'A' c && leb c b'Z') || (leb b'0' c && leb c b'9')))

unfoldable pub all_hostname_bytes : Bytes → Bool
unfolding is_hostname_byte
all_hostname_bytes [] = true
all_hostname_bytes (c ∷ s) = is_hostname_byte c && all_hostname_bytes s

-- shared.ValidHostname. string(name[0]) is one byte, or two for a byte that is not ASCII, and then
-- no number.
unfoldable pub valid_hostname : Bytes → Bool
unfolding all_hostname_bytes
valid_hostname [] = false
valid_hostname (c ∷ s) =
    if ltb 63 (length (c ∷ s))
    then false
    else if c == b'-'
    then false
    else if is_some (atoi (c ∷ []))
    then false
    else if has_suffix (c ∷ s) (codes "-")
    then false
    else all_hostname_bytes (c ∷ s)

-- containerValidName
unfoldable pub valid_name : Bytes → Bool
valid_name name = not (contains_text name (codes "/")) && valid_hostname name

unfoldable pub supports_compat : List ℕ → Bool
supports_compat [] = false
supports_compat (arch ∷ archs) = (arch == 2 || (arch == 4 || arch == 6)) || supports_compat archs

-- containerValidConfigKey
unfoldable pub valid_config_key : Daemon → Bytes → Bytes → Bool
unfolding supports_compat
valid_config_key d key value = elim (config_key_checker key) [
  | none ↦ false
  | some f ↦
      if not (check f value)
      then false
      else if bytes_eq key (codes "raw.mercury")
      then d.mercury_valid_config value
      else if bytes_eq key (codes "security.syscalls.blacklist_compat")
      then supports_compat d.architectures
      else true
]

-- The loop of containerValidConfig.
unfoldable pub valid_config_keys : Daemon → Bool → List (Bytes × Bytes) → Bool
valid_config_keys d profile [] = true
valid_config_keys d profile ((k, v) ∷ config) =
    let rest = valid_config_keys d profile config in
    if profile && has_prefix k (codes "volatile.")
    then false
    else if profile && has_prefix k (codes "image.")
    then false
    else if not (valid_config_key d k v)
    then false
    else rest

-- The checks on several keys.
unfoldable pub valid_together : Daemon → Bool → List (Bytes × Bytes) → Bool
valid_together d expanded config =
    let raw_seccomp = has (codes "raw.seccomp") config in
    let whitelist = has (codes "security.syscalls.whitelist") config in
    let blacklist = has (codes "security.syscalls.blacklist") config in
    let blacklist_default = is_true (get (codes "security.syscalls.blacklist_default") config) in
    let blacklist_compat = is_true (get (codes "security.syscalls.blacklist_compat") config) in
    let privileged = get (codes "security.privileged") config in
    if raw_seccomp && (whitelist || (blacklist || (blacklist_default || blacklist_compat)))
    then false
    else if whitelist && (blacklist || (blacklist_default || blacklist_compat))
    then false
    else if expanded && ((is_empty privileged || not (is_true privileged)) && not d.has_idmap_set)
    then false
    else true

-- containerValidConfig; `none` is a nil map.
unfoldable pub valid_config : Daemon → Option (List (Bytes × Bytes)) → Bool → Bool → Bool
unfolding valid_config_keys valid_together
valid_config d none profile expanded = true
valid_config d (some config) profile expanded =
    if not (valid_config_keys d profile config) then false else valid_together d expanded config
