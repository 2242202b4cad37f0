-- ===== src/Server.antt =====
-- apollo/daemon_config.go: the keys of the daemon's configuration, their checks and their setters, over
-- the cache of values and the table config of the data base.
pub mod Request
pub mod Proofs
mod Tests
use mercuryc.Base.{
  Bytes, List, [], ◌∷◌, Option, none, some, Bool, true, false, ◌&&◌, ◌||◌, not, if◌then◌else◌,
  codes, ◌>>=◌, bytes_eq, is_empty, string_in_slice, to_lower,
}
use mercuryc.Base.Dict.{find, put, delete, is_some}
use mercuryc.Strconv.{parse_int64}
use mercuryc.Config.{is_true}
use mercuryc.Device.{get}

pub data ValueType : Type 0 where
  text bool int : ValueType

-- daemonConfigValidateCompression and storageDeprecatedKeys
pub data Validator : Type 0 where
  compression deprecated : Validator

-- daemonConfigSetAddress, daemonConfigSetProxy and daemonConfigSetPassword
pub data Setter : Type 0 where
  address proxy password : Setter

-- daemonConfigKey without its current value, which stands in the server's state. No key's trigger is called.
pub record Key : Type 0 where
  pub value_type : ValueType
  pub default_value : Bytes
  pub valid_values : Option (List Bytes)
  pub hidden_value : Bool
  pub validator : Option Validator
  pub setter : Option Setter

abbrev pub plain : ValueType → Bytes → Key
plain t d = record {
  value_type = t;
  default_value = d;
  valid_values = none;
  hidden_value = false;
  validator = none;
  setter = none;
}

abbrev pub deprecated_key : ValueType → Bytes → Key
deprecated_key t d = record (plain t d) { validator = some deprecated }

-- The table that daemonConfigInit builds.
abbrev pub daemon_config : List (Bytes × Key)
daemon_config =
    (codes "core.https_address", record (plain text []) { setter = some address })
    ∷ (codes "core.https_allowed_headers", plain text [])
    ∷ (codes "core.https_allowed_methods", plain text [])
    ∷ (codes "core.https_allowed_origin", plain text [])
    ∷ (codes "core.https_allowed_credentials", plain bool [])
    ∷ (codes "core.proxy_http", record (plain text []) { setter = some proxy })
    ∷ (codes "core.proxy_https", record (plain text []) { setter = some proxy })
    ∷ (codes "core.proxy_ignore_hosts", record (plain text []) { setter = some proxy })
    ∷ (
      codes "core.trust_password",
      record (plain text []) { hidden_value = true; setter = some password },
    )
    ∷ (codes "images.auto_update_cached", plain bool (codes "true"))
    ∷ (codes "images.auto_update_interval", plain int (codes "6"))
    ∷ (
      codes "images.compression_algorithm",
      record (plain text (codes "gzip")) { validator = some compression },
    )
    ∷ (codes "images.remote_cache_expiry", plain int (codes "10"))
    ∷ (
      codes "storage.lvm_fstype",
      record (deprecated_key text (codes "ext4")) {
        valid_values = some (codes "ext4" ∷ codes "xfs" ∷ []);
      },
    )
    ∷ (codes "storage.lvm_mount_options", deprecated_key text (codes "discard"))
    ∷ (codes "storage.lvm_thinpool_name", deprecated_key text (codes "APOLLOPool"))
    ∷ (codes "storage.lvm_vg_name", deprecated_key text [])
    ∷ (codes "storage.lvm_volume_size", deprecated_key text (codes "10GiB"))
    ∷ (codes "storage.zfs_pool_name", deprecated_key text [])
    ∷ (codes "storage.zfs_remove_snapshots", deprecated_key bool [])
    ∷ (codes "storage.zfs_use_refquota", deprecated_key bool [])
    ∷ []

-- exec.LookPath, the salted hash of a password (none is an error), tls.Listen at the address as it is
-- given, and whether the data base accepts the write.
pub record System : Type 0 where
  pub look_path : Bytes → Bool
  pub hash : Bytes → Option Bytes
  pub listen : Bytes → Bool
  pub write : Bool

-- The current values, the table config, the address that is listened at (the empty text is none), the
-- arguments of ProxyFromConfig, and the names in imageStreamCache.
pub record Server : Type 0 where
  pub current : List (Bytes × Bytes)
  pub stored : List (Bytes × Bytes)
  pub socket : Bytes
  pub proxy_config : List (Bytes × Bytes)
  pub streams : List Bytes

unfoldable pub get_value : Server → Bytes → Key → Bytes
get_value s name key =
    let value = get name s.current in if is_empty value then key.default_value else value

-- Get of a key of the table.
unfoldable pub get_named : Server → Bytes → Bytes
unfolding find get_value
get_named s name = elim (find name daemon_config) [ none ↦ [] | some key ↦ get_value s name key ]

unfoldable pub get_bool : Server → Bytes → Bool
unfolding get_named
get_bool s name = is_true (get_named s name)

unfoldable pub run_validator : System → Key → Bytes → Bool
run_validator sys key value = elim key.validator [
  | none ↦ true
  | some compression ↦ bytes_eq value (codes "none") || sys.look_path value
  | some deprecated ↦ is_empty value || bytes_eq key.default_value value
]

unfoldable pub valid_type : ValueType → Bytes → Bool
valid_type text value = true
valid_type bool value = string_in_slice (to_lower value) (
    codes "true"
    ∷ codes "false"
    ∷ codes "1"
    ∷ codes "0"
    ∷ codes "yes"
    ∷ codes "no"
    ∷ codes "on"
    ∷ codes "off"
    ∷ [])
valid_type int value = is_some (parse_int64 value)

-- Validate
unfoldable pub validate : System → Key → Bytes → Bool
unfolding run_validator valid_type
validate sys key value =
    if is_empty value
    then run_validator sys key key.default_value
    else if not (valid_type key.value_type value)
    then false
    else if not (elim key.valid_values [ none ↦ true | some values ↦ string_in_slice value values ])
    then false
    else run_validator sys key value

-- UpdateHTTPsPort: the old socket is closed before the new one is opened.
unfoldable pub update_https_port : System → Server → Bytes → Server × Bool
unfolding get_named
update_https_port sys s new_address =
    if bytes_eq (get_named s (codes "core.https_address")) new_address
    then (s, true)
    else if is_empty new_address
    then (record s { socket = [] }, true)
    else if sys.listen new_address
    then (record s { socket = new_address }, true)
    else (record s { socket = [] }, false)

-- The call of a key's setter: the new state and the value to store; none is an error.
unfoldable pub run_setter : System → Server → Bytes → Option Setter → Bytes → Server × Option Bytes
unfolding update_https_port get_named
run_setter sys s name none value = (s, some value)
run_setter sys s name (some address) value =
    let (s', ok) = update_https_port sys s value in (s', if ok then some value else none)
run_setter sys s name (some proxy) value =
    let config = put name value (
      (codes "core.proxy_https", get_named s (codes "core.proxy_https"))
      ∷ (codes "core.proxy_http", get_named s (codes "core.proxy_http"))
      ∷ (codes "core.proxy_ignore_hosts", get_named s (codes "core.proxy_ignore_hosts"))
      ∷ []) in
    (record s { proxy_config = config; streams = [] }, some value)
run_setter sys s name (some password) value =
    (s, if is_empty value then some value else sys.hash value)

-- dbConfigValueSet, where the data base accepts it.
unfoldable pub store_value : Bytes → Bytes → List (Bytes × Bytes) → List (Bytes × Bytes)
unfolding delete put
store_value name value table =
    let rest = delete name table in if is_empty value then rest else put name value rest

-- The end of Set: the cache is changed first.
unfoldable pub apply_value : System → Server → Bytes → Bytes → Server × Bool
unfolding store_value
apply_value sys s name value =
    let cached = record s { current = put name value s.current } in
    if sys.write
    then (record cached { stored = store_value name value s.stored }, true)
    else (cached, false)

-- Set of the key that has this name; its name is found, since it stands in the table.
unfoldable pub set_value : System → Server → Bytes → Key → Bytes → Server × Bool
unfolding validate run_setter apply_value
set_value sys s name key value =
    if bytes_eq (get name s.current) value
    then (s, true)
    else if not (validate sys key value)
    then (s, false)
    else (let called = run_setter sys s name key.setter value in
        elim called.1 [
          | none ↦ (called.0, false)
          | some value' ↦ apply_value sys called.0 name value'
        ])

-- The loop of daemonConfigInit over the values in the data base: `none` is the panic on a key that is not
-- in the table, of which the code only logs that it is invalid.
unfoldable pub init_loop :
    List (Bytes × Bytes) → List (Bytes × Bytes) → Option (List (Bytes × Bytes))
unfolding find put
init_loop [] current = some current
init_loop ((name, value) ∷ values) current =
    let rest = init_loop values (put name value current) in
    if is_some (find name daemon_config) then rest else none

unfoldable pub daemon_config_init : List (Bytes × Bytes) → Option (List (Bytes × Bytes))
unfolding init_loop
daemon_config_init values = init_loop values []
