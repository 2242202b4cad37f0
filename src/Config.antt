-- ===== src/Config.antt =====
-- shared/container.go: the checkers of values and the table of the container's configuration keys.
-- A checker's result is whether it returns no error.
pub mod Proofs
mod Tests
use mercuryc.Base.{
  ℕ, Bytes, List, [], ◌∷◌, ◌++◌, Option, none, some, Bool, true, false, ◌&&◌, ◌||◌, not, ◌==◌, ltb,
  if◌then◌else◌, ◌≡◌, codes, bytes_eq, is_empty, string_in_slice, to_lower, has_prefix, has_suffix,
  trim_suffix, split_two,
}
use mercuryc.Base.Dict.{find, is_some}
use mercuryc.Base.Word.{lt}
use mercuryc.Strconv.{parse_int64, parse_uint32, atoi}
use mercuryc.Size.{parse_byte_size}

unfoldable pub is_int64 : Bytes → Bool
is_int64 value = is_empty value || is_some (parse_int64 value)

unfoldable pub is_uint32 : Bytes → Bool
is_uint32 value = is_empty value || is_some (parse_uint32 value)

unfoldable pub is_priority : Bytes → Bool
is_priority value =
    is_empty value || elim (parse_int64 value) [ none ↦ false | some v ↦ not (lt v 0 || lt 10 v) ]

unfoldable pub is_bool : Bytes → Bool
is_bool value =
    is_empty value
    || string_in_slice (to_lower value) (
        codes "true"
        ∷ codes "false"
        ∷ codes "yes"
        ∷ codes "no"
        ∷ codes "1"
        ∷ codes "0"
        ∷ codes "on"
        ∷ codes "off"
        ∷ [])

unfoldable pub is_one_of : Bytes → List Bytes → Bool
is_one_of value valid = is_empty value || string_in_slice value valid

-- shared.IsTrue
unfoldable pub is_true : Bytes → Bool
is_true value =
    string_in_slice (to_lower value) (codes "true" ∷ codes "1" ∷ codes "yes" ∷ codes "on" ∷ [])

-- The checker of limits.cpu.allowance: a percentage, or a time in every period of time.
unfoldable pub is_allowance : Bytes → Bool
is_allowance value =
    if is_empty value
    then true
    else if has_suffix value (codes "%")
    then is_some (atoi (trim_suffix value (codes "%")))
    else (let (first, second) = split_two b'/' value in
        elim second [
          | none ↦ false
          | some s ↦
              is_some (atoi (trim_suffix first (codes "ms")))
              && is_some (atoi (trim_suffix s (codes "ms")))
        ])

-- The checker of limits.memory.
unfoldable pub is_memory_limit : Bytes → Bool
is_memory_limit value =
    if is_empty value
    then true
    else if has_suffix value (codes "%")
    then is_some (parse_int64 (trim_suffix value (codes "%")))
    else is_some (parse_byte_size value)

-- The checkers that the table holds.
pub data Checker : Type 0 where
  any bool int64 uint32 priority allowance memory enforce : Checker

unfoldable pub check : Checker → Bytes → Bool
unfolding is_bool is_int64 is_uint32 is_priority is_allowance is_memory_limit is_one_of
check any value = true
check bool value = is_bool value
check int64 value = is_int64 value
check uint32 value = is_uint32 value
check priority value = is_priority value
check allowance value = is_allowance value
check memory value = is_memory_limit value
check enforce value = is_one_of value (codes "soft" ∷ codes "hard" ∷ [])

-- KnownContainerConfigKeys
abbrev pub known_container_config_keys : List (Bytes × Checker)
known_container_config_keys =
    (codes "boot.autostart", bool)
    ∷ (codes "boot.autostart.delay", int64)
    ∷ (codes "boot.autostart.priority", int64)
    ∷ (codes "boot.host_shutdown_timeout", int64)
    ∷ (codes "limits.cpu", any)
    ∷ (codes "limits.cpu.allowance", allowance)
    ∷ (codes "limits.cpu.priority", priority)
    ∷ (codes "limits.disk.priority", priority)
    ∷ (codes "limits.memory", memory)
    ∷ (codes "limits.memory.enforce", enforce)
    ∷ (codes "limits.memory.swap", bool)
    ∷ (codes "limits.memory.swap.priority", priority)
    ∷ (codes "limits.network.priority", priority)
    ∷ (codes "limits.processes", int64)
    ∷ (codes "linux.kernel_modules", any)
    ∷ (codes "security.nesting", bool)
    ∷ (codes "security.privileged", bool)
    ∷ (codes "security.idmap.size", uint32)
    ∷ (codes "security.idmap.isolated", bool)
    ∷ (codes "security.syscalls.blacklist_default", bool)
    ∷ (codes "security.syscalls.blacklist_compat", bool)
    ∷ (codes "security.syscalls.blacklist", any)
    ∷ (codes "security.syscalls.whitelist", any)
    ∷ (codes "raw.apparmor", any)
    ∷ (codes "raw.mercury", any)
    ∷ (codes "raw.seccomp", any)
    ∷ (codes "raw.idmap", any)
    ∷ (codes "volatile.apply_template", any)
    ∷ (codes "volatile.base_image", any)
    ∷ (codes "volatile.last_state.idmap", any)
    ∷ (codes "volatile.last_state.power", any)
    ∷ (codes "volatile.idmap.next", any)
    ∷ (codes "volatile.idmap.base", any)
    ∷ (codes "volatile.apply_quota", any)
    ∷ []

-- The families of keys that are known by their prefix.
unfoldable pub is_open_key : Bytes → Bool
is_open_key key =
    has_prefix key (codes "volatile.")
      && (has_suffix key (codes ".hwaddr")
          || (has_suffix key (codes ".name") || has_suffix key (codes ".host_name")))
    || (has_prefix key (codes "environment.")
        || (has_prefix key (codes "user.") || has_prefix key (codes "image.")))

-- ConfigKeyChecker; `none` is the error "Bad key".
unfoldable pub config_key_checker : Bytes → Option Checker
unfolding find is_open_key
config_key_checker key = elim (find key known_container_config_keys) [
  | some f ↦ some f
  | none ↦ if is_open_key key then some any else none
]
