-- ===== src/Container/Update.antt =====
-- The first part of Update in apollo/container_mercury.go: the checks of the new settings, their expansion,
-- and what has changed. It ends before Update writes keys of its own (volatile.idmap.next, volatile.idmap.base,
-- volatile.apply_quota) into the settings. An error leaves the container as it was, since Update then puts everything back. The
-- data base, the runtime and the storage are parameters.
use mercuryc.Base.{
  ℕ, Bytes, List, [], ◌∷◌, Option, none, some, Bool, true, false, ◌&&◌, ◌||◌, not, ◌==◌,
  if◌then◌else◌, ◌>>=◌, codes, bytes_eq, string_in_slice, has_prefix,
}
use mercuryc.Base.Dict.{is_some}
use mercuryc.Arch.{architecture_name}
use mercuryc.Device.{Devices, Changes, get, update}
use mercuryc.Storage.{config_diff}
use mercuryc.Container.{Daemon, valid_config}
use mercuryc.Container.Devices.{valid_devices}
use mercuryc.Container.Expand.{expand}

-- containerArgs, as far as Update reads it; nil maps and lists are empty.
pub record Args : Type 0 where
  pub description : Bytes
  pub architecture : ℕ
  pub ephemeral : Bool
  pub config : List (Bytes × Bytes)
  pub devices : Devices
  pub profiles : List Bytes

-- The settings of a container, and their expansion.
pub record Settings : Type 0 where
  pub args : Args
  pub expanded_config : List (Bytes × Bytes)
  pub expanded_devices : Devices

-- The names and the maps of the profiles in the data base, and whether the runtime and the storage accept
-- the settings.
pub record Source : Type 0 where
  pub profiles : List Bytes
  pub profile_config : Bytes → Option (List (Bytes × Bytes))
  pub profile_devices : Bytes → Option Devices
  pub accepts : Settings → Bool

unfoldable pub all_profiles : List Bytes → List Bytes → Bool
all_profiles known [] = true
all_profiles known (name ∷ names) = string_in_slice name known && all_profiles known names

abbrev pub is_read_only : Bytes → Bool
is_read_only k = has_prefix k (codes "volatile.") || has_prefix k (codes "image.")

-- One loop of the check of the read-only keys: those of `config` have the same value in `other`.
unfoldable pub same_read_only : List (Bytes × Bytes) → List (Bytes × Bytes) → Bool
same_read_only other [] = true
same_read_only other ((k, v) ∷ config) =
    (not (is_read_only k) || bytes_eq (get k other) v) && same_read_only other config

-- The checks before anything is changed.
unfoldable pub update_checks : Daemon → Source → Bool → Settings → Args → Bool
unfolding all_profiles same_read_only
update_checks d source user_requested c args =
    valid_config d (some args.config) false false
    && (valid_devices d (some args.devices) false
        && (all_profiles source.profiles args.profiles
            && ((args.architecture == 0 || is_some (architecture_name args.architecture))
                && (not user_requested
                    || (same_read_only c.args.config args.config
                        && same_read_only args.config c.args.config)))))

-- The checks of the new settings as they are expanded.
unfoldable pub accepts_expanded : Daemon → Source → Settings → Bool
accepts_expanded d source c =
    valid_config d (some c.expanded_config) false true
    && (valid_devices d (some c.expanded_devices) true && source.accepts c)

-- What has changed: the keys of the configuration, and the devices.
unfoldable pub changes_of : Settings → Settings → List Bytes × Changes
changes_of old new = (
  (config_diff old.expanded_config new.expanded_config).0,
  update old.expanded_devices new.expanded_devices,
)

unfoldable pub apply_args : Source → Args → Option Settings
apply_args source args = do
  config ← expand source.profile_config args.profiles args.config
  devices ← expand source.profile_devices args.profiles args.devices
  some (record { args = args; expanded_config = config; expanded_devices = devices })

unfoldable pub default_args : Settings → Args → Args
default_args c new = record new {
  architecture = if new.architecture == 0 then c.args.architecture else new.architecture;
}

-- Update, up to the list of changed devices, before what it writes of its own: the settings that are asked
-- for, the changed keys and the changed devices.
unfoldable pub start_update :
    Daemon → Source → Bool → Settings → Args → Option (Settings × (List Bytes × Changes))
unfolding update_checks accepts_expanded changes_of apply_args default_args
start_update d source user_requested c new = do
  new' ←
      if update_checks d source user_requested c (default_args c new)
      then apply_args source (default_args c new)
      else none
  if accepts_expanded d source new' then some (new', changes_of c new') else none
