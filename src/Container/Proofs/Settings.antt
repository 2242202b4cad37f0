-- ===== src/Container/Proofs/Settings.antt =====
-- Which configurations the validation accepts.
use mercuryc.Base.{
  Bytes, List, [], ◌∷◌, some, Bool, true, false, ◌&&◌, ◌||◌, not, ◌≡◌, codes, has_prefix, arith,
  bytes_eq→eq,
}
use mercuryc.Base.Dict.{find, has, is_some}
use mercuryc.Device.{get}
use mercuryc.Config.{config_key_checker, is_true}
use mercuryc.Container.{Daemon, valid_config_key, valid_config_keys, valid_together, valid_config}

valid_config_key_known :
    (d : Daemon) (k v : Bytes)
    → valid_config_key d k v ≡ true
    → is_some (config_key_checker k) ≡ true
unfolding valid_config_key
valid_config_key_known d k v h = ground arith

valid_config_keys_sound :
    (d : Daemon) (profile : Bool) (config : List (Bytes × Bytes)) (k : Bytes)
    → valid_config_keys d profile config ≡ true
    → has k config ≡ true
    → (is_some (config_key_checker k) ≡ true)
      × (profile && has_prefix k (codes "volatile.") ≡ false)
      × (profile && has_prefix k (codes "image.") ≡ false)
unfolding valid_config_keys find
valid_config_keys_sound d profile [] k h p = cc
valid_config_keys_sound d profile ((j, v) ∷ config) k h p = ground (
  arith,
  valid_config_keys_sound d profile config k,
  valid_config_key_known d j v,
  bytes_eq→eq j k,
)

-- Every key of a configuration that is accepted is a known one and, on a profile, neither a volatile
-- nor an image key.
pub valid_config_keys_known :
    (d : Daemon) (config : List (Bytes × Bytes)) (profile expanded : Bool) (k : Bytes)
    → valid_config d (some config) profile expanded ≡ true
    → has k config ≡ true
    → (is_some (config_key_checker k) ≡ true)
      × (profile && has_prefix k (codes "volatile.") ≡ false)
      × (profile && has_prefix k (codes "image.") ≡ false)
unfolding valid_config
valid_config_keys_known d config profile expanded k h p =
    ground (arith, valid_config_keys_sound d profile config k)

-- In a configuration that is accepted, a raw seccomp policy excludes a whitelist and a blacklist, a
-- whitelist excludes a blacklist, and, if it is an expanded one, the container is privileged or the
-- daemon has a map of ids.
pub valid_config_exclusive :
    (d : Daemon) (config : List (Bytes × Bytes)) (profile expanded : Bool)
    → valid_config d (some config) profile expanded ≡ true
    → (has (codes "raw.seccomp") config && has (codes "security.syscalls.whitelist") config ≡ false)
      × (has (codes "raw.seccomp") config && has (codes "security.syscalls.blacklist") config
          ≡ false)
      × (has (codes "security.syscalls.whitelist") config
            && has (codes "security.syscalls.blacklist") config
          ≡ false)
      × ((not expanded || is_true (get (codes "security.privileged") config)) || d.has_idmap_set
          ≡ true)
unfolding valid_config valid_together
valid_config_exclusive d config profile expanded h = ground arith
