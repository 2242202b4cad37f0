-- ===== src/Storage/Proofs/Updates.antt =====
-- Pools and volumes are updated wholly or not at all.
use mercuryc.Base.{
  Bytes, List, [], true, false, ◌≡◌, arith, codes, is_empty, has_prefix, string_in_slice, bytes_eq,
  bytes_eq→eq,
}
use mercuryc.Device.{get}
use mercuryc.Storage.{config_diff}
use mercuryc.Storage.Update.{Writable, State, Backend, store, pool_update, volume_update}
use mercuryc.Storage.Proofs.Diff.{config_diff_lem, all_user-member}

-- Two configurations that give every key the same value; a missing key counts as the empty text.
abbrev pub Same : List (Bytes × Bytes) → List (Bytes × Bytes) → Type 0
Same a b = (k : Bytes) → get k a ≡ get k b

config_diff-Same :
    (old new : List (Bytes × Bytes)) (k : Bytes)
    → is_empty (config_diff old new).0 ≡ true
    → get k old ≡ get k new
unfolding string_in_slice
config_diff-Same old new k e = ground (
  arith,
  config_diff_lem old new k,
  bytes_eq→eq (get k old) (get k new),
  is_empty-eq (config_diff old new).0,
)
  where
    is_empty-eq : (l : List Bytes) → is_empty l ≡ true → l ≡ []
    is_empty-eq l h = ground arith

-- A changed driver is not a change of the user's keys only.
driver-user_only :
    (old new : List (Bytes × Bytes))
    → bytes_eq (get (codes "driver") old) (get (codes "driver") new) ≡ false
    → (string_in_slice (codes "driver") (config_diff old new).0 ≡ true)
      × ((config_diff old new).1 ≡ false)
      × (is_empty (config_diff old new).0 ≡ false)
unfolding has_prefix string_in_slice
driver-user_only old new h = ground (
  arith,
  config_diff_lem old new (codes "driver"),
  all_user-member (config_diff old new).0 (codes "driver"),
)

-- The new configuration, and the new description in the data base.
abbrev pub Updated : State → Writable → Type 0
Updated s new =
    Same s.memory.config new.config
    × Same s.stored.config new.config
    × (s.stored.description ≡ new.description)

-- storagePoolUpdate: an error changes neither the memory nor the data base; without an error, both have the
-- new configuration and the data base the new description, if memory and data base agreed before; and a
-- changed driver is an error.
pub pool_update_lem :
    (backend : Backend) (s : State) (new : Writable)
    → ((pool_update backend s new).1 ≡ false → (pool_update backend s new).0 ≡ s)
      × (s.memory ≡ s.stored
          → (pool_update backend s new).1 ≡ true
          → Updated (pool_update backend s new).0 new)
      × (bytes_eq (get (codes "driver") s.memory.config) (get (codes "driver") new.config) ≡ false
          → (pool_update backend s new).1 ≡ false)
unfolding pool_update store
pool_update_lem backend s new =
    let driver = driver-user_only s.memory.config new.config in
    (
      λ h. ground arith,
      λ e h. (
        λ k. ground (arith, config_diff-Same s.memory.config new.config k),
        λ k. ground (arith, config_diff-Same s.memory.config new.config k),
        ground (arith, bytes_eq→eq new.description s.memory.description),
      ),
      λ h. ground arith,
    )

-- storagePoolVolumeUpdate: an error changes neither the memory nor the data base; without an error, both
-- have the new configuration and the data base the new description, if memory and data base agreed before.
volume_update_lem :
    (backend : Backend) (s : State) (new : Writable)
    → ((volume_update backend s new).1 ≡ false → (volume_update backend s new).0 ≡ s)
      × (s.memory ≡ s.stored
          → (volume_update backend s new).1 ≡ true
          → Updated (volume_update backend s new).0 new)
unfolding volume_update store
volume_update_lem backend s new = (
  λ h. ground arith,
  λ e h. (
    λ k. ground (arith, config_diff-Same s.memory.config new.config k),
    λ k. ground (arith, config_diff-Same s.memory.config new.config k),
    ground (arith, bytes_eq→eq new.description s.memory.description),
  ),
)
