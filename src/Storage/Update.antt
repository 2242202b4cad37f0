-- ===== src/Storage/Update.antt =====
-- storagePoolUpdate in apollo/storage_pools_utils.go and storagePoolVolumeUpdate in
-- apollo/storage_volumes_utils.go. The driver's own update and the data base are parameters.
use mercuryc.Base.{
  Bytes, List, Bool, true, false, ◌&&◌, ◌||◌, not, if◌then◌else◌, codes, bytes_eq, is_empty,
  string_in_slice,
}
use mercuryc.Storage.{config_diff}

-- What the storage interface holds, and what the data base holds, of a pool or a volume.
pub record Writable : Type 0 where
  pub description : Bytes
  pub config : List (Bytes × Bytes)

pub record State : Type 0 where
  pub memory : Writable
  pub stored : Writable

-- Whether the driver accepts the changed keys, whether the pool is found again, and whether the data base
-- accepts the write.
pub record Backend : Type 0 where
  pub update : Writable → List Bytes → Bool
  pub pool_found : Bool
  pub write : Bool

-- The end of both: the data base is written if something changed, and the memory is put back if that fails.
unfoldable pub store : Backend → State → Writable → Bool → Writable → State × Bool
store backend s memory' changed new =
    if changed || not (bytes_eq new.description s.memory.description)
    then if backend.write then (record { memory = memory'; stored = new }, true) else (s, false)
    else (record s { memory = memory' }, true)

-- storagePoolUpdate: the new state, and whether it returns no error.
unfoldable pub pool_update : Backend → State → Writable → State × Bool
unfolding store
pool_update backend s new =
    let (changed, user_only) = config_diff s.memory.config new.config in
    if is_empty changed
    then store backend s s.memory false new
    else if not user_only
        && (string_in_slice (codes "driver") changed || not (backend.update new changed))
    then (s, false)
    else store backend s new true new

-- storagePoolVolumeUpdate: the description in memory stays.
unfoldable pub volume_update : Backend → State → Writable → State × Bool
unfolding store
volume_update backend s new =
    let (changed, user_only) = config_diff s.memory.config new.config in
    if not (is_empty changed) && (not user_only && not (backend.update s.memory changed))
    then (s, false)
    else if not backend.pool_found
    then (s, false)
    else store backend s
        (if is_empty changed then s.memory else record (s.memory) { config = new.config })
        (not (is_empty changed)) new
