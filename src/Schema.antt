-- ===== src/Schema.antt =====
-- How a data base comes to the program's schema, and which patches run on it: apollo/db_update.go
-- dbUpdatesApplyAll, apollo/patches.go patchesApplyAll, apollo/db_patches.go, and the start of a data
-- base, apollo/db.go createDb and apollo/daemon.go initializeDbObject.
pub mod Proofs
mod Tests
use mercuryc.Base.{
  ℕ, Bytes, List, [], ◌∷◌, ◌++◌, Option, none, some, Bool, true, false, ◌&&◌, ◌||◌, not, ltb, leb,
  if◌then◌else◌, codes, string_in_slice,
}

-- The data base, with all else that an update changes in `content`: the rows of the table schema and of
-- the table patches. Both are empty in a new data base.
pub record Db {ℓ} (A : Type ℓ) : Type ℓ where
  pub content : A
  pub versions : List ℕ
  pub applied : List Bytes

-- What the code calls on the content: the body of an update, of a patch, of a legacy patch, CURRENT_SCHEMA
-- with the default profile, the copy of the file, and whether the data base takes a row. Each body tells
-- whether it succeeds, and may leave changes when it fails.
pub record Bodies {ℓ} (A : Type ℓ) : Type ℓ where
  pub run_update : ℕ → ℕ → A → A × Bool
  pub run_patch : Bytes → A → A × Bool
  pub legacy_patch : ℕ → Option (A → A × Bool)
  pub current_schema : A → A × Bool
  pub default_profile : A → A × Bool
  pub file_copy : A → Bool
  pub takes_version : ℕ → A → Bool
  pub takes_patch : Bytes → A → Bool

-- dbUpdates, by version.
abbrev pub db_updates : List ℕ
db_updates =
    1 ∷ 2 ∷ 3 ∷ 4 ∷ 5 ∷ 6 ∷ 7 ∷ 8 ∷ 9 ∷ 10 ∷ 11 ∷ 12 ∷ 13 ∷ 14 ∷ 15 ∷ 16 ∷ 17 ∷ 18 ∷ 19 ∷ 20 ∷ 21
    ∷ 22 ∷ 23 ∷ 24 ∷ 25 ∷ 26 ∷ 27 ∷ 28 ∷ 29 ∷ 30 ∷ 31 ∷ 32 ∷ 33 ∷ 34 ∷ 35 ∷ 36 ∷ []

-- patches, by name.
abbrev pub patches : List Bytes
patches =
    codes "invalid_profile_names"
    ∷ codes "leftover_profile_config"
    ∷ codes "network_permissions"
    ∷ codes "storage_api"
    ∷ codes "storage_api_v1"
    ∷ codes "storage_api_dir_cleanup"
    ∷ codes "storage_api_lvm_keys"
    ∷ codes "storage_api_keys"
    ∷ codes "storage_api_update_storage_configs"
    ∷ codes "storage_api_apollo_on_btrfs"
    ∷ codes "storage_api_lvm_detect_lv_size"
    ∷ codes "storage_api_insert_zfs_driver"
    ∷ []

-- The largest of the rows, 0 without any.
abbrev pub max_version : List ℕ → ℕ
max_version [] = 0
max_version (v ∷ versions) = let m = max_version versions in if ltb m v then v else m

-- dbGetSchema
abbrev pub db_get_schema {ℓ} : {A : Type ℓ} → Db A → ℕ
db_get_schema db = max_version db.versions

-- dbGetLatestSchema
abbrev pub db_get_latest_schema : List ℕ → ℕ
db_get_latest_schema [] = 0
db_get_latest_schema (u ∷ []) = u
db_get_latest_schema (u ∷ v ∷ us) = db_get_latest_schema (v ∷ us)

abbrev has_version : ℕ → List ℕ → Bool
has_version v [] = false
has_version v (w ∷ versions) = (leb v w && leb w v) || has_version v versions

-- The row of a version, which the table takes once.
unfoldable pub insert_version {ℓ} : {A : Type ℓ} → Bodies A → ℕ → Db A → Db A × Bool
insert_version b v db =
    if not (b.takes_version v db.content) || has_version v db.versions
    then (db, false)
    else (record db { versions = v ∷ db.versions }, true)

-- One call and, if it succeeds, the next: `if err != nil { return err }`.
abbrev pub and_then {ℓ} : {A : Type ℓ} → Db A × Bool → (Db A → Db A × Bool) → Db A × Bool
and_then (db, true) next = next db
and_then (db, false) next = (db, false)

-- The data base after a body has run on its content.
abbrev pub with_content {ℓ} : {A : Type ℓ} → Db A → A × Bool → Db A × Bool
with_content db (content, ok) = (record db { content = content }, ok)

-- dbUpdate.apply
unfoldable pub apply_update {ℓ} : {A : Type ℓ} → Bodies A → ℕ → ℕ → Db A → Db A × Bool
unfolding insert_version
apply_update b current u db =
    and_then (with_content db (b.run_update current u db.content)) (insert_version b u)

-- The call of postApply: the legacy patch of a version, when there is one.
abbrev pub call_legacy {ℓ} : {A : Type ℓ} → Option (A → A × Bool) → Db A → Db A × Bool
call_legacy none db = (db, true)
call_legacy (some run) db = with_content db (run db.content)

unfoldable pub post_apply {ℓ} : {A : Type ℓ} → Bodies A → ℕ → Db A → Db A × Bool
post_apply b u db = call_legacy (b.legacy_patch u) db

-- An update and its legacy patch.
unfoldable pub update_step {ℓ} : {A : Type ℓ} → Bodies A → ℕ → ℕ → Db A → Db A × Bool
unfolding apply_update post_apply
update_step b current u db = and_then (apply_update b current u db) (post_apply b u)

-- The loop of dbUpdatesApplyAll; `copied` is whether the backup is made or not asked for.
unfoldable pub updates_loop {ℓ} : {A : Type ℓ} → Bodies A → ℕ → Bool → List ℕ → Db A → Db A × Bool
unfolding update_step
updates_loop b current copied [] db = (db, true)
updates_loop b current copied (u ∷ us) db = elim (leb u current) [
  | true ↦ updates_loop b current copied us db
  | false ↦
      if not copied && not (b.file_copy db.content)
      then (db, false)
      else and_then (update_step b current u db) (updates_loop b u true us)
]

-- dbUpdatesApplyAll
unfoldable pub updates_apply_all {ℓ} : {A : Type ℓ} → Bodies A → Bool → List ℕ → Db A → Db A × Bool
unfolding updates_loop
updates_apply_all b do_backup us db = updates_loop b (db_get_schema db) (not do_backup) us db

-- dbPatchesMarkApplied; the table takes a name once.
unfoldable pub patches_mark_applied {ℓ} : {A : Type ℓ} → Bodies A → Bytes → Db A → Db A × Bool
patches_mark_applied b p db =
    if not (b.takes_patch p db.content) || string_in_slice p db.applied
    then (db, false)
    else (record db { applied = db.applied ++ p ∷ [] }, true)

-- patch.apply
unfoldable pub apply_patch {ℓ} : {A : Type ℓ} → Bodies A → Bytes → Db A → Db A × Bool
unfolding patches_mark_applied
apply_patch b p db =
    and_then (with_content db (b.run_patch p db.content)) (patches_mark_applied b p)

-- The loop of patchesApplyAll over the names read before it.
unfoldable pub patches_loop {ℓ} :
    {A : Type ℓ} → Bodies A → List Bytes → List Bytes → Db A → Db A × Bool
unfolding apply_patch
patches_loop b applied [] db = (db, true)
patches_loop b applied (p ∷ ps) db = elim (string_in_slice p applied) [
  | true ↦ patches_loop b applied ps db
  | false ↦ and_then (apply_patch b p db) (patches_loop b applied ps)
]

-- patchesApplyAll
unfoldable pub patches_apply_all {ℓ} : {A : Type ℓ} → Bodies A → List Bytes → Db A → Db A × Bool
unfolding patches_loop
patches_apply_all b ps db = patches_loop b db.applied ps db

-- createDb marks the patches, whatever becomes of it.
unfoldable pub mark_all {ℓ} : {A : Type ℓ} → Bodies A → List Bytes → Db A → Db A
unfolding patches_mark_applied
mark_all b [] db = db
mark_all b (p ∷ ps) db = mark_all b ps (patches_mark_applied b p db).0

-- The end of createDb, on the schema's row.
unfoldable pub finish_db {ℓ} : {A : Type ℓ} → Bodies A → List Bytes → Db A → Db A × Bool
unfolding mark_all
finish_db b ps db =
    let marked = mark_all b ps db in with_content marked (b.default_profile marked.content)

-- createDb
unfoldable pub create_db {ℓ} : {A : Type ℓ} → Bodies A → List ℕ → List Bytes → Db A → Db A × Bool
unfolding insert_version finish_db
create_db b us ps db =
    if not (leb (db_get_schema db) 0)
    then (db, true)
    else and_then
        (and_then (with_content db (b.current_schema db.content))
          (insert_version b (db_get_latest_schema us)))
        (finish_db b ps)

-- The end of initializeDbObject, with a backup.
unfoldable pub open_db {ℓ} : {A : Type ℓ} → Bodies A → List ℕ → Db A → Db A × Bool
unfolding updates_apply_all
open_db b us db =
    if ltb (db_get_latest_schema us) (db_get_schema db)
    then (db, false)
    else updates_apply_all b true us db

-- initializeDbObject
unfoldable pub initialize_db_object {ℓ} :
    {A : Type ℓ} → Bodies A → List ℕ → List Bytes → Db A → Db A × Bool
unfolding create_db open_db
initialize_db_object b us ps db = and_then (create_db b us ps db) (open_db b us)
