-- ===== src/Schema/Proofs/Fresh.antt =====
-- A new data base.
use mercuryc.Base.{ℕ, Bytes, List, [], ◌∷◌, true, false, leb, ◌≡◌, ◌∙◌, arith, refl, ap, sym}
use mercuryc.Schema.{
  Db, Bodies, max_version, db_get_schema, db_get_latest_schema, and_then, with_content,
  patches_apply_all, insert_version, create_db, finish_db, open_db, initialize_db_object,
  updates_apply_all,
}
use mercuryc.Schema.Proofs.Updates.{ascending, and_then-ok, and_then-success}
use mercuryc.Schema.Proofs.Rerun.{updates_loop-none}
use mercuryc.Schema.Proofs.Patches.{all_applied, TakesPatches, mark_all_lem, patches_loop-none}

-- The schema's row of a new data base.
insert_version-new {ℓ} :
    {A : Type ℓ} (b : Bodies A) (v : ℕ) (db : Db A)
    → db.versions ≡ []
    → (insert_version b v db).1 ≡ true
    → insert_version b v db ≡ (record db { versions = v ∷ [] }, true)
unfolding insert_version
insert_version-new b v db h s = ground arith

finish_db_lem {ℓ} :
    {A : Type ℓ} (b : Bodies A) (ps : List Bytes) (db : Db A)
    → TakesPatches b db.content
    → (all_applied ps (finish_db b ps db).0.applied ≡ true)
      × ((finish_db b ps db).0.versions ≡ db.versions)
unfolding finish_db
finish_db_lem b ps db h = mark_all_lem b ps db h

-- What createDb does to a new data base.
create_db-new {ℓ} :
    {A : Type ℓ} (b : Bodies A) (us : List ℕ) (ps : List Bytes) (db : Db A)
    → db.versions ≡ []
    → TakesPatches b (b.current_schema db.content).0
    → (create_db b us ps db).1 ≡ true
    → let db' = (create_db b us ps db).0 in
      (db'.versions ≡ db_get_latest_schema us ∷ []) × (all_applied ps db'.applied ≡ true)
unfolding create_db
create_db-new b us ps db h law s =
    let v = db_get_latest_schema us in
    let created = record db { content = (b.current_schema db.content).0 } in
    let inserted = and_then (with_content db (b.current_schema db.content)) (insert_version b v) in
    let zero : leb (db_get_schema db) 0 ≡ true = ap (λ vs. leb (max_version vs) 0) h in
    let eq : create_db b us ps db ≡ and_then inserted (finish_db b ps) = rw zero refl in
    let (ok, rest) = and_then-success inserted (finish_db b ps) (ap (λ r. r.1) (sym eq) ∙ s) in
    let (made, row) =
      and_then-success (with_content db (b.current_schema db.content)) (insert_version b v) ok in
    let at : inserted ≡ (record created { versions = v ∷ [] }, true) =
      row ∙ insert_version-new b v created h (ap (λ r. r.1) (sym row) ∙ ok) in
    let all = eq ∙ rest ∙ ap (λ r. finish_db b ps r.0) at in
    let (patched, versions) = finish_db_lem b ps (record created { versions = v ∷ [] }) law in
    (ap (λ r. r.0.versions) all ∙ versions, ap (λ r. all_applied ps r.0.applied) all ∙ patched)

open_db-latest {ℓ} :
    {A : Type ℓ} (b : Bodies A) (us : List ℕ) (db : Db A)
    → ascending us ≡ true
    → db_get_schema db ≡ db_get_latest_schema us
    → open_db b us db ≡ (db, true)
unfolding open_db updates_apply_all
open_db-latest b us db h at = ground (
  arith,
  updates_loop-none b us (db_get_schema db) false db h (rw at (leb_self (db_get_latest_schema us))),
)
  where
    leb_self : (n : ℕ) → leb n n ≡ true
    leb_self n = ground arith

-- If createDb succeeds on a new data base that takes the rows of the patches, and the versions of the
-- updates ascend, then the schema is at the last update, and no update and no patch runs: neither
-- initializeDbObject nor patchesApplyAll, whatever the bodies do, changes what createDb left.
pub initialize_db_object-new {ℓ} :
    {A : Type ℓ} (b b' : Bodies A) (us : List ℕ) (ps : List Bytes) (db : Db A)
    → ascending us ≡ true
    → db.versions ≡ []
    → TakesPatches b (b.current_schema db.content).0
    → (create_db b us ps db).1 ≡ true
    → let db' = (create_db b us ps db).0 in
      (db_get_schema db' ≡ db_get_latest_schema us)
      × (initialize_db_object b us ps db ≡ (db', true))
      × (patches_apply_all b' ps db' ≡ (db', true))
unfolding initialize_db_object patches_apply_all
initialize_db_object-new b b' us ps db h n law s =
    let db' = (create_db b us ps db).0 in
    let (versions, patched) = create_db-new b us ps db n law s in
    let at : db_get_schema db' ≡ db_get_latest_schema us = ap max_version versions ∙ ground arith in
    (
      at,
      and_then-ok (create_db b us ps db) (open_db b us) s ∙ open_db-latest b us db' h at,
      patches_loop-none b' db'.applied ps db' patched,
    )
