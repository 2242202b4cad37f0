-- ===== src/Schema/Tests.antt =====
-- A data base whose content is the list of what ran on it.
use mercuryc.Base.{
  ℕ, Bytes, List, [], ◌∷◌, ◌++◌, Option, none, some, Bool, true, false, not, ltb, leb, ◌+◌, ◌≡◌,
  refl, length, if◌then◌else◌,
}
use mercuryc.Schema.{
  Db, Bodies, db_updates, patches, db_get_schema, db_get_latest_schema, updates_apply_all,
  patches_apply_all, create_db, initialize_db_object,
}
use mercuryc.Schema.Proofs.Updates.{pending, run_all, newest, updates_apply_all-run_all}
use mercuryc.Schema.Proofs.Rerun.{updates_apply_all-rerun, legacy_patch_lost}
use mercuryc.Schema.Proofs.Patches.{all_applied, patches_apply_all-rerun}
use mercuryc.Schema.Proofs.Fresh.{initialize_db_object-new}

-- The legacy patches, which write 100 and their version.
abbrev legacy : Bool → ℕ → Option (List ℕ → List ℕ × Bool)
legacy good u =
    if leb u 31
    then (if ltb u 30 then none else some (λ ran. (ran ++ (100 + u) ∷ [], good)))
    else none

abbrev bodies : Bool → Bodies (List ℕ)
bodies good = record {
  run_update = λ v u ran. (ran ++ u ∷ [], true);
  run_patch = λ p ran. (ran ++ (1000 + length p) ∷ [], true);
  legacy_patch = legacy good;
  current_schema = λ ran. (ran ++ 7 ∷ [], true);
  default_profile = λ ran. (ran ++ 8 ∷ [], true);
  file_copy = λ ran. true;
  takes_version = λ v ran. true;
  takes_patch = λ p ran. true;
}

abbrev new : Db (List ℕ)
new = record { content = []; versions = []; applied = [] }

-- One of an older program.
abbrev old : Db (List ℕ)
old = record { content = []; versions = 29 ∷ 28 ∷ []; applied = [] }

-- The first of the legacy patches fails: the update is in, and the rest waits.
old_fails : (updates_apply_all (bodies false) true db_updates old).0.content ≡ 30 ∷ 130 ∷ []
unfolding updates_apply_all
old_fails = refl

-- The next start goes on behind it.
old_again :
    (updates_apply_all
      (bodies true)
      true
      db_updates
      (updates_apply_all (bodies false) true db_updates old).0).0.content
    ≡ 30 ∷ 130 ∷ 31 ∷ 131 ∷ 32 ∷ 33 ∷ 34 ∷ 35 ∷ 36 ∷ []
unfolding updates_apply_all
old_again = refl

updates_apply_all-run_all_example :
    updates_apply_all (bodies true) true db_updates old
    ≡ run_all (bodies true) (db_get_schema old) (pending (db_get_schema old) db_updates) old
updates_apply_all-run_all_example =
    updates_apply_all-run_all (bodies true) true db_updates old refl refl

updates_apply_all-rerun_example :
    let db' = (updates_apply_all (bodies true) true db_updates old).0 in
    (db_get_schema db' ≡ newest (db_get_schema old) db_updates)
    × (updates_apply_all (bodies false) true db_updates db' ≡ (db', true))
unfolding updates_apply_all
updates_apply_all-rerun_example =
    updates_apply_all-rerun (bodies true) (bodies false) true true db_updates old refl refl

-- dbUpdates before and behind 30, whose legacy patch is the first to fail here.
abbrev up_to_29 : List ℕ
up_to_29 =
    1 ∷ 2 ∷ 3 ∷ 4 ∷ 5 ∷ 6 ∷ 7 ∷ 8 ∷ 9 ∷ 10 ∷ 11 ∷ 12 ∷ 13 ∷ 14 ∷ 15 ∷ 16 ∷ 17 ∷ 18 ∷ 19 ∷ 20 ∷ 21
    ∷ 22 ∷ 23 ∷ 24 ∷ 25 ∷ 26 ∷ 27 ∷ 28 ∷ 29 ∷ []

abbrev from_31 : List ℕ
from_31 = 31 ∷ 32 ∷ 33 ∷ 34 ∷ 35 ∷ 36 ∷ []

-- At 28, behind 29, with the row of 30, and after the failure.
abbrev at_28 : Db (List ℕ)
at_28 = record { content = []; versions = 28 ∷ []; applied = [] }

abbrev at_29 : Db (List ℕ)
at_29 = record { content = 29 ∷ []; versions = 29 ∷ 28 ∷ []; applied = [] }

abbrev at_30 : Db (List ℕ)
at_30 = record { content = 29 ∷ 30 ∷ []; versions = 30 ∷ 29 ∷ 28 ∷ []; applied = [] }

abbrev failed_30 : Db (List ℕ)
failed_30 = record { content = 29 ∷ 30 ∷ 130 ∷ []; versions = 30 ∷ 29 ∷ 28 ∷ []; applied = [] }

legacy_patch_lost_example :
    (updates_apply_all (bodies false) true db_updates at_28 ≡ (failed_30, false))
    × (updates_apply_all (bodies true) true db_updates failed_30
        ≡ updates_apply_all (bodies true) true from_31 failed_30)
unfolding updates_apply_all mercuryc.Schema.apply_update mercuryc.Schema.post_apply
legacy_patch_lost_example =
    legacy_patch_lost (bodies false) (bodies true) true true up_to_29 30 from_31 at_28 at_29 at_30
      failed_30 refl refl refl refl refl refl

patches_again :
    let db' = (patches_apply_all (bodies true) patches old).0 in
    (all_applied patches db'.applied ≡ true)
    × (patches_apply_all (bodies false) patches db' ≡ (db', true))
unfolding patches_apply_all mercuryc.Base.string_in_slice mercuryc.Base.bytes_eq
patches_again = patches_apply_all-rerun (bodies true) (bodies false) patches old refl

initialize_db_object-new_example :
    let db' = (create_db (bodies true) db_updates patches new).0 in
    (db_get_schema db' ≡ db_get_latest_schema db_updates)
    × (initialize_db_object (bodies true) db_updates patches new ≡ (db', true))
    × (patches_apply_all (bodies false) patches db' ≡ (db', true))
unfolding create_db
initialize_db_object-new_example =
    initialize_db_object-new (bodies true) (bodies false) db_updates patches new refl refl
      (λ p. refl) refl
