-- ===== src/Schema/Proofs/Rerun.antt =====
-- The updates at the next start of the daemon.
use mercuryc.Base.{
  ℕ, List, [], ◌∷◌, ◌++◌, ◌||◌, Bool, true, false, ◌&&◌, not, ltb, leb, ◌≡◌, ◌∙◌, arith, refl, ap,
  sym, Bool-cases, inl, inr,
}
use mercuryc.Schema.{
  Db, Bodies, db_get_schema, db_get_latest_schema, and_then, apply_update, post_apply, update_step,
  updates_loop, updates_apply_all,
}
use mercuryc.Schema.Proofs.Updates.{
  ascending, ascending-tail, latest-bound, newest, updates_loop-schema, apply_update-schema,
  post_apply-schema, loop_skip, loop_step, updates_loop-copied, and_then-ok, and_then-success,
  update_step-schema,
}

-- No update is newer: nothing runs.
pub updates_loop-none {ℓ} :
    {A : Type ℓ} (b : Bodies A) (us : List ℕ) (v : ℕ) (copied : Bool) (db : Db A)
    → ascending us ≡ true
    → leb (db_get_latest_schema us) v ≡ true
    → updates_loop b v copied us db ≡ (db, true)
unfolding updates_loop
updates_loop-none b [] v copied db h l = refl
updates_loop-none b (u ∷ us) v copied db h l =
    rw (the_first, updates_loop)
      (updates_loop-none b us v copied db (ascending-tail u us h) (the_rest us l))
  where
    the_first : leb u v ≡ true
    the_first = ground (arith, latest-bound u us)

    the_rest :
        (us : List ℕ)
        → leb (db_get_latest_schema (u ∷ us)) v ≡ true
        → leb (db_get_latest_schema us) v ≡ true
    the_rest [] l = ground arith
    the_rest (w ∷ us) l = l

-- A success with the backup is one without it.
updates_loop-backup {ℓ} :
    {A : Type ℓ} (b : Bodies A) (us : List ℕ) (v : ℕ) (copied : Bool) (db : Db A)
    → (updates_loop b v copied us db).1 ≡ true
    → updates_loop b v copied us db ≡ updates_loop b v true us db
unfolding updates_loop
updates_loop-backup b [] v copied db p = refl
updates_loop-backup b (u ∷ us) v copied db p = elim (Bool-cases (leb u v)) [
  | inl t ↦ rw (t, updates_loop) (updates_loop-backup b us v copied db (rw (t, updates_loop) at p))
  | inr t ↦ elim (Bool-cases (not copied && not (b.file_copy db.content))) [
    | inl c ↦ ground arith
    | inr c ↦ rw (t, updates_loop, c) refl
  ]
]

newest-latest : (v : ℕ) (us : List ℕ) → leb (db_get_latest_schema us) (newest v us) ≡ true
newest-latest v us = ground arith

-- If the versions of the updates ascend and dbUpdatesApplyAll succeeds, then the schema is at the last
-- update, or where it was if that is later; and whatever the bodies and the disk do at the next start,
-- dbUpdatesApplyAll then succeeds and changes nothing.
pub updates_apply_all-rerun {ℓ} :
    {A : Type ℓ} (b b' : Bodies A) (do_backup do_backup' : Bool) (us : List ℕ) (db : Db A)
    → ascending us ≡ true
    → (updates_apply_all b do_backup us db).1 ≡ true
    → let db' = (updates_apply_all b do_backup us db).0 in
      (db_get_schema db' ≡ newest (db_get_schema db) us)
      × (updates_apply_all b' do_backup' us db' ≡ (db', true))
unfolding updates_apply_all
updates_apply_all-rerun b b' do_backup do_backup' us db h p =
    let v = db_get_schema db in
    let db' = (updates_loop b v (not do_backup) us db).0 in
    let eq = updates_loop-backup b us v (not do_backup) db p in
    let at =
      ap (λ r. db_get_schema r.0) eq
      ∙ updates_loop-schema b us v db h refl (ap (λ r. r.1) (sym eq) ∙ p) in
    (
      at,
      updates_loop-none b' us (db_get_schema db') (not do_backup') db' h
          (rw at (newest-latest v us)),
    )

-- With the backup made, or not wanted, dbUpdatesApplyAll is its loop.
updates_apply_all-loop {ℓ} :
    {A : Type ℓ} (b : Bodies A) (do_backup : Bool) (us : List ℕ) (db : Db A)
    → not do_backup || b.file_copy db.content ≡ true
    → updates_apply_all b do_backup us db ≡ updates_loop b (db_get_schema db) true us db
unfolding updates_apply_all
updates_apply_all-loop b false us db c = refl
updates_apply_all-loop b true us db c = updates_loop-copied b us (db_get_schema db) db c

-- Behind updates that succeed, the loop goes on from the schema that they leave.
updates_loop-append {ℓ} :
    {A : Type ℓ} (b : Bodies A) (us vs : List ℕ) (v : ℕ) (db : Db A)
    → db_get_schema db ≡ v
    → (updates_loop b v true us db).1 ≡ true
    → let db' = (updates_loop b v true us db).0 in
      updates_loop b v true (us ++ vs) db ≡ updates_loop b (db_get_schema db') true vs db'
unfolding updates_loop
updates_loop-append b [] vs v db e p = ap (λ w. updates_loop b w true vs db) (sym e)
updates_loop-append b (u ∷ us) vs v db e p = elim (Bool-cases (leb u v)) [
  | inl t ↦
      let eq = loop_skip b v u us db t in
      rw eq (
        loop_skip b v u (us ++ vs) db t
        ∙ updates_loop-append b us vs v db e (ap (λ r. r.1) (sym eq) ∙ p))
  | inr t ↦
      let eq = loop_step b v u us db t in
      let next = (update_step b v u db).0 in
      let (ran, rest) =
        and_then-success (update_step b v u db) (updates_loop b u true us)
          (ap (λ r. r.1) (sym eq) ∙ p) in
      let eq' = eq ∙ rest in
      rw eq' (
        loop_step b v u (us ++ vs) db t
        ∙ and_then-ok (update_step b v u db) (updates_loop b u true (us ++ vs)) ran
        ∙ updates_loop-append b us vs u next (update_step-schema b v u db (ground arith) ran)
            (ap (λ r. r.1) (sym eq') ∙ p))
]

ascending-below :
    (w : ℕ) (us : List ℕ) (u : ℕ) (vs : List ℕ)
    → ascending (w ∷ us ++ u ∷ vs) ≡ true
    → ltb w u ≡ true
ascending-below w [] u vs h = ground arith
ascending-below w (x ∷ us) u vs h = ground (arith, ascending-below x us u vs)

-- At the version of an update, the loop starts behind it.
updates_loop-behind {ℓ} :
    {A : Type ℓ} (b : Bodies A) (us : List ℕ) (u : ℕ) (vs : List ℕ) (copied : Bool) (db : Db A)
    → ascending (us ++ u ∷ vs) ≡ true
    → updates_loop b u copied (us ++ u ∷ vs) db ≡ updates_loop b u copied vs db
unfolding updates_loop
updates_loop-behind b [] u vs copied db h = rw (leb_refl u, updates_loop) refl
  where
    leb_refl : (u : ℕ) → leb u u ≡ true
    leb_refl u = ground arith
updates_loop-behind b (w ∷ us) u vs copied db h =
    rw (below, updates_loop)
      (updates_loop-behind b us u vs copied db (ascending-tail w (us ++ u ∷ vs) h))
  where
    below : leb w u ≡ true
    below = ground (arith, ascending-below w us u vs h)

update_step-failure {ℓ} :
    {A : Type ℓ} (b : Bodies A) (v u : ℕ) (next : Db A → Db A × Bool) (db db' db'' : Db A)
    → apply_update b v u db ≡ (db', true)
    → post_apply b u db' ≡ (db'', false)
    → and_then (update_step b v u db) next ≡ (db'', false)
unfolding update_step
update_step-failure b v u next db db' db'' ok bad = rw (ok, bad) refl

-- Suppose that the versions of the updates ascend, that the backup can be made or is not asked for, and that
-- an update is newer than the schema that the updates before it leave when they succeed. If this update's
-- schema row is then written and its legacy patch fails, dbUpdatesApplyAll ends there with an error; and at
-- the next start, whatever the bodies and the disk do then, neither the update nor its legacy patch is run
-- again: dbUpdatesApplyAll does what it does with the later updates alone.
pub legacy_patch_lost {ℓ} :
    {A : Type ℓ} (b b' : Bodies A) (do_backup do_backup' : Bool) (us : List ℕ) (u : ℕ) (vs : List ℕ)
    (db db_before db_row db_failed : Db A)
    → ascending (us ++ u ∷ vs) ≡ true
    → not do_backup || b.file_copy db.content ≡ true
    → updates_apply_all b do_backup us db ≡ (db_before, true)
    → ltb (db_get_schema db_before) u ≡ true
    → apply_update b (db_get_schema db_before) u db_before ≡ (db_row, true)
    → post_apply b u db_row ≡ (db_failed, false)
    → (updates_apply_all b do_backup (us ++ u ∷ vs) db ≡ (db_failed, false))
      × (updates_apply_all b' do_backup' (us ++ u ∷ vs) db_failed
          ≡ updates_apply_all b' do_backup' vs db_failed)
unfolding updates_apply_all
legacy_patch_lost b b' do_backup do_backup' us u vs db db_before db_row db_failed h c before l ok
      bad =
    (first, again)
  where
    loop_before : updates_loop b (db_get_schema db) true us db ≡ (db_before, true)
    loop_before = sym (updates_apply_all-loop b do_backup us db c) ∙ before

    first : updates_apply_all b do_backup (us ++ u ∷ vs) db ≡ (db_failed, false)
    first =
        updates_apply_all-loop b do_backup (us ++ u ∷ vs) db c
        ∙ updates_loop-append b us (u ∷ vs) (db_get_schema db) db refl (ap (λ r. r.1) loop_before)
        ∙ ap (λ r. updates_loop b (db_get_schema r.0) true (u ∷ vs) r.0) loop_before
        ∙ loop_step b (db_get_schema db_before) u vs db_before (ground arith)
        ∙ update_step-failure b (db_get_schema db_before) u (updates_loop b u true vs) db_before
            db_row db_failed ok bad

    at : db_get_schema db_failed ≡ u
    at =
        ap (λ r. db_get_schema r.0) (sym bad)
        ∙ post_apply-schema b u db_row
        ∙ ap (λ r. db_get_schema r.0) (sym ok)
        ∙ apply_update-schema b (db_get_schema db_before) u db_before l (ap (λ r. r.1) ok)

    again :
        updates_apply_all b' do_backup' (us ++ u ∷ vs) db_failed
        ≡ updates_apply_all b' do_backup' vs db_failed
    again =
        ap (λ v. updates_loop b' v (not do_backup') (us ++ u ∷ vs) db_failed) at
        ∙ updates_loop-behind b' us u vs (not do_backup') db_failed h
        ∙ ap (λ v. updates_loop b' v (not do_backup') vs db_failed) (sym at)
