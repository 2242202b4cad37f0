-- ===== src/Schema/Proofs/Updates.antt =====
-- The updates of dbUpdatesApplyAll.
use mercuryc.Base.{
  ℕ, List, [], ◌∷◌, Option, none, some, Bool, true, false, ◌&&◌, ◌||◌, not, ltb, leb, ◌≡◌, ◌∙◌,
  arith, refl, ap, sym, if◌then◌else◌, Bool-cases, inl, inr,
}
use mercuryc.Schema.{
  Db, Bodies, db_get_schema, db_get_latest_schema, insert_version, and_then, apply_update,
  post_apply, update_step, call_legacy, updates_loop, updates_apply_all,
}

-- Each version is less than the next.
abbrev pub ascending : List ℕ → Bool
ascending [] = true
ascending (u ∷ []) = true
ascending (u ∷ v ∷ us) = ltb u v && ascending (v ∷ us)

-- The updates that are newer than a version.
unfoldable pub pending : ℕ → List ℕ → List ℕ
pending v [] = []
pending v (u ∷ us) = let rest = pending v us in if leb u v then rest else u ∷ rest

-- The given updates, one after the other, until one fails; each is told the version before it.
unfoldable pub run_all {ℓ} : {A : Type ℓ} → Bodies A → ℕ → List ℕ → Db A → Db A × Bool
unfolding update_step
run_all b v [] db = (db, true)
run_all b v (u ∷ us) db = and_then (update_step b v u db) (run_all b u us)

pub ascending-tail : (u : ℕ) (us : List ℕ) → ascending (u ∷ us) ≡ true → ascending us ≡ true
ascending-tail u [] h = refl
ascending-tail u (v ∷ us) h = ground arith

pending-above :
    (u v : ℕ) (us : List ℕ)
    → ltb u v ≡ true
    → ascending (v ∷ us) ≡ true
    → pending u (v ∷ us) ≡ v ∷ us
unfolding pending
pending-above u v [] l h = ground arith
pending-above u v (w ∷ us) l h = ground (arith, pending-above u w us)

pending-ascending :
    (v u : ℕ) (us : List ℕ) → leb v u ≡ true → ascending (u ∷ us) ≡ true → pending v us ≡ us
unfolding pending
pending-ascending v u [] l h = refl
pending-ascending v u (w ∷ us) l h = ground (arith, pending-above v w us)

-- The version after an update.
insert_version-max {ℓ} :
    {A : Type ℓ} (b : Bodies A) (u : ℕ) (db : Db A)
    → ltb (db_get_schema db) u ≡ true
    → (insert_version b u db).1 ≡ true
    → db_get_schema (insert_version b u db).0 ≡ u
unfolding insert_version
insert_version-max b u db l h = ground arith

call_legacy-schema {ℓ} :
    {A : Type ℓ} (o : Option (A → A × Bool)) (db : Db A)
    → db_get_schema (call_legacy o db).0 ≡ db_get_schema db
call_legacy-schema none db = refl
call_legacy-schema (some run) db = refl

pub apply_update-schema {ℓ} :
    {A : Type ℓ} (b : Bodies A) (v u : ℕ) (db : Db A)
    → ltb (db_get_schema db) u ≡ true
    → (apply_update b v u db).1 ≡ true
    → db_get_schema (apply_update b v u db).0 ≡ u
unfolding apply_update
apply_update-schema b v u db l h =
    ground (arith, insert_version-max b u (record db { content = (b.run_update v u db.content).0 }))

pub post_apply-schema {ℓ} :
    {A : Type ℓ} (b : Bodies A) (u : ℕ) (db : Db A)
    → db_get_schema (post_apply b u db).0 ≡ db_get_schema db
unfolding post_apply
post_apply-schema b u db = call_legacy-schema (b.legacy_patch u) db

pub update_step-schema {ℓ} :
    {A : Type ℓ} (b : Bodies A) (v u : ℕ) (db : Db A)
    → ltb (db_get_schema db) u ≡ true
    → (update_step b v u db).1 ≡ true
    → db_get_schema (update_step b v u db).0 ≡ u
unfolding update_step
update_step-schema b v u db l h =
    ground (arith, apply_update-schema b v u db l, post_apply-schema b u (apply_update b v u db).0)

pub and_then-ap {ℓ} :
    {A : Type ℓ} (p : Db A × Bool) (f g : Db A → Db A × Bool)
    → ((db : Db A) → f db ≡ g db)
    → and_then p f ≡ and_then p g
and_then-ap (db, true) f g h = h db
and_then-ap (db, false) f g h = refl

-- With the backup made, or not wanted, the loop runs the updates that are newer than the schema.
updates_loop-run_all {ℓ} :
    {A : Type ℓ} (b : Bodies A) (us : List ℕ) (v : ℕ) (db : Db A)
    → ascending us ≡ true
    → updates_loop b v true us db ≡ run_all b v (pending v us) db
unfolding updates_loop run_all pending
updates_loop-run_all b [] v db h = refl
updates_loop-run_all b (u ∷ us) v db h =
    let tail = ascending-tail u us h in
    elim (Bool-cases (leb u v)) [
      | inl t ↦ rw (t, updates_loop) (updates_loop-run_all b us v db tail)
      | inr t ↦
          rw (t, updates_loop, pending-ascending v u us (ground arith) h)
            (and_then-ap (update_step b v u db) (updates_loop b u true us) (run_all b u us) (λ db'.
              updates_loop-run_all b us u db' tail
              ∙ ap (λ p. run_all b u p db') (pending-ascending u u us (ground arith) h)))
    ]

-- A backup that can be made changes nothing else.
pub updates_loop-copied {ℓ} :
    {A : Type ℓ} (b : Bodies A) (us : List ℕ) (v : ℕ) (db : Db A)
    → b.file_copy db.content ≡ true
    → updates_loop b v false us db ≡ updates_loop b v true us db
unfolding updates_loop
updates_loop-copied b [] v db c = refl
updates_loop-copied b (u ∷ us) v db c = elim (Bool-cases (leb u v)) [
  | inl t ↦ rw (t, updates_loop) (updates_loop-copied b us v db c)
  | inr t ↦ rw (t, updates_loop, c) refl
]

-- If the versions of the updates ascend, and the backup can be made or is not asked for, then
-- dbUpdatesApplyAll is this: the updates newer than the schema run in order, each is told the version
-- before it, and the first failure ends it.
pub updates_apply_all-run_all {ℓ} :
    {A : Type ℓ} (b : Bodies A) (do_backup : Bool) (us : List ℕ) (db : Db A)
    → ascending us ≡ true
    → not do_backup || b.file_copy db.content ≡ true
    → updates_apply_all b do_backup us db
      ≡ run_all b (db_get_schema db) (pending (db_get_schema db) us) db
unfolding updates_apply_all
updates_apply_all-run_all b false us db h c = updates_loop-run_all b us (db_get_schema db) db h
updates_apply_all-run_all b true us db h c =
    updates_loop-copied b us (db_get_schema db) db c
    ∙ updates_loop-run_all b us (db_get_schema db) db h

-- The larger of a version and the last of the updates.
abbrev pub newest : ℕ → List ℕ → ℕ
newest v us = if ltb v (db_get_latest_schema us) then db_get_latest_schema us else v

pub latest-bound :
    (u : ℕ) (us : List ℕ) → ascending (u ∷ us) ≡ true → leb u (db_get_latest_schema (u ∷ us)) ≡ true
latest-bound u [] h = ground arith
latest-bound u (v ∷ us) h = ground (arith, latest-bound v us)

pub and_then-ok {ℓ} :
    {A : Type ℓ} (p : Db A × Bool) (f : Db A → Db A × Bool) → p.1 ≡ true → and_then p f ≡ f p.0
and_then-ok (db, true) f h = refl
and_then-ok (db, false) f h = ground arith

pub and_then-success {ℓ} :
    {A : Type ℓ} (p : Db A × Bool) (f : Db A → Db A × Bool)
    → (and_then p f).1 ≡ true
    → (p.1 ≡ true) × (and_then p f ≡ f p.0)
and_then-success (db, true) f h = (refl, refl)
and_then-success (db, false) f h = ground arith

newest-tail :
    (v u : ℕ) (us : List ℕ)
    → ascending (u ∷ us) ≡ true
    → (leb u v ≡ true → newest v us ≡ newest v (u ∷ us))
      × (leb u v ≡ false → newest u us ≡ newest v (u ∷ us))
newest-tail v u [] h = ground arith
newest-tail v u (w ∷ us) h = ground (arith, latest-bound w us)

pub loop_skip {ℓ} :
    {A : Type ℓ} (b : Bodies A) (v u : ℕ) (us : List ℕ) (db : Db A)
    → leb u v ≡ true
    → updates_loop b v true (u ∷ us) db ≡ updates_loop b v true us db
unfolding updates_loop
loop_skip b v u us db t = rw (t, updates_loop) refl

pub loop_step {ℓ} :
    {A : Type ℓ} (b : Bodies A) (v u : ℕ) (us : List ℕ) (db : Db A)
    → leb u v ≡ false
    → updates_loop b v true (u ∷ us) db ≡ and_then (update_step b v u db) (updates_loop b u true us)
unfolding updates_loop
loop_step b v u us db t = rw (t, updates_loop) refl

pub updates_loop-schema {ℓ} :
    {A : Type ℓ} (b : Bodies A) (us : List ℕ) (v : ℕ) (db : Db A)
    → ascending us ≡ true
    → db_get_schema db ≡ v
    → (updates_loop b v true us db).1 ≡ true
    → db_get_schema (updates_loop b v true us db).0 ≡ newest v us
unfolding updates_loop
updates_loop-schema b [] v db h e p = ground arith
updates_loop-schema b (u ∷ us) v db h e p = elim (Bool-cases (leb u v)) [
  | inl t ↦
      let eq = loop_skip b v u us db t in
      rw eq (updates_loop-schema b us v db (ascending-tail u us h) e (ap (λ r. r.1) (sym eq) ∙ p))
      ∙ (newest-tail v u us h).0 t
  | inr t ↦
      let eq = loop_step b v u us db t in
      let next = (update_step b v u db).0 in
      let (ran, rest) =
        and_then-success (update_step b v u db) (updates_loop b u true us)
          (ap (λ r. r.1) (sym eq) ∙ p) in
      let eq' = eq ∙ rest in
      rw eq' (
        updates_loop-schema b us u next (ascending-tail u us h)
          (update_step-schema b v u db (ground arith) ran) (ap (λ r. r.1) (sym eq') ∙ p))
      ∙ (newest-tail v u us h).1 t
]
