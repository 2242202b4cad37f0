-- ===== src/Schema/Proofs/Patches.antt =====
-- The patches, and a new data base.
use mercuryc.Base.{
  Bytes, List, [], ◌∷◌, Bool, true, ◌&&◌, ◌≡◌, ◌∙◌, arith, refl, string_in_slice,
  string_in_slice-append, eq→bytes_eq,
}
use mercuryc.Schema.{
  Db, Bodies, patches_mark_applied, apply_patch, patches_loop, patches_apply_all, mark_all,
}

-- Every patch has its row.
abbrev pub all_applied : List Bytes → List Bytes → Bool
all_applied [] applied = true
all_applied (p ∷ ps) applied = string_in_slice p applied && all_applied ps applied

-- A row stays.
mark-keeps {ℓ} :
    {A : Type ℓ} (b : Bodies A) (q p : Bytes) (db : Db A)
    → string_in_slice q db.applied ≡ true
    → string_in_slice q (patches_mark_applied b p db).0.applied ≡ true
unfolding patches_mark_applied
mark-keeps b q p db h = ground (arith, string_in_slice-append q db.applied p)

mark-adds {ℓ} :
    {A : Type ℓ} (b : Bodies A) (p : Bytes) (db : Db A)
    → (patches_mark_applied b p db).1 ≡ true
    → string_in_slice p (patches_mark_applied b p db).0.applied ≡ true
unfolding patches_mark_applied
mark-adds b p db h = ground (arith, string_in_slice-append p db.applied p, eq→bytes_eq p p refl)

apply_patch-keeps {ℓ} :
    {A : Type ℓ} (b : Bodies A) (q p : Bytes) (db : Db A)
    → string_in_slice q db.applied ≡ true
    → string_in_slice q (apply_patch b p db).0.applied ≡ true
unfolding apply_patch
apply_patch-keeps b q p db h =
    ground (arith, mark-keeps b q p (record db { content = (b.run_patch p db.content).0 }))

apply_patch-adds {ℓ} :
    {A : Type ℓ} (b : Bodies A) (p : Bytes) (db : Db A)
    → (apply_patch b p db).1 ≡ true
    → string_in_slice p (apply_patch b p db).0.applied ≡ true
unfolding apply_patch
apply_patch-adds b p db h =
    ground (arith, mark-adds b p (record db { content = (b.run_patch p db.content).0 }))

patches_loop-keeps {ℓ} :
    {A : Type ℓ} (b : Bodies A) (q : Bytes) (applied ps : List Bytes) (db : Db A)
    → string_in_slice q db.applied ≡ true
    → string_in_slice q (patches_loop b applied ps db).0.applied ≡ true
unfolding patches_loop
patches_loop-keeps b q applied [] db h = h
patches_loop-keeps b q applied (p ∷ ps) db h = ground (
  arith,
  patches_loop-keeps b q applied ps db h,
  apply_patch-keeps b q p db h,
  patches_loop-keeps b q applied ps (apply_patch b p db).0,
)

patches_loop-all {ℓ} :
    {A : Type ℓ} (b : Bodies A) (applied ps : List Bytes) (db : Db A)
    → ((q : Bytes) → string_in_slice q applied ≡ true → string_in_slice q db.applied ≡ true)
    → (patches_loop b applied ps db).1 ≡ true
    → all_applied ps (patches_loop b applied ps db).0.applied ≡ true
unfolding patches_loop
patches_loop-all b applied [] db h s = refl
patches_loop-all b applied (p ∷ ps) db h s =
    let db' = (apply_patch b p db).0 in
    ground (
      arith,
      h p,
      patches_loop-keeps b p applied ps db,
      patches_loop-all b applied ps db h,
      apply_patch-adds b p db,
      patches_loop-keeps b p applied ps db',
      patches_loop-all b applied ps db' (λ q m. apply_patch-keeps b q p db (h q m)),
    )

pub patches_loop-none {ℓ} :
    {A : Type ℓ} (b : Bodies A) (applied ps : List Bytes) (db : Db A)
    → all_applied ps applied ≡ true
    → patches_loop b applied ps db ≡ (db, true)
unfolding patches_loop
patches_loop-none b applied [] db h = refl
patches_loop-none b applied (p ∷ ps) db h = ground (arith, patches_loop-none b applied ps db)

-- If patchesApplyAll succeeds then every patch has its row, and whatever the bodies do at the next start,
-- patchesApplyAll then succeeds and changes nothing.
pub patches_apply_all-rerun {ℓ} :
    {A : Type ℓ} (b b' : Bodies A) (ps : List Bytes) (db : Db A)
    → (patches_apply_all b ps db).1 ≡ true
    → let db' = (patches_apply_all b ps db).0 in
      (all_applied ps db'.applied ≡ true) × (patches_apply_all b' ps db' ≡ (db', true))
unfolding patches_apply_all
patches_apply_all-rerun b b' ps db h =
    let all = patches_loop-all b db.applied ps db (λ q m. m) h in
    (
      all,
      patches_loop-none b' (patches_loop b db.applied ps db).0.applied ps
          (patches_loop b db.applied ps db).0 all,
    )

mark_all-keeps {ℓ} :
    {A : Type ℓ} (b : Bodies A) (q : Bytes) (ps : List Bytes) (db : Db A)
    → string_in_slice q db.applied ≡ true
    → string_in_slice q (mark_all b ps db).applied ≡ true
unfolding mark_all
mark_all-keeps b q [] db h = h
mark_all-keeps b q (p ∷ ps) db h =
    mark_all-keeps b q ps (patches_mark_applied b p db).0 (mark-keeps b q p db h)

mark-has {ℓ} :
    {A : Type ℓ} (b : Bodies A) (p : Bytes) (db : Db A)
    → b.takes_patch p db.content ≡ true
    → string_in_slice p (patches_mark_applied b p db).0.applied ≡ true
unfolding patches_mark_applied
mark-has b p db h = ground (arith, string_in_slice-append p db.applied p, eq→bytes_eq p p refl)

mark-rest {ℓ} :
    {A : Type ℓ} (b : Bodies A) (p : Bytes) (db : Db A)
    → ((patches_mark_applied b p db).0.content ≡ db.content)
      × ((patches_mark_applied b p db).0.versions ≡ db.versions)
unfolding patches_mark_applied
mark-rest b p db = ground arith

-- The data base takes the rows of all patches as it is.
abbrev pub TakesPatches {ℓ} : {A : Type ℓ} → Bodies A → A → Type 0
TakesPatches b content = (p : Bytes) → b.takes_patch p content ≡ true

pub mark_all_lem {ℓ} :
    {A : Type ℓ} (b : Bodies A) (ps : List Bytes) (db : Db A)
    → TakesPatches b db.content
    → (all_applied ps (mark_all b ps db).applied ≡ true)
      × ((mark_all b ps db).versions ≡ db.versions)
unfolding mark_all
mark_all_lem b [] db h = (refl, refl)
mark_all_lem b (p ∷ ps) db h =
    let next = (patches_mark_applied b p db).0 in
    let rest = mark_all_lem b ps next (λ q. rw (mark-rest b p db).0 (h q)) in
    (
      ground (arith, rest.0, mark_all-keeps b p ps next (mark-has b p db (h p))),
      rest.1 ∙ (mark-rest b p db).1,
    )
