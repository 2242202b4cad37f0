-- ===== src/Idmap/Proofs/Hostids.antt =====
-- The ranges of other containers, sorted by their host ids.
use mercuryc.Base.{ℕ, ◌+◌, ◌^◌, ◌<◌, ◌≤◌, List, [], ◌∷◌, ◌⊎◌, inl, inr, arith, All, Bool-cases}
use mercuryc.Base.Word.{lt}
use mercuryc.Idmap.{IdmapEntry}
use mercuryc.Idmap.Isolated.{insert_by_hostid, sort_by_hostid}

-- A range of host ids that is not empty and ends at `limit` or before.
abbrev pub EndsBy : ℕ → IdmapEntry → Type 0
EndsBy limit e = (0 < e.maprange) × (e.hostid + e.maprange ≤ limit)

-- The host ids of two entries are apart.
abbrev pub Apart : IdmapEntry → IdmapEntry → Type 0
Apart e i = (e.hostid + e.maprange ≤ i.hostid) ⊎ (i.hostid + i.maprange ≤ e.hostid)

abbrev pub IsApart : List IdmapEntry → Type 0
IsApart [] = Unit
IsApart (e ∷ es) = All (Apart e) es × IsApart es

-- The ids from `start` on, `size` of them, are apart from an entry's.
abbrev pub IsFree : ℕ → ℕ → IdmapEntry → Type 0
IsFree start size e = (e.hostid + e.maprange ≤ start) ⊎ (start + size ≤ e.hostid)

-- Each entry ends before the later ones start.
abbrev pub IsChain : List IdmapEntry → Type 0
IsChain [] = Unit
IsChain (e ∷ es) = All (λ x. e.hostid + e.maprange ≤ x.hostid) es × IsChain es

All-insert_by_hostid :
    (P : IdmapEntry → Type 0) (c : IdmapEntry) (cs : List IdmapEntry)
    → P c
    → All P cs
    → All P (insert_by_hostid c cs)
unfolding insert_by_hostid
All-insert_by_hostid P c [] p h = (p, tt)
All-insert_by_hostid P c (x ∷ cs) p (q, h) = elim (Bool-cases (lt c.hostid x.hostid)) [
  | inl t ↦ rw t (p, (q, h))
  | inr f ↦ rw f (q, All-insert_by_hostid P c cs p h)
]

pub All-sort_by_hostid :
    (P : IdmapEntry → Type 0) (cs : List IdmapEntry) → All P cs → All P (sort_by_hostid cs)
unfolding sort_by_hostid
All-sort_by_hostid P [] h = h
All-sort_by_hostid P (c ∷ cs) (p, h) =
    All-insert_by_hostid P c (sort_by_hostid cs) p (All-sort_by_hostid P cs h)

-- The way back: what holds of the sorted entries holds of the entries.
insert_by_hostid-All :
    (P : IdmapEntry → Type 0) (c : IdmapEntry) (cs : List IdmapEntry)
    → All P (insert_by_hostid c cs)
    → P c × All P cs
unfolding insert_by_hostid
insert_by_hostid-All P c [] h = h
insert_by_hostid-All P c (x ∷ cs) h = elim (Bool-cases (lt c.hostid x.hostid)) [
  | inl t ↦ rw t at h
  | inr f ↦
      let (q, r) : All P (x ∷ insert_by_hostid c cs) = rw f at h in
      let (p, s) = insert_by_hostid-All P c cs r in (p, (q, s))
]

pub sort_by_hostid-All :
    (P : IdmapEntry → Type 0) (cs : List IdmapEntry) → All P (sort_by_hostid cs) → All P cs
unfolding sort_by_hostid
sort_by_hostid-All P [] h = h
sort_by_hostid-All P (c ∷ cs) h =
    let (p, r) = insert_by_hostid-All P c (sort_by_hostid cs) h in (p, sort_by_hostid-All P cs r)

All-after :
    (c x : IdmapEntry) (cs : List IdmapEntry)
    → c.hostid + c.maprange ≤ x.hostid
    → All (λ y. x.hostid + x.maprange ≤ y.hostid) cs
    → All (λ y. c.hostid + c.maprange ≤ y.hostid) cs
All-after c x [] h a = tt
All-after c x (y ∷ cs) h (p, a) = (omega arith, All-after c x cs h a)

insert_by_hostid-IsChain :
    (limit : ℕ) (c : IdmapEntry) (cs : List IdmapEntry)
    → limit < 2 ^ 40
    → EndsBy limit c
    → All (EndsBy limit) cs
    → All (Apart c) cs
    → IsChain cs
    → IsChain (insert_by_hostid c cs)
unfolding insert_by_hostid lt
insert_by_hostid-IsChain limit c [] l p h a s = (tt, tt)
insert_by_hostid-IsChain limit c (x ∷ cs) l p (q, h) (a, r) (b, s) =
    elim (Bool-cases (unfold lt in lt c.hostid x.hostid)) [
      | inl t ↦
          let before : c.hostid + c.maprange ≤ x.hostid = ground arith in
          rw t ((before, All-after c x cs before b), (b, s))
      | inr f ↦ rw f (
        All-insert_by_hostid (λ y. x.hostid + x.maprange ≤ y.hostid) c cs (ground arith) b,
        insert_by_hostid-IsChain limit c cs l p h r s,
      )
    ]

pub sort_by_hostid-IsChain :
    (limit : ℕ) (cs : List IdmapEntry)
    → limit < 2 ^ 40
    → All (EndsBy limit) cs
    → IsApart cs
    → IsChain (sort_by_hostid cs)
unfolding sort_by_hostid
sort_by_hostid-IsChain limit [] l h a = tt
sort_by_hostid-IsChain limit (c ∷ cs) l (p, h) (a, r) =
    insert_by_hostid-IsChain limit c (sort_by_hostid cs) l p
      (All-sort_by_hostid (EndsBy limit) cs h) (All-sort_by_hostid (Apart c) cs a)
      (sort_by_hostid-IsChain limit cs l h r)
