-- ===== src/Idmap/Proofs/Ranges.antt =====
-- The ranges of ValidRanges cover the ids of the set's entries.
use mercuryc.Base.{
  ◌<◌, ◌≤◌, ◌*◌, none, some, ◌≡◌, true, false, arith, List, [], ◌∷◌, ◌++◌, refl, Bool, ◌||◌, ◌&&◌,
  Option, All, All-append, same, Bool-cases, ◌==◌, ◌>>=◌, inl, inr, ◌∙◌,
}
use mercuryc.Base.Word.{Int64, u32_mod, int64_mod, add, sub, le}
use mercuryc.Idmap.{IdRange, IdmapEntry, contains}
use mercuryc.Idmap.Set.{
  IdmapSet, less, insert_sorted, sort, grow, open_range, add_range, ranges_loop, valid_ranges,
}
use mercuryc.Idmap.Proofs.Entry.{within}
use mercuryc.Idmap.Proofs.Cross.{IsRange}

-- Ranges that sums of 32-bit numbers give.
abbrev pub IsBounded : IdRange → Type 0
IsBounded r = (r.startid < u32_mod) × (r.startid ≤ r.endid) × (r.endid < 2 * u32_mod)

open_range-IsBounded : (e : IdmapEntry) → IsRange e → IsBounded (open_range e)
unfolding open_range add sub
open_range-IsBounded e re = ground arith

-- The ids of one pair of flags, Isuid and Isgid.
module _ (isuid isgid : Bool) (id : Int64) where
  -- Some range with these flags holds the id.
  abbrev pub covered : List IdRange → Bool
  covered [] = false
  covered (r ∷ ranges) =
      (same r.isuid isuid && (same r.isgid isgid && contains r id)) || covered ranges

  abbrev mapped_by : IdmapEntry → Bool
  mapped_by e = same e.isuid isuid && (same e.isgid isgid && within id e.nsid e.maprange)

  -- Some entry with these flags maps the id.
  abbrev pub mapped : IdmapSet → Bool
  mapped [] = false
  mapped (e ∷ m) = mapped_by e || mapped m

  mapped-insert_sorted :
      (e : IdmapEntry) (m : IdmapSet) → mapped (insert_sorted e m) ≡ mapped_by e || mapped m
  unfolding insert_sorted
  mapped-insert_sorted e [] = refl
  mapped-insert_sorted e (x ∷ m) = ground (arith, mapped-insert_sorted e m)

  mapped-sort : (m : IdmapSet) → mapped (sort m) ≡ mapped m
  unfolding sort
  mapped-sort [] = refl
  mapped-sort (e ∷ m) = ground (arith, mapped-sort m, mapped-insert_sorted e (sort m))

  covered-append : (r s : List IdRange) → covered (r ++ s) ≡ covered r || covered s
  covered-append [] s = refl
  covered-append (x ∷ r) s = ground (arith, covered-append r s)

  covered-open_range :
      (e : IdmapEntry) → IsRange e → id < int64_mod → covered (open_range e ∷ []) ≡ mapped_by e
  unfolding open_range contains add sub le
  covered-open_range e re h = ground arith

  -- The range that the entry continues.
  covered-extended :
      (e : IdmapEntry) (r : IdRange)
      → IsRange e
      → IsBounded r
      → id < int64_mod
      → same e.isuid r.isuid && (same e.isgid r.isgid && add r.endid 1 == e.nsid) ≡ true
      → covered (record r { endid = add r.endid e.maprange } ∷ []) ≡ covered (r ∷ []) || mapped_by e
  unfolding contains add le
  covered-extended e r re b h t = ground arith

  -- What a search for a range to grow returns is right.
  abbrev Grows : IdmapEntry → List IdRange → Option (List IdRange) → Type 0
  Grows e ranges none = Unit
  Grows e ranges (some grown) =
      All IsBounded grown × (covered grown ≡ covered ranges || mapped_by e)

  Grows-cons :
      (e : IdmapEntry) (r : IdRange) (ranges : List IdRange) (o : Option (List IdRange))
      → IsBounded r
      → Grows e ranges o
      → Grows e (r ∷ ranges) (o >>= λ rest. some (r ∷ rest))
  Grows-cons e r ranges none b g = tt
  Grows-cons e r ranges (some grown) b g = ground arith

  grow-Grows :
      (e : IdmapEntry) (ranges : List IdRange)
      → IsRange e
      → All IsBounded ranges
      → id < int64_mod
      → Grows e ranges (grow e ranges)
  unfolding grow
  grow-Grows e [] re b h = tt
  grow-Grows e (r ∷ ranges) re (b, bs) h =
      elim (Bool-cases
        (same e.isuid r.isuid && (same e.isgid r.isgid && add r.endid 1 == e.nsid))) [
          | inl t ↦
              rw t ((unfold add in ground arith, bs), ground (arith, covered-extended e r re b h t))
          | inr f ↦ rw f (Grows-cons e r ranges (grow e ranges) b (grow-Grows e ranges re bs h))
        ]

  abbrev chosen : IdmapEntry → List IdRange → Option (List IdRange) → List IdRange
  chosen e ranges o = elim o [ none ↦ ranges ++ open_range e ∷ [] | some r ↦ r ]

  add_range_lem :
      (e : IdmapEntry) (ranges : List IdRange)
      → IsRange e
      → All IsBounded ranges
      → id < int64_mod
      → All IsBounded (add_range e ranges)
        × (covered (add_range e ranges) ≡ covered ranges || mapped_by e)
  unfolding add_range
  add_range_lem e ranges re b h = split (grow e ranges) (grow-Grows e ranges re b h)
    where
      split :
          (o : Option (List IdRange))
          → Grows e ranges o
          → All IsBounded (chosen e ranges o)
            × (covered (chosen e ranges o) ≡ covered ranges || mapped_by e)
      split none g = (
        All-append IsBounded ranges (open_range e ∷ []) b (open_range-IsBounded e re, tt),
        ground (arith, covered-append ranges (open_range e ∷ []), covered-open_range e re h),
      )
      split (some r) g = g

  covered-ranges_loop :
      (m : IdmapSet) (ranges : List IdRange)
      → All IsRange m
      → All IsBounded ranges
      → id < int64_mod
      → covered (ranges_loop m ranges) ≡ covered ranges || mapped m
  unfolding ranges_loop
  covered-ranges_loop [] ranges r b h = ground arith
  covered-ranges_loop (e ∷ m) ranges (r, rs) b h =
      let (b', c) = add_range_lem e ranges r b h in
      ground (arith, covered-ranges_loop m (add_range e ranges) rs b' h)

insert_sorted-All :
    (P : IdmapEntry → Type 0) (e : IdmapEntry) (m : IdmapSet)
    → P e
    → All P m
    → All P (insert_sorted e m)
unfolding insert_sorted
insert_sorted-All P e [] p h = (p, h)
insert_sorted-All P e (x ∷ m) p (q, h) = elim (Bool-cases (less x e)) [
  | inl t ↦ rw t (q, insert_sorted-All P e m p h)
  | inr f ↦ rw f (p, (q, h))
]

sort-All : (P : IdmapEntry → Type 0) (m : IdmapSet) → All P m → All P (sort m)
unfolding sort
sort-All P [] h = h
sort-All P (e ∷ m) (p, h) = insert_sorted-All P e (sort m) p (sort-All P m h)

-- For a set of entries that are not empty and whose nsid, hostid and maprange are all below 2^32: an id is
-- held by a range of ValidRanges with some flags exactly when an entry with these flags maps it in the
-- namespace.
pub valid_ranges_lem :
    (isuid isgid : Bool) (id : Int64) (m : IdmapSet)
    → All IsRange m
    → id < int64_mod
    → covered isuid isgid id (valid_ranges m) ≡ mapped isuid isgid id m
unfolding valid_ranges
valid_ranges_lem isuid isgid id m r h =
    covered-ranges_loop isuid isgid id (sort m) [] (sort-All IsRange m r) tt h
    ∙ mapped-sort isuid isgid id m
