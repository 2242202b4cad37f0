-- ===== src/Idmap/Proofs/Defaults.antt =====
-- What DefaultIdmapSet returns.
use mercuryc.Base.{
  ℕ, ◌≤◌, none, some, ◌≡◌, true, false, arith, List, [], ◌∷◌, refl, Bool, ◌||◌, ◌&&◌, not, Option,
  All, All-append, if◌then◌else◌, Bool-cases, ◌>>=◌, inl, inr, ◌⊎◌, ltb, some_inj, subst,
}
use mercuryc.Base.Word.{add, sub, lt, le}
use mercuryc.Idmap.{IdRange, IdmapEntry, contains}
use mercuryc.Idmap.Set.{IdmapSet, extend, valid_ranges}
use mercuryc.Idmap.Kernel.{Host, fits, usable, set_usable, current_idmap_set}
use mercuryc.Idmap.Defaults.{
  add_shadow, hardcoded, clip, pick, add_picked, from_ranges, from_kernel, has_shadow, is_full,
  default_idmap_set,
}

-- The entry maps at least 65536 ids, from 0 on.
abbrev pub IsUseful : IdmapEntry → Type 0
IsUseful e = (e.nsid ≡ 0) × (65536 ≤ e.maprange)

add_shadow-IsUseful :
    (uids : Bool) (entries : List (ℕ × ℕ)) (m : IdmapSet)
    → All IsUseful m
    → All IsUseful (add_shadow uids entries m)
unfolding add_shadow
add_shadow-IsUseful uids [] m h = h
add_shadow-IsUseful uids ((start, size) ∷ entries) m h = elim (Bool-cases (ltb size 65536)) [
  | inl small ↦ rw small (add_shadow-IsUseful uids entries m h)
  | inr large ↦ rw large (unfold extend in All-append IsUseful m _ h (ground arith, tt))
]

-- The range holds at least 65537 ids, from 100000 on.
abbrev IsLarge : Option IdRange → Type 0
IsLarge none = Unit
IsLarge (some r) =
    (lt r.startid 100000 ≡ false)
    × (lt r.endid 100000 ≡ false)
    × (lt (sub r.endid r.startid) 65536 ≡ false)

pick-IsLarge : (kind : IdRange → Bool) (ranges : List IdRange) → IsLarge (pick kind ranges).0
unfolding pick lt
pick-IsLarge kind [] = tt
pick-IsLarge kind (r ∷ ranges) = ground (arith, pick-IsLarge kind ranges)

-- What each entry is like on a host with no shadow files.
abbrev pub IsHigh : IdmapEntry → Type 0
IsHigh e = IsUseful e × (100000 ≤ e.hostid)

add_picked-IsHigh :
    (uids : Bool) (o : Option IdRange) (m : IdmapSet)
    → IsLarge o
    → All IsHigh m
    → All IsHigh (add_picked uids o m)
unfolding add_picked lt sub add extend
add_picked-IsHigh uids none m l h = h
add_picked-IsHigh uids (some r) m l h = All-append IsHigh m _ h (ground arith, tt)

from_ranges-IsHigh : (ranges : List IdRange) → All IsHigh (from_ranges ranges)
unfolding from_ranges
from_ranges-IsHigh ranges =
    add_picked-IsHigh false _ _ (pick-IsLarge (λ r. r.isgid) (pick (λ r. r.isuid) ranges).1)
      (add_picked-IsHigh true _ [] (pick-IsLarge (λ r. r.isuid) ranges) tt)

hardcoded-IsHigh : All IsHigh (extend [] hardcoded)
unfolding extend hardcoded
hardcoded-IsHigh = omega arith

from_kernel-IsHigh : (o : Option IdmapSet) → All IsHigh (from_kernel o)
unfolding from_kernel
from_kernel-IsHigh none = hardcoded-IsHigh
from_kernel-IsHigh (some m) = elim (Bool-cases (is_full (valid_ranges m))) [
  | inl full ↦ rw full hardcoded-IsHigh
  | inr part ↦ rw part (from_ranges-IsHigh (valid_ranges m))
]

-- With no shadow files DefaultIdmapSet never fails, and every entry that it returns maps at least
-- 65536 host ids from 100000 on to the container's ids from 0 on.
default_idmap_set-IsHigh :
    (host : Host)
    → has_shadow host ≡ false
    → (m : IdmapSet) × (default_idmap_set host ≡ some m) × All IsHigh m
unfolding default_idmap_set
default_idmap_set-IsHigh host h =
    (from_kernel (current_idmap_set host), rw h, from_kernel-IsHigh (current_idmap_set host))

IsHigh-IsUseful : (m : IdmapSet) → All IsHigh m → All IsUseful m
IsHigh-IsUseful [] h = tt
IsHigh-IsUseful (e ∷ m) (h, hs) = (h.0, IsHigh-IsUseful m hs)

from_shadow-IsUseful :
    (uids gids : Option (List (ℕ × ℕ))) (m : IdmapSet)
    → (uids >>= λ u. gids >>= λ g. some (add_shadow false g (add_shadow true u []))) ≡ some m
    → All IsUseful m
from_shadow-IsUseful none gids m h = absurd (cc)
from_shadow-IsUseful (some u) none m h = absurd (cc)
from_shadow-IsUseful (some u) (some g) m h =
    subst (All IsUseful) (some_inj h)
      (add_shadow-IsUseful false g (add_shadow true u []) (add_shadow-IsUseful true u [] tt))

-- Every entry that DefaultIdmapSet returns maps at least 65536 ids, from the container's id 0 on.
default_idmap_set-IsUseful :
    (host : Host) (m : IdmapSet) → default_idmap_set host ≡ some m → All IsUseful m
unfolding default_idmap_set
default_idmap_set-IsUseful host m h = elim (Bool-cases (has_shadow host)) [
  | inl shadow ↦ from_shadow-IsUseful _ _ m (rw shadow at h)
  | inr kernel ↦
      subst (All IsUseful) (some_inj (rw kernel at h))
        (IsHigh-IsUseful _ (from_kernel-IsHigh (current_idmap_set host)))
]

-- The second list holds the ranges of the first, some of them clipped.
abbrev Clipped : List IdRange → List IdRange → Type 0
Clipped [] [] = Unit
Clipped (r ∷ rs) (s ∷ ss) = ((s ≡ r) ⊎ (s ≡ clip r)) × Clipped rs ss
Clipped _ _ = ⊥

Clipped-refl : (ranges : List IdRange) → Clipped ranges ranges
Clipped-refl [] = tt
Clipped-refl (r ∷ ranges) = (inl refl, Clipped-refl ranges)

pick-Clipped : (kind : IdRange → Bool) (ranges : List IdRange) → Clipped ranges (pick kind ranges).1
unfolding pick
pick-Clipped kind [] = tt
pick-Clipped kind (r ∷ ranges) = ground (arith, pick-Clipped kind ranges, Clipped-refl ranges)

-- The entry of a picked range, by its numbers.
abbrev Fits : (IdRange → Bool) → List IdRange → Option IdRange → Type 0
Fits kind ranges none = Unit
Fits kind ranges (some s) =
    (e : IdmapEntry)
    → e.hostid ≡ s.startid
    → e.maprange ≡ add (sub s.endid s.startid) 1
    → fits kind e ranges ≡ true

fits_here :
    (r s : IdRange) (e : IdmapEntry)
    → (s ≡ r) ⊎ (s ≡ clip r)
    → lt s.endid 100000 ≡ false
    → lt (sub (clip s).endid (clip s).startid) 65536 ≡ false
    → e.hostid ≡ (clip s).startid
    → e.maprange ≡ add (sub (clip s).endid (clip s).startid) 1
    → contains r e.hostid && contains r (sub (add e.hostid e.maprange) 1) ≡ true
unfolding clip contains lt le add sub
fits_here r s e (inl q) h k a b = ground arith
fits_here r s e (inr q) h k a b = ground arith

Fits-cons :
    (kind : IdRange → Bool) (r : IdRange) (ranges : List IdRange) (o : Option IdRange)
    → Fits kind ranges o
    → Fits kind (r ∷ ranges) o
unfolding fits
Fits-cons kind r ranges none f = tt
Fits-cons kind r ranges (some s) f = λ e a b. ground (arith, f e a b)

fits_first :
    (kind : IdRange → Bool) (r : IdRange) (ranges : List IdRange) (e : IdmapEntry)
    → kind r ≡ true
    → contains r e.hostid && contains r (sub (add e.hostid e.maprange) 1) ≡ true
    → fits kind e (r ∷ ranges) ≡ true
unfolding fits
fits_first kind r ranges e k c = rw (k, c)

pick-Fits :
    (kind : IdRange → Bool) (kind_clip : (r : IdRange) → kind (clip r) ≡ kind r)
    (ranges seen : List IdRange)
    → Clipped ranges seen
    → Fits kind ranges (pick kind seen).0
unfolding pick
pick-Fits kind kind_clip [] [] c = tt
pick-Fits kind kind_clip [] (s ∷ seen) c = elim c [ ]
pick-Fits kind kind_clip (r ∷ ranges) [] c = elim c [ ]
pick-Fits kind kind_clip (r ∷ ranges) (s ∷ seen) (c, cs) =
    let later =
      Fits-cons kind r ranges (pick kind seen).0 (pick-Fits kind kind_clip ranges seen cs) in
    elim (Bool-cases (not (kind s) || lt s.endid 100000)) [
      | inl skip ↦ rw skip later
      | inr on ↦ elim (Bool-cases (lt (sub (clip s).endid (clip s).startid) 65536)) [
        | inl few ↦ rw (on, few) later
        | inr many ↦
            rw (on, many)
              (λ e a b.
                fits_first kind r ranges e (kind_of r s c (ground arith))
                  (fits_here r s e c (ground arith) many a b))
      ]
    ]
  where
    kind_of : (r s : IdRange) → (s ≡ r) ⊎ (s ≡ clip r) → kind s ≡ true → kind r ≡ true
    kind_of r s (inl q) k = cc
    kind_of r s (inr q) k = cc (kind_clip r)

abbrev picked_entry : Bool → IdRange → IdmapEntry
picked_entry uids s = record {
  isuid = uids;
  isgid = not uids;
  hostid = s.startid;
  nsid = 0;
  maprange = add (sub s.endid s.startid) 1;
}

-- What is added for a picked range can be used.
add_picked-usable :
    (host : Host) (k : IdmapSet) (uids : Bool) (o : Option IdRange) (m : IdmapSet)
    → current_idmap_set host ≡ some k
    → Fits (λ r. if uids then r.isuid else r.isgid) (valid_ranges k) o
    → set_usable host m ≡ true
    → set_usable host (add_picked uids o m) ≡ true
unfolding add_picked extend set_usable usable
add_picked-usable host k uids none m c f h = h
add_picked-usable host k true (some s) [] c f h = ground (arith, f (picked_entry true s) refl refl)
add_picked-usable host k false (some s) [] c f h =
    ground (arith, f (picked_entry false s) refl refl)
add_picked-usable host k uids (some s) (e ∷ m) c f h =
    ground (arith, add_picked-usable host k uids (some s) m c f)

clip_isuid : (r : IdRange) → (clip r).isuid ≡ r.isuid
unfolding clip
clip_isuid r = ground arith

clip_isgid : (r : IdRange) → (clip r).isgid ≡ r.isgid
unfolding clip
clip_isgid r = ground arith

-- With no shadow files, and a kernel map that is read and is not the full one, the map that
-- DefaultIdmapSet takes from the kernel's ranges passes Usable on the same host: both its uid entry
-- and its gid entry lie within a range of that map, although the two loops share the ranges that
-- they clip.
pub default_idmap_set-usable :
    (host : Host) (k m : IdmapSet)
    → has_shadow host ≡ false
    → current_idmap_set host ≡ some k
    → is_full (valid_ranges k) ≡ false
    → default_idmap_set host ≡ some m
    → set_usable host m ≡ true
unfolding default_idmap_set from_kernel from_ranges
default_idmap_set-usable host k m shadow c full h =
    let ranges = valid_ranges k in
    let (uid, left) = pick (λ r. r.isuid) ranges in
    let gid = (pick (λ r. r.isgid) left).0 in
    let e : add_picked false gid (add_picked true uid []) ≡ m =
      some_inj (rw (shadow, c, full) at h) in
    subst (λ x. set_usable host x ≡ true) e
      (add_picked-usable host k false gid (add_picked true uid []) c
        (pick-Fits (λ r. r.isgid) clip_isgid ranges left (pick-Clipped (λ r. r.isuid) ranges))
        (add_picked-usable host k true uid [] c
          (pick-Fits (λ r. r.isuid) clip_isuid ranges ranges (Clipped-refl ranges))
          (unfold set_usable in refl)))
