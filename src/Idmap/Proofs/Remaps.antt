-- ===== src/Idmap/Proofs/Remaps.antt =====
-- What a set maps after AddSafe.
use mercuryc.Base.{
  ◌+◌, ◌-◌, ◌<◌, some, ◌≡◌, true, false, arith, inl, inr, [], ◌∷◌, ◌++◌, refl, All, All-append,
  Bool-cases, if◌then◌else◌,
}
use mercuryc.Base.Word.{Int64, int64_mod, add, sub, lt}
use mercuryc.Idmap.{IdmapEntry, intersects}
use mercuryc.Idmap.Set.{
  IdmapSet, into, lower_part, upper_part, keep, pieces, add_safe, set_shift_into_ns,
}
use mercuryc.Idmap.Proofs.Entry.{within}
use mercuryc.Idmap.Proofs.Cross.{IsRange}
use mercuryc.Idmap.Proofs.Append.{IsWide}
use mercuryc.Idmap.Proofs.Shift.{IsSmall, do_shift-first_shift, isuid_meets, isgid_meets}
use mercuryc.Idmap.Proofs.AddSafe.{clashes, touches, splice, add_safe_lem}
use mercuryc.Idmap.Proofs.Pieces.{first_shift-add_safe, overlap_of_intersects}

keep-IsSmall : (e : IdmapEntry) → (lt 0 e.maprange ≡ true → IsSmall e) → All IsSmall (keep e)
unfolding keep
keep-IsSmall e h = ground arith

pieces-IsSmall :
    (e i : IdmapEntry)
    → IsRange e
    → IsRange i
    → i.nsid < e.nsid + e.maprange
    → e.nsid < i.nsid + i.maprange
    → All IsSmall (pieces e i)
unfolding pieces
pieces-IsSmall e i re ri h k =
    All-append IsSmall (keep (lower_part e i)) (i ∷ keep (upper_part e i))
      (keep-IsSmall (lower_part e i) (unfold lower_part lt sub in λ p. ground arith))
      (
        ground arith,
        keep-IsSmall (upper_part e i)
            (unfold upper_part lower_part lt sub add in λ p. ground arith),
      )

splice-IsSmall :
    (i : IdmapEntry) (m : IdmapSet)
    → IsRange i
    → All IsRange m
    → clashes i m ≡ false
    → All IsSmall (splice i m)
splice-IsSmall i [] ri r c = tt
splice-IsSmall i (e ∷ m) ri (r, rs) c = elim (Bool-cases (intersects e i)) [
  | inl met ↦
      let (h, k) = overlap_of_intersects e i r ri met (ground arith) in
      rw met (
        All-append IsSmall (pieces e i) (splice i m) (pieces-IsSmall e i r ri h k)
          (splice-IsSmall i m ri rs (ground arith)))
  | inr free ↦ rw free (ground arith, splice-IsSmall i m ri rs (ground arith))
]

add_safe-splice :
    (m : IdmapSet) (i : IdmapEntry) (m' : IdmapSet)
    → add_safe m i ≡ some m'
    → (clashes i m ≡ false) × (m' ≡ splice i m ++ (if touches i m then [] else i ∷ []))
add_safe-splice m i m' h = ground (arith, add_safe_lem m i)

add_safe-IsSmall :
    (m : IdmapSet) (i : IdmapEntry) (m' : IdmapSet)
    → All IsRange m
    → IsRange i
    → add_safe m i ≡ some m'
    → All IsSmall m'
add_safe-IsSmall m i m' r ri h =
    let (free, result) = add_safe-splice m i m' h in
    rw result (
      All-append IsSmall (splice i m) (if touches i m then [] else i ∷ [])
        (splice-IsSmall i m ri r free) (ground arith))

IsRange-IsSmall : (m : IdmapSet) → All IsRange m → All IsSmall m
IsRange-IsSmall [] r = tt
IsRange-IsSmall (e ∷ m) (r, rs) = (omega arith, IsRange-IsSmall m rs)

-- After AddSafe succeeds on a set of ranges of two ids at least, with a range `i` for uids of two ids
-- at least, and if the nsid, hostid and maprange of `i` and of every entry are below 2^32, then the uids of
-- that range are mapped as `i` says, and every other uid as before.
pub add_safe-shift_uid :
    (m : IdmapSet) (i : IdmapEntry) (m' : IdmapSet) (uid gid : Int64)
    → All IsRange m
    → All IsWide m
    → IsRange i
    → IsWide i
    → i.isuid ≡ true
    → uid < int64_mod
    → gid < int64_mod
    → add_safe m i ≡ some m'
    → (set_shift_into_ns m' uid gid).0 ≡ (
        if within uid i.nsid i.maprange
        then uid - i.nsid + i.hostid
        else (set_shift_into_ns m uid gid).0)
unfolding set_shift_into_ns
add_safe-shift_uid m i m' uid gid r w ri wi ki hu hg h = ground (
  arith,
  do_shift-first_shift into m' uid gid (add_safe-IsSmall m i m' r ri h) hu hg,
  do_shift-first_shift into m uid gid (IsRange-IsSmall m r) hu hg,
  first_shift-add_safe (λ e. e.isuid) (λ e h n r. refl) isuid_meets i ri wi ki uid hu m m' r w h,
)

-- After AddSafe succeeds on a set of ranges of two ids at least, with a range `i` for gids of two ids
-- at least, the gids of that range are mapped as `i` says, and every other gid as before.
add_safe-shift_gid :
    (m : IdmapSet) (i : IdmapEntry) (m' : IdmapSet) (uid gid : Int64)
    → All IsRange m
    → All IsWide m
    → IsRange i
    → IsWide i
    → i.isgid ≡ true
    → uid < int64_mod
    → gid < int64_mod
    → add_safe m i ≡ some m'
    → (set_shift_into_ns m' uid gid).1 ≡ (
        if within gid i.nsid i.maprange
        then gid - i.nsid + i.hostid
        else (set_shift_into_ns m uid gid).1)
unfolding set_shift_into_ns
add_safe-shift_gid m i m' uid gid r w ri wi ki hu hg h = ground (
  arith,
  do_shift-first_shift into m' uid gid (add_safe-IsSmall m i m' r ri h) hu hg,
  do_shift-first_shift into m uid gid (IsRange-IsSmall m r) hu hg,
  first_shift-add_safe (λ e. e.isgid) (λ e h n r. refl) isgid_meets i ri wi ki gid hg m m' r w h,
)
