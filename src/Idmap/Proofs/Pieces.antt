-- ===== src/Idmap/Proofs/Pieces.antt =====
-- The pieces that AddSafe makes of an entry, and the ids that they map.
use mercuryc.Base.{
  ◌+◌, ◌-◌, ◌<◌, none, some, ◌≡◌, true, false, arith, [], ◌∷◌, ◌++◌, Bool, All, if◌then◌else◌,
  append_assoc, append-nil,
}
use mercuryc.Base.Word.{Int64, int64_mod, minus_one, add, sub, lt, le}
use mercuryc.Idmap.{IdmapEntry, intersects, hostids_intersect, shift_into_ns}
use mercuryc.Idmap.Set.{IdmapSet, into, shift, lower_part, upper_part, keep, pieces, add_safe}
use mercuryc.Idmap.Proofs.Entry.{IsU32, within, shift_into_ns_lem}
use mercuryc.Idmap.Proofs.Cross.{KindsMeet, IsRange, intersects_iff, hostids_intersect_iff}
use mercuryc.Idmap.Proofs.Append.{IsWide}
use mercuryc.Idmap.Proofs.Shift.{first_shift}
use mercuryc.Idmap.Proofs.AddSafe.{clashes, touches, splice, add_safe_lem}

shift_into :
    (e : IdmapEntry) (id : Int64)
    → IsU32 e
    → id < int64_mod
    → shift into e id
      ≡ (if within id e.nsid e.maprange then some (id - e.nsid + e.hostid) else none)
unfolding shift
shift_into = shift_into_ns_lem

-- Where only the namespace's ranges can meet, they do.
pub overlap_of_intersects :
    (e i : IdmapEntry)
    → IsRange e
    → IsRange i
    → intersects e i ≡ true
    → hostids_intersect e i ≡ false
    → (i.nsid < e.nsid + e.maprange) × (e.nsid < i.nsid + i.maprange)
overlap_of_intersects e i re ri h k =
    ground (arith, intersects_iff e i re ri, hostids_intersect_iff e i re ri)

-- An entry that does not intersect `i` maps no id of the range of `i`.
shift_disjoint :
    (e i : IdmapEntry) (id : Int64)
    → IsRange e
    → IsRange i
    → IsWide e
    → IsWide i
    → KindsMeet e i
    → intersects e i ≡ false
    → id < int64_mod
    → within id i.nsid i.maprange ≡ true
    → shift into e id ≡ none
shift_disjoint e i id re ri we wi k h s w =
    ground (arith, intersects_iff e i re ri, shift_into e id re.0 s)

-- One kind of id, as a test that looks at the kind alone.
module _ (kind : IdmapEntry → Bool)
    (keeps : (e : IdmapEntry) (h n r : Int64)
      → kind (record e { hostid = h; nsid = n; maprange = r }) ≡ kind e)
    (meets : (e i : IdmapEntry) → kind e ≡ true → kind i ≡ true → KindsMeet e i) (i : IdmapEntry)
    (ri : IsRange i) (wi : IsWide i) (ki : kind i ≡ true) (id : Int64) (hid : id < int64_mod) where
  first_shift-lower :
      (e : IdmapEntry) (rest : IdmapSet)
      → IsRange e
      → i.nsid < e.nsid + e.maprange
      → first_shift kind into (keep (lower_part e i) ++ rest) id ≡ (
          if lt id i.nsid
          then first_shift kind into (e ∷ rest) id
          else first_shift kind into rest id)
  unfolding keep lower_part shift shift_into_ns add sub lt le
  first_shift-lower e rest re h = ground (arith, keeps e e.hostid e.nsid (sub i.nsid e.nsid))

  first_shift-upper :
      (e : IdmapEntry) (rest : IdmapSet)
      → IsRange e
      → i.nsid < e.nsid + e.maprange
      → e.nsid < i.nsid + i.maprange
      → first_shift kind into (keep (upper_part e i) ++ rest) id ≡ (
          if lt id (i.nsid + i.maprange)
          then first_shift kind into rest id
          else first_shift kind into (e ∷ rest) id)
  unfolding keep upper_part lower_part shift shift_into_ns add sub lt le
  first_shift-upper e rest re h k = ground (
    arith,
    keeps e (add (add e.hostid (sub i.nsid e.nsid)) i.maprange) (add i.nsid i.maprange)
        (sub (sub e.maprange i.maprange) (sub i.nsid e.nsid)),
  )

  first_shift-pieces :
      (e : IdmapEntry) (rest : IdmapSet)
      → IsRange e
      → i.nsid < e.nsid + e.maprange
      → e.nsid < i.nsid + i.maprange
      → first_shift kind into (pieces e i ++ rest) id ≡ (
          if within id i.nsid i.maprange
          then id - i.nsid + i.hostid
          else first_shift kind into (e ∷ rest) id)
  unfolding pieces lt
  first_shift-pieces e rest re h k =
      rw (append_assoc (keep (lower_part e i)) (i ∷ keep (upper_part e i)) rest) (
        ground (
          arith,
          first_shift-lower e (i ∷ (keep (upper_part e i) ++ rest)) re h,
          first_shift-upper e rest re h k,
          shift_into i id ri.0 hid,
        ))

  first_shift-splice :
      (m rest : IdmapSet)
      → All IsRange m
      → All IsWide m
      → clashes i m ≡ false
      → first_shift kind into (splice i m ++ rest) id ≡ (
          if within id i.nsid i.maprange
          then if touches i m then id - i.nsid + i.hostid else first_shift kind into rest id
          else first_shift kind into (m ++ rest) id)
  first_shift-splice [] rest r w c = ground arith
  first_shift-splice (e ∷ m) rest (r, rs) (w, ws) c = ground (
    arith,
    first_shift-splice m rest rs ws,
    first_shift-pieces e (splice i m ++ rest) r,
    overlap_of_intersects e i r ri,
    meets e i,
    shift_disjoint e i id r ri w wi,
    append_assoc (pieces e i) (splice i m) rest,
    shift_into e id r.0 hid,
  )

  first_shift-append_other :
      (m : IdmapSet)
      → within id i.nsid i.maprange ≡ false
      → first_shift kind into (m ++ i ∷ []) id ≡ first_shift kind into m id
  first_shift-append_other [] w = ground (arith, shift_into i id ri.0 hid)
  first_shift-append_other (e ∷ m) w = ground (arith, first_shift-append_other m w)

  pub first_shift-add_safe :
      (m m' : IdmapSet)
      → All IsRange m
      → All IsWide m
      → add_safe m i ≡ some m'
      → first_shift kind into m' id ≡ (
          if within id i.nsid i.maprange
          then id - i.nsid + i.hostid
          else first_shift kind into m id)
  first_shift-add_safe m m' r w h = ground (
    arith,
    add_safe_lem m i,
    first_shift-splice m [] r w,
    first_shift-splice m (i ∷ []) r w,
    append-nil m,
    shift_into i id ri.0 hid,
    first_shift-append_other m,
  )

-- An entry that maps uids loses, in its pieces around an entry that does not, the uids that lie in
-- the ranges of both: they are mapped before, and to nothing after.
pieces_lose_uids :
    (e i : IdmapEntry) (id : Int64)
    → IsRange e
    → IsRange i
    → e.isuid ≡ true
    → i.isuid ≡ false
    → id < int64_mod
    → within id e.nsid e.maprange ≡ true
    → within id i.nsid i.maprange ≡ true
    → (first_shift (λ d. d.isuid) into (e ∷ []) id ≡ id - e.nsid + e.hostid)
      × (first_shift (λ d. d.isuid) into (pieces e i) id ≡ minus_one)
unfolding pieces keep lower_part upper_part shift shift_into_ns add sub lt le
pieces_lose_uids e i id re ri ke ki s we wi = ground arith
