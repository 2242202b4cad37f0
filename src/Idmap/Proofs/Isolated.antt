-- ===== src/Idmap/Proofs/Isolated.antt =====
-- Where findIdmap puts the range of an isolated container.
use mercuryc.Base.{
  ℕ, ◌+◌, ◌^◌, ◌<◌, ◌≤◌, Bytes, List, [], ◌∷◌, none, some, true, false, ◌≡◌, inl, inr, arith, All,
  Bool-cases, ltb, ltb→lt, some_inj, if◌then◌else◌,
}
use mercuryc.Base.Word.{add, lt}
use mercuryc.Config.{is_true}
use mercuryc.Idmap.{IdmapEntry}
use mercuryc.Idmap.Set.{IdmapSet}
use mercuryc.Idmap.Isolated.{
  Containers, idmap_size, parse_raw_idmap, other_ranges, insert_by_hostid, sort_by_hostid, Gap,
  found, past, end_of, gap_rest, first_gap, find_offset, make_idmap, isolated_idmap, find_idmap,
}
use mercuryc.Idmap.Proofs.Hostids.{
  EndsBy, IsApart, IsFree, IsChain, All-sort_by_hostid, sort_by_hostid-All, sort_by_hostid-IsChain,
}

-- What the loop is to give behind a range that ends at `start`.
abbrev IsGap : ℕ → ℕ → ℕ → List IdmapEntry → Gap → Type 0
IsGap limit size start es (found o) = (start ≤ o) × (o + size ≤ limit) × All (IsFree o size) es
IsGap limit size start es (past o) =
    (start ≤ o) × (o ≤ limit) × All (λ e. e.hostid + e.maprange ≤ o) es

IsGap-cons :
    (limit size start : ℕ) (e : IdmapEntry) (es : List IdmapEntry) (g : Gap)
    → start ≤ e.hostid + e.maprange
    → IsGap limit size (e.hostid + e.maprange) es g
    → IsGap limit size start (e ∷ es) g
IsGap-cons limit size start e es (found o) h (a, b, c) = (omega arith, b, (inl a, c))
IsGap-cons limit size start e es (past o) h (a, b, c) = (omega arith, b, (a, c))

All-IsFree :
    (o size : ℕ) (e : IdmapEntry) (es : List IdmapEntry)
    → o + size ≤ e.hostid + e.maprange
    → All (λ x. e.hostid + e.maprange ≤ x.hostid) es
    → All (IsFree o size) es
All-IsFree o size e [] h a = tt
All-IsFree o size e (x ∷ es) h (p, a) = (inr (omega arith), All-IsFree o size e es h a)

end_of_small :
    (limit : ℕ) (e : IdmapEntry)
    → limit < 2 ^ 40
    → EndsBy limit e
    → end_of e ≡ e.hostid + e.maprange
unfolding end_of add
end_of_small limit e l h = omega arith

lt_of_small : (a b : ℕ) → a < 2 ^ 42 → b < 2 ^ 42 → lt a b ≡ ltb a b
unfolding lt
lt_of_small a b h k = ground arith

add_of_small : (a b : ℕ) → a < 2 ^ 41 → b < 2 ^ 41 → add a b ≡ a + b
unfolding add
add_of_small a b h k = omega arith

ltb_irrefl : (a : ℕ) → ltb a a ≡ false
ltb_irrefl a = ground arith

gap_rest-IsGap :
    (limit size : ℕ) (prev : IdmapEntry) (es : List IdmapEntry)
    → limit < 2 ^ 40
    → size < 2 ^ 40
    → EndsBy limit prev
    → All (EndsBy limit) es
    → IsChain (prev ∷ es)
    → IsGap limit size
        (prev.hostid + prev.maprange)
        es
        (gap_rest size (prev.hostid + prev.maprange) prev es)
unfolding gap_rest
gap_rest-IsGap limit size prev [] l k p h c = (omega arith, omega arith, tt)
gap_rest-IsGap limit size prev (e ∷ es) l k p (q, h) ((a, b), (c, d)) =
    let stop = prev.hostid + prev.maprange in
    rw
      (
        end_of_small limit prev l p,
        end_of_small limit e l q,
        lt_of_small stop stop (omega arith) (omega arith),
        add_of_small stop size (omega arith) (omega arith),
        lt_of_small (stop + size) e.hostid (omega arith) (omega arith),
      )
      (elim (Bool-cases (ltb (stop + size) e.hostid)) [
        | inl t ↦
            let t' = ltb→lt (stop + size) e.hostid t in
            rw (ltb_irrefl stop, t)
              (
                omega arith,
                omega arith,
                (inr (omega arith), All-IsFree stop size e es (omega arith) c),
              )
        | inr f ↦
            rw (ltb_irrefl stop, f)
              (IsGap-cons limit size stop e es (gap_rest size (e.hostid + e.maprange) e es)
                (omega arith) (gap_rest-IsGap limit size e es l k q h (c, d)))
      ])

first_gap-IsGap :
    (limit size start : ℕ) (es : List IdmapEntry)
    → limit < 2 ^ 40
    → size < 2 ^ 40
    → start ≤ limit
    → All (EndsBy limit) es
    → All (λ e. start ≤ e.hostid) es
    → IsChain es
    → IsGap limit size start es (first_gap size start es)
unfolding first_gap
first_gap-IsGap limit size start [] l k s h a c = (omega arith, omega arith, tt)
first_gap-IsGap limit size start (e ∷ es) l k s (p, h) (b, a) (c, d) =
    rw
      (
        end_of_small limit e l p,
        add_of_small start size (omega arith) (omega arith),
        lt_of_small e.hostid (start + size) (omega arith) (omega arith),
      )
      (elim (Bool-cases (ltb e.hostid (start + size))) [
        | inl t ↦ rw t (
            IsGap-cons limit size start e es (gap_rest size (e.hostid + e.maprange) e es)
              (omega arith) (gap_rest-IsGap limit size e es l k p h (c, d)))
        | inr f ↦
            let g : start + size ≤ e.hostid = ground arith in
            rw f (omega arith, omega arith, (inr g, All-IsFree start size e es (omega arith) c))
      ])

All-IsFree_of_past :
    (o size : ℕ) (es : List IdmapEntry)
    → All (λ e. e.hostid + e.maprange ≤ o) es
    → All (IsFree o size) es
All-IsFree_of_past o size [] h = tt
All-IsFree_of_past o size (e ∷ es) (p, h) = (inl p, All-IsFree_of_past o size es h)

-- The end of findIdmap, at what the loop gave.
offset_of_gap :
    (e : IdmapEntry) (size : ℕ) (es entries : List IdmapEntry) (o : ℕ) (g : Gap)
    → e.hostid + e.maprange < 2 ^ 40
    → size < 2 ^ 40
    → IsGap (e.hostid + e.maprange) size (e.hostid + 65536) es g
    → elim g [
      | found offset ↦ some offset
      | past offset ↦ if lt (add offset size) (add e.hostid e.maprange) then some offset else none
    ]
      ≡ some o
    → (e.hostid + 65536 ≤ o) × (o + size ≤ e.hostid + e.maprange) × All (IsFree o size) es
offset_of_gap e size es entries o (found x) l k (a, b, c) f = rw (← (some_inj f)) (a, b, c)
offset_of_gap e size es entries o (past x) l k (a, b, c) f =
    let f' : (if ltb (x + size) (e.hostid + e.maprange) then some x else none) ≡ some o =
      rw
        (
          add_of_small x size (omega arith) (omega arith),
          add_of_small e.hostid e.maprange (omega arith) (omega arith),
          lt_of_small (x + size) (e.hostid + e.maprange) (omega arith) (omega arith),
        )
        at f in
    let (w, q) : (x ≡ o) × (x + size < e.hostid + e.maprange) = (ground arith, ground arith) in
    rw (← w) (a, omega arith, All-IsFree_of_past x size es c)

find_offset-IsFree :
    (e : IdmapEntry) (size : ℕ) (entries : List IdmapEntry) (o : ℕ)
    → e.hostid + e.maprange < 2 ^ 40
    → 65536 ≤ e.maprange
    → size < 2 ^ 40
    → All (EndsBy (e.hostid + e.maprange)) entries
    → All (λ x. e.hostid + 65536 ≤ x.hostid) entries
    → IsApart entries
    → find_offset e size entries ≡ some o
    → (e.hostid + 65536 ≤ o) × (o + size ≤ e.hostid + e.maprange) × All (IsFree o size) entries
unfolding find_offset
find_offset-IsFree e size entries o l m k h a c f =
    let limit = e.hostid + e.maprange in
    let es = sort_by_hostid entries in
    let gap : IsGap limit size (e.hostid + 65536) es (first_gap size (add e.hostid 65536) es) =
      rw (add_of_small e.hostid 65536 (omega arith) (omega arith)) (
        first_gap-IsGap limit size (e.hostid + 65536) es l k (omega arith)
          (All-sort_by_hostid (EndsBy limit) entries h)
          (All-sort_by_hostid (λ x. e.hostid + 65536 ≤ x.hostid) entries a)
          (sort_by_hostid-IsChain limit entries l h c)) in
    let (x, y, z) =
      offset_of_gap e size es entries o (first_gap size (add e.hostid 65536) es) l k gap f in
    (x, y, sort_by_hostid-All (IsFree o size) entries z)

-- Where the other isolated containers have ranges that are not empty, apart from each other, behind
-- the first 65536 ids of the daemon's range and within it, that range has at least 65536 ids and ends
-- below 2 ^ 40, and the size is below 2 ^ 40: the base that findIdmap gives an isolated container puts its
-- ids behind the same 65536 ids, within the daemon's range, and apart from all the others.
pub find_idmap-IsFree :
    (e : IdmapEntry) (m : IdmapSet) (db : Containers) (name isolated config_size raw_idmap : Bytes)
    (names : List Bytes) (entries : List IdmapEntry) (size : ℕ) (set : IdmapSet) (base : ℕ)
    → is_true isolated ≡ true
    → db.list ≡ some names
    → other_ranges (e ∷ m) db name names ≡ some entries
    → idmap_size (e ∷ m) isolated config_size ≡ some size
    → e.hostid + e.maprange < 2 ^ 40
    → 65536 ≤ e.maprange
    → size < 2 ^ 40
    → All (EndsBy (e.hostid + e.maprange)) entries
    → All (λ x. e.hostid + 65536 ≤ x.hostid) entries
    → IsApart entries
    → find_idmap (e ∷ m) db name isolated config_size raw_idmap ≡ some (set, base)
    → (e.hostid + 65536 ≤ base)
      × (base + size ≤ e.hostid + e.maprange)
      × All (IsFree base size) entries
unfolding find_idmap isolated_idmap
find_idmap-IsFree e m db name isolated config_size raw_idmap names entries size set base i n r s l k
      z h a c f =
    find_offset-IsFree e size entries base l k z h a c (ground arith)

-- One other isolated container that has no base yet counts as one at 0: where its size is below the
-- daemon's first id and the new container ends below the last, findIdmap starts the new range right behind
-- that size, below every id of the daemon's range.
pub find_idmap_below :
    (e : IdmapEntry) (m : IdmapSet) (db : Containers) (name isolated config_size raw_idmap : Bytes)
    (names : List Bytes) (other : IdmapEntry) (size : ℕ) (raw : IdmapSet)
    → is_true isolated ≡ true
    → db.list ≡ some names
    → other_ranges (e ∷ m) db name names ≡ some (other ∷ [])
    → idmap_size (e ∷ m) isolated config_size ≡ some size
    → parse_raw_idmap raw_idmap ≡ some raw
    → e.hostid + e.maprange < 2 ^ 40
    → size < 2 ^ 40
    → other.hostid ≡ 0
    → other.maprange < e.hostid
    → other.maprange + size < e.hostid + e.maprange
    → (find_idmap (e ∷ m) db name isolated config_size raw_idmap
        ≡ some (make_idmap raw other.maprange size, other.maprange))
unfolding find_idmap isolated_idmap find_offset sort_by_hostid insert_by_hostid first_gap gap_rest
    end_of lt add
find_idmap_below e m db name isolated config_size raw_idmap names other size raw i n r s p l k z h
      q =
    ground arith
