-- ===== src/Idmap/Proofs/AddSafe.antt =====
-- AddSafe: when it fails, and which entries it leaves.
use mercuryc.Base.{
  none, some, ◌≡◌, true, false, arith, [], ◌∷◌, ◌++◌, Bool, ◌||◌, ◌&&◌, if◌then◌else◌, append_assoc,
  append-nil,
}
use mercuryc.Idmap.{IdmapEntry, intersects, hostids_intersect}
use mercuryc.Idmap.Set.{IdmapSet, pieces, add_safe_loop, add_safe}
use mercuryc.Idmap.Proofs.Shift.{}

-- Some entry that intersects `i` has a host range that meets that of `i`.
abbrev pub clashes : IdmapEntry → IdmapSet → Bool
clashes i [] = false
clashes i (e ∷ m) = (intersects e i && hostids_intersect e i) || clashes i m

abbrev pub touches : IdmapEntry → IdmapSet → Bool
touches i [] = false
touches i (e ∷ m) = intersects e i || touches i m

-- Every entry that intersects `i` is replaced by its pieces.
abbrev pub splice : IdmapEntry → IdmapSet → IdmapSet
splice i [] = []
splice i (e ∷ m) = (if intersects e i then pieces e i else e ∷ []) ++ splice i m

abbrev pub spliced : IdmapEntry → IdmapSet → Bool → IdmapSet
spliced i m added = splice i m ++ (if added || touches i m then [] else i ∷ [])

add_safe_loop_lem :
    (i : IdmapEntry) (m : IdmapSet) (added : Bool) (result : IdmapSet)
    → add_safe_loop i m added result
      ≡ (if clashes i m then none else some (result ++ spliced i m added))
unfolding add_safe_loop
add_safe_loop_lem i [] added result = ground (arith, append-nil result)
add_safe_loop_lem i (e ∷ m) added result = ground (
  arith,
  add_safe_loop_lem i m added (result ++ e ∷ []),
  add_safe_loop_lem i m true (result ++ pieces e i),
  append_assoc result (e ∷ []) (spliced i m added),
  append_assoc result (pieces e i) (spliced i m true),
  append_assoc (pieces e i) (splice i m) [],
)

-- AddSafe fails exactly when an entry that intersects `i` has a host range that meets that of `i`;
-- else every such entry is replaced by its pieces around `i`, and `i` is added behind the entries
-- if there is none.
pub add_safe_lem :
    (m : IdmapSet) (i : IdmapEntry)
    → add_safe m i
      ≡ (if clashes i m then none else some (splice i m ++ (if touches i m then [] else i ∷ [])))
unfolding add_safe
add_safe_lem m i = add_safe_loop_lem i m false []
