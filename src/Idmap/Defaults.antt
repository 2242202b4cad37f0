-- ===== src/Idmap/Defaults.antt =====
-- DefaultIdmapSet: the map that a container gets where none is configured.
use mercuryc.Base.{
  ℕ, List, [], ◌∷◌, Option, none, some, Bool, true, false, ◌&&◌, ◌||◌, not, same, ◌==◌, ltb,
  if◌then◌else◌, ◌>>=◌, codes, is_empty,
}
use mercuryc.Base.Word.{add, sub, lt}
use mercuryc.Idmap.{IdRange, IdmapEntry}
use mercuryc.Idmap.Set.{IdmapSet, extend, valid_ranges}
use mercuryc.Idmap.Kernel.{Host, path_exists, get_from_shadow, current_idmap_set}

-- The loop over the entries of a shadow file: the first of 65536 ids at least, mapped to 0.
unfoldable pub add_shadow : Bool → List (ℕ × ℕ) → IdmapSet → IdmapSet
unfolding extend
add_shadow uids [] m = m
add_shadow uids ((start, size) ∷ entries) m =
    let next = add_shadow uids entries m in
    if ltb size 65536
    then next
    else extend m
        (record { isuid = uids; isgid = not uids; hostid = start; nsid = 0; maprange = size })

unfoldable pub hardcoded : IdmapEntry
hardcoded = record { isuid = true; isgid = true; hostid = 1000000; nsid = 0; maprange = 1000000000 }

-- reflect.DeepEqual with the two full ranges of the kernel.
unfoldable pub range_eq : IdRange → IdRange → Bool
range_eq r s =
    same r.isuid s.isuid && (same r.isgid s.isgid && (r.startid == s.startid && r.endid == s.endid))

unfoldable pub is_full : List IdRange → Bool
unfolding range_eq
is_full (r ∷ s ∷ []) =
    range_eq r (record { isuid = true; isgid = false; startid = 0; endid = 4294967294 })
    && range_eq s (record { isuid = false; isgid = true; startid = 0; endid = 4294967294 })
is_full _ = false

-- "Don't use the first 65536 ids": the range is changed in place.
unfoldable pub clip : IdRange → IdRange
clip r = if lt r.startid 100000 then record r { startid = 100000 } else r

-- One of the two loops over the kernel's ranges: the range that it takes, and the ranges as the loop
-- leaves them, since they are shared with the other loop.
unfoldable pub pick : (IdRange → Bool) → List IdRange → Option IdRange × List IdRange
unfolding clip
pick kind [] = (none, [])
pick kind (r ∷ ranges) =
    let (found, rest) = pick kind ranges in
    let s = clip r in
    if not (kind r) || lt r.endid 100000
    then (found, r ∷ rest)
    else if lt (sub s.endid s.startid) 65536
    then (found, s ∷ rest)
    else (some s, s ∷ ranges)

-- The entry that a range gives.
unfoldable pub add_picked : Bool → Option IdRange → IdmapSet → IdmapSet
unfolding extend
add_picked uids none m = m
add_picked uids (some r) m = extend m (record {
  isuid = uids;
  isgid = not uids;
  hostid = r.startid;
  nsid = 0;
  maprange = add (sub r.endid r.startid) 1;
})

-- The uid range is looked for first, then the gid range, in the ranges as they are by then.
unfoldable pub from_ranges : List IdRange → IdmapSet
unfolding pick add_picked
from_ranges ranges =
    let (uid, left) = pick (λ r. r.isuid) ranges in
    let (gid, _) = pick (λ r. r.isgid) left in add_picked false gid (add_picked true uid [])

unfoldable pub from_kernel : Option IdmapSet → IdmapSet
unfolding from_ranges is_full
from_kernel none = extend [] hardcoded
from_kernel (some m) =
    let ranges = valid_ranges m in
    if is_full ranges then extend [] hardcoded else from_ranges ranges

unfoldable pub has_shadow : Host → Bool
has_shadow host =
    not (is_empty host.newuidmap)
    && (not (is_empty host.newgidmap) && (path_exists host.subuid && path_exists host.subgid))

-- `none` is an error in a shadow file.
unfoldable pub default_idmap_set : Host → Option IdmapSet
unfolding add_shadow from_kernel has_shadow
default_idmap_set host =
    if has_shadow host
    then (do
      uids ← get_from_shadow host.subuid (codes "root")
      gids ← get_from_shadow host.subgid (codes "root")
      some (add_shadow false gids (add_shadow true uids [])))
    else some (from_kernel (current_idmap_set host))
