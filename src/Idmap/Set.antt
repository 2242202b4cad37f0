-- ===== src/Idmap/Set.antt =====
-- IdmapSet: a set is the list of its entries.
use mercuryc.Base.{
  Bytes, List, [], ◌∷◌, ◌++◌, Option, none, some, Bool, true, false, ◌&&◌, ◌||◌, not, same, ◌==◌,
  if◌then◌else◌, ◌>>=◌, string_in_slice,
}
use mercuryc.Base.Word.{Int64, add, sub, lt, minus_one}
use mercuryc.Idmap.{
  IdRange, IdmapEntry, to_lxc_string, hostids_intersect, intersects, parse, shift_into_ns,
  shift_from_ns,
}

abbrev pub IdmapSet : Type 0
IdmapSet = List IdmapEntry

-- IdmapSet.Less: entries of uids first, then of gids, then by the first id in the namespace.
unfoldable pub less : IdmapEntry → IdmapEntry → Bool
less a b =
    if not (same a.isuid b.isuid)
    then a.isuid
    else if not (same a.isgid b.isgid)
    then a.isgid
    else lt a.nsid b.nsid

-- sort.Sort by Less: on short slices the package's sort keeps the order of equal elements, as this does.
unfoldable pub insert_sorted : IdmapEntry → IdmapSet → IdmapSet
unfolding less
insert_sorted e [] = e ∷ []
insert_sorted e (x ∷ m) = if less x e then x ∷ insert_sorted e m else e ∷ x ∷ m

unfoldable pub sort : IdmapSet → IdmapSet
unfolding insert_sorted
sort [] = []
sort (e ∷ m) = insert_sorted e (sort m)

-- IdmapSet.Intersects and IdmapSet.HostidsIntersect; `i` is the receiver of the entry's test.
unfoldable pub set_intersects : IdmapSet → IdmapEntry → Bool
set_intersects [] i = false
set_intersects (e ∷ m) i = intersects i e || set_intersects m i

unfoldable pub set_hostids_intersect : IdmapSet → IdmapEntry → Bool
set_hostids_intersect [] i = false
set_hostids_intersect (e ∷ m) i = hostids_intersect i e || set_hostids_intersect m i

-- Extend: the element behind the slice; capacity is not observed.
unfoldable pub extend : IdmapSet → IdmapEntry → IdmapSet
extend slice element = slice ++ element ∷ []

-- IdmapSet.Append; `none` is either of its errors, after which the set is as it was.
unfoldable pub append_entry : IdmapSet → Bytes → Option IdmapSet
unfolding extend
append_entry m s = do e ← parse s; if set_intersects m e then none else some (extend m e)

-- What AddSafe leaves of `e` below and above `i`.
unfoldable pub lower_part : IdmapEntry → IdmapEntry → IdmapEntry
lower_part e i = record e { maprange = sub i.nsid e.nsid }

unfoldable pub upper_part : IdmapEntry → IdmapEntry → IdmapEntry
unfolding lower_part
upper_part e i =
    let lower = lower_part e i in
    record e {
      hostid = add (add e.hostid lower.maprange) i.maprange;
      nsid = add i.nsid i.maprange;
      maprange = sub (sub e.maprange i.maprange) lower.maprange;
    }

-- An entry is kept if its range is positive.
unfoldable pub keep : IdmapEntry → IdmapSet
keep e = if lt 0 e.maprange then e ∷ [] else []

-- What one round of AddSafe's loop appends for an entry that intersects `i`.
unfoldable pub pieces : IdmapEntry → IdmapEntry → IdmapSet
unfolding lower_part upper_part keep
pieces e i = keep (lower_part e i) ++ (i ∷ keep (upper_part e i))

-- The loop of AddSafe, from one `added` and one `result`.
unfoldable pub add_safe_loop : IdmapEntry → IdmapSet → Bool → IdmapSet → Option IdmapSet
unfolding pieces
add_safe_loop i [] added result = some (if added then result else result ++ i ∷ [])
add_safe_loop i (e ∷ m) added result =
    let next = add_safe_loop i m added (result ++ e ∷ []) in
    let split = add_safe_loop i m true (result ++ pieces e i) in
    if not (intersects e i) then next else if hostids_intersect e i then none else split

-- IdmapSet.AddSafe; `none` is its error, after which the set is as it was.
unfoldable pub add_safe : IdmapSet → IdmapEntry → Option IdmapSet
unfolding add_safe_loop
add_safe m i = add_safe_loop i m false []

-- IdmapSet.ToLxcString: each line once, with its newline.
unfoldable pub add_lines : List Bytes → List Bytes → List Bytes
add_lines [] lines = lines
add_lines (l ∷ ls) lines =
    let line = l ++ (b'\n' ∷ []) in
    add_lines ls (if string_in_slice line lines then lines else lines ++ line ∷ [])

unfoldable pub lxc_lines : IdmapSet → List Bytes → List Bytes
unfolding add_lines
lxc_lines [] lines = lines
lxc_lines (e ∷ m) lines = lxc_lines m (add_lines (to_lxc_string e) lines)

unfoldable pub set_to_lxc_string : IdmapSet → List Bytes
unfolding lxc_lines
set_to_lxc_string m = lxc_lines m []

-- The two values of the argument `how`.
pub data Direction : Type 0 where
  into out : Direction

unfoldable pub shift : Direction → IdmapEntry → Int64 → Option Int64
shift into e id = shift_into_ns e id
shift out e id = shift_from_ns e id

-- One id in one round of doShiftIntoNs: -1 is replaced by what the entry maps to, if it applies.
unfoldable pub shift_one : Direction → Bool → IdmapEntry → Int64 → Int64 → Int64
shift_one how applies e id found =
    if applies && found == minus_one
    then elim (shift how e id) [ none ↦ found | some t ↦ t ]
    else found

unfoldable pub shift_loop : Direction → Int64 → Int64 → IdmapSet → Int64 → Int64 → Int64 × Int64
unfolding shift_one
shift_loop how uid gid [] u g = (u, g)
shift_loop how uid gid (e ∷ m) u g =
    shift_loop how uid gid m (shift_one how e.isuid e uid u) (shift_one how e.isgid e gid g)

-- IdmapSet.doShiftIntoNs
unfoldable pub do_shift : Direction → IdmapSet → Int64 → Int64 → Int64 × Int64
unfolding shift_loop
do_shift how m uid gid = shift_loop how uid gid m minus_one minus_one

-- IdmapSet.ShiftIntoNs and IdmapSet.ShiftFromNs
unfoldable pub set_shift_into_ns : IdmapSet → Int64 → Int64 → Int64 × Int64
unfolding do_shift
set_shift_into_ns = do_shift into

unfoldable pub set_shift_from_ns : IdmapSet → Int64 → Int64 → Int64 × Int64
unfolding do_shift
set_shift_from_ns = do_shift out

-- The search for a range that the entry continues, and its growth. `none`: there is no such range.
unfoldable pub grow : IdmapEntry → List IdRange → Option (List IdRange)
grow e [] = none
grow e (r ∷ ranges) =
    if same e.isuid r.isuid && (same e.isgid r.isgid && add r.endid 1 == e.nsid)
    then some (record r { endid = add r.endid e.maprange } ∷ ranges)
    else do rest ← grow e ranges; some (r ∷ rest)

-- The range that an entry opens.
unfoldable pub open_range : IdmapEntry → IdRange
open_range e = record {
  isuid = e.isuid;
  isgid = e.isgid;
  startid = e.nsid;
  endid = sub (add e.nsid e.maprange) 1;
}

unfoldable pub add_range : IdmapEntry → List IdRange → List IdRange
unfolding grow open_range
add_range e ranges = elim (grow e ranges) [ none ↦ ranges ++ open_range e ∷ [] | some r ↦ r ]

unfoldable pub ranges_loop : IdmapSet → List IdRange → List IdRange
unfolding add_range
ranges_loop [] ranges = ranges
ranges_loop (e ∷ m) ranges = ranges_loop m (add_range e ranges)

-- IdmapSet.ValidRanges. DeepCopy of a list of plain records does not fail.
unfoldable pub valid_ranges : IdmapSet → List IdRange
unfolding ranges_loop sort
valid_ranges m = ranges_loop (sort m) []
