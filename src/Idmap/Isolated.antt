-- ===== src/Idmap/Isolated.antt =====
-- The maps of single containers in apollo/container_mercury.go: idmapSize, parseRawIdmap and
-- findIdmap. The data base and the loader of containers are parameters.
use mercuryc.Base.{
  Bytes, List, [], ◌∷◌, Option, none, some, Bool, true, false, ◌||◌, not, ◌==◌, if◌then◌else◌,
  ◌>>=◌, codes, bytes_eq, is_empty, split, length,
}
use mercuryc.Base.Word.{Int64, add, sub, lt}
use mercuryc.Strconv.{parse_int64}
use mercuryc.Config.{is_true}
use mercuryc.Device.{get}
use mercuryc.Idmap.{IdmapEntry}
use mercuryc.Idmap.Set.{IdmapSet, add_safe}

-- What the code reads of the other containers: the names that dbContainersList gives, and the
-- expanded configuration of the container that containerLoadByName gives.
pub record Containers : Type 0 where
  pub list : Option (List Bytes)
  pub load : Bytes → Option (List (Bytes × Bytes))

-- idmapSize
unfoldable pub idmap_size : IdmapSet → Bytes → Bytes → Option Int64
idmap_size daemon isolated size =
    if is_empty size || bytes_eq size (codes "auto")
    then if is_true isolated
      then some 65536
      else (elim daemon [ [] ↦ none | e ∷ m ↦ if length m == 1 then some e.maprange else none ])
    else parse_int64 size

-- getRange of parseRawIdmap: the base and the size of a range.
unfoldable pub range_of_parts : List Bytes → Option (Int64 × Int64)
range_of_parts [] = none
range_of_parts (first ∷ []) = do base ← parse_int64 first; some (base, 1)
range_of_parts (first ∷ last ∷ []) = do
  base ← parse_int64 first
  size ← parse_int64 last
  some (base, add (sub size base) 1)
range_of_parts (first ∷ last ∷ more ∷ rest) = none

unfoldable pub get_range : Bytes → Option (Int64 × Int64)
unfolding range_of_parts
get_range r = range_of_parts (split r b'-')

-- The kinds of ids that a line names.
unfoldable pub raw_kind : Bytes → Option (Bool × Bool)
raw_kind kind =
    if bytes_eq kind (codes "both")
    then some (true, true)
    else if bytes_eq kind (codes "uid")
    then some (true, false)
    else if bytes_eq kind (codes "gid")
    then some (false, true)
    else none

unfoldable pub raw_parts : List Bytes → Option IdmapEntry
unfolding get_range raw_kind
raw_parts (kind ∷ outside ∷ inside ∷ []) = do
  (outside_base, outside_size) ← get_range outside
  (inside_base, inside_size) ← get_range inside
  (isuid, isgid) ← if inside_size == outside_size then raw_kind kind else none
  some (record {
    isuid = isuid;
    isgid = isgid;
    hostid = outside_base;
    nsid = inside_base;
    maprange = inside_size;
  })
raw_parts _ = none

unfoldable pub raw_loop : List Bytes → IdmapSet → Option IdmapSet
unfolding raw_parts
raw_loop [] ret = some ret
raw_loop (line ∷ ls) ret = elim (is_empty line) [
  | true ↦ raw_loop ls ret
  | false ↦ do entry ← raw_parts (split line b' '); ret' ← add_safe ret entry; raw_loop ls ret'
]

-- parseRawIdmap
unfoldable pub parse_raw_idmap : Bytes → Option IdmapSet
unfolding raw_loop
parse_raw_idmap value = raw_loop (split value b'\n') []

-- AddSafe of each entry; an entry that it refuses is left out, since its error is dropped.
unfoldable pub add_raw : List IdmapEntry → IdmapSet → IdmapSet
add_raw [] set = set
add_raw (ent ∷ raw) set = add_raw raw (elim (add_safe set ent) [ none ↦ set | some s ↦ s ])

unfoldable pub base_of : Bytes → Option Int64
base_of text = if is_empty text then some 0 else parse_int64 text

-- The range of one other container: nothing for a privileged one, and for one that is not isolated.
unfoldable pub other_range : IdmapSet → List (Bytes × Bytes) → Option (Option IdmapEntry)
unfolding idmap_size base_of
other_range daemon config =
    if is_true (get (codes "security.privileged") config)
    then some none
    else if not (is_true (get (codes "security.idmap.isolated") config))
    then some none
    else (do
      base ← base_of (get (codes "volatile.idmap.base") config)
      size ←
          idmap_size daemon (get (codes "security.idmap.isolated") config)
            (get (codes "security.idmap.size") config)
      some (
          some (record { isuid = false; isgid = false; hostid = base; nsid = 0; maprange = size })))

-- The loop over the names; a container's own range is not looked at.
unfoldable pub other_ranges : IdmapSet → Containers → Bytes → List Bytes → Option (List IdmapEntry)
unfolding other_range
other_ranges daemon db own [] = some []
other_ranges daemon db own (name ∷ names) =
    let rest = other_ranges daemon db own names in
    if bytes_eq name own then rest else (do
      config ← db.load name
      range ← other_range daemon config
      entries ← rest
      some (elim range [ none ↦ entries | some e ↦ e ∷ entries ]))

-- sort.Sort by ByHostid.Less.
unfoldable pub insert_by_hostid : IdmapEntry → List IdmapEntry → List IdmapEntry
insert_by_hostid c [] = c ∷ []
insert_by_hostid c (x ∷ xs) = if lt c.hostid x.hostid then c ∷ x ∷ xs else x ∷ insert_by_hostid c xs

unfoldable pub sort_by_hostid : List IdmapEntry → List IdmapEntry
unfolding insert_by_hostid
sort_by_hostid [] = []
sort_by_hostid (c ∷ cs) = insert_by_hostid c (sort_by_hostid cs)

-- How the loop over the sorted ranges ends: it returns an offset, or runs out with one.
pub data Gap : Type 0 where
  found past : Int64 → Gap

unfoldable pub end_of : IdmapEntry → Int64
end_of e = add e.hostid e.maprange

-- The rounds behind the first; `prev` is the range of the round before.
unfoldable pub gap_rest : Int64 → Int64 → IdmapEntry → List IdmapEntry → Gap
unfolding end_of
gap_rest size offset prev [] = past offset
gap_rest size offset prev (e ∷ es) =
    let skip = gap_rest size (end_of prev) e es in
    let next = gap_rest size (end_of e) e es in
    if lt offset (end_of prev)
    then skip
    else if lt (add (end_of prev) size) e.hostid
    then found (end_of prev)
    else next

unfoldable pub first_gap : Int64 → Int64 → List IdmapEntry → Gap
unfolding gap_rest
first_gap size offset [] = past offset
first_gap size offset (e ∷ es) =
    let next = gap_rest size (end_of e) e es in
    if lt e.hostid (add offset size) then next else found offset

-- The offset that is returned for the daemon's first entry; `none` is "Not enough uid/gid available".
unfoldable pub find_offset : IdmapEntry → Int64 → List IdmapEntry → Option Int64
unfolding first_gap sort_by_hostid
find_offset e size entries = elim (first_gap size (add e.hostid 65536) (sort_by_hostid entries)) [
  | found offset ↦ some offset
  | past offset ↦ if lt (add offset size) (add e.hostid e.maprange) then some offset else none
]

-- mkIdmap
unfoldable pub make_idmap : List IdmapEntry → Int64 → Int64 → IdmapSet
unfolding add_raw
make_idmap raw offset size = add_raw raw (
    record { isuid = true; isgid = false; hostid = offset; nsid = 0; maprange = size }
    ∷ record { isuid = false; isgid = true; hostid = offset; nsid = 0; maprange = size }
    ∷ [])

unfoldable pub isolated_idmap :
    IdmapSet → Containers → Bytes → Bytes → Bytes → IdmapSet → Option (IdmapSet × Int64)
unfolding other_ranges find_offset make_idmap
isolated_idmap [] db name isolated config_size raw = none
isolated_idmap (e ∷ m) db name isolated config_size raw = do
  names ← db.list
  size ← idmap_size (e ∷ m) isolated config_size
  entries ← other_ranges (e ∷ m) db name names
  offset ← find_offset e size entries
  some (make_idmap raw offset size, offset)

-- findIdmap. `none` is an error, and the panic on a daemon's map that is empty.
unfoldable pub find_idmap :
    IdmapSet → Containers → Bytes → Bytes → Bytes → Bytes → Option (IdmapSet × Int64)
unfolding parse_raw_idmap isolated_idmap add_raw
find_idmap daemon db name isolated config_size raw_idmap = do
  raw ← parse_raw_idmap raw_idmap
  if is_true isolated
      then isolated_idmap daemon db name isolated config_size raw
      else some (add_raw raw daemon, 0)
