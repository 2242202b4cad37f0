-- ===== src/Idmap.antt =====
-- The uid and gid maps of shared/idmapset_linux.go: this file has the types IdRange and IdmapEntry
-- and the methods of an entry; the children have the sets of entries and the proofs.
pub mod Set
pub mod Kernel
pub mod Defaults
pub mod Isolated
pub mod Proofs
mod Tests
use mercuryc.Base.{
  ℕ, ◌+◌, ◌-◌, ◌*◌, ◌^◌, Bytes, List, [], ◌∷◌, ◌++◌, Option, none, some, Bool, true, false, ◌&&◌,
  ◌||◌, not, ◌==◌, if◌then◌else◌, ◌>>=◌, ◌≡◌, refl, codes, split, bytes_eq,
}
use mercuryc.Base.Word.{Int64, add, sub, lt, le}
use mercuryc.Strconv.{parse_uint32, format_int64}

pub record IdRange : Type 0 where
  pub isuid : Bool
  pub isgid : Bool
  pub startid : Int64
  pub endid : Int64

-- IdRange.Contains
unfoldable pub contains : IdRange → Int64 → Bool
contains i id = le i.startid id && le id i.endid

pub record IdmapEntry : Type 0 where
  pub isuid : Bool
  pub isgid : Bool
  pub hostid : Int64
  pub nsid : Int64
  pub maprange : Int64

-- One line of ToLxcString: fmt.Sprintf("u %d %d %d", e.Nsid, e.Hostid, e.Maprange)
unfoldable pub lxc_line : ℕ → IdmapEntry → Bytes
lxc_line kind e =
    kind
    ∷ b' '
    ∷ (format_int64 e.nsid ++ (b' ' ∷ (format_int64 e.hostid ++ (b' ' ∷ format_int64 e.maprange))))

unfoldable pub to_lxc_string : IdmapEntry → List Bytes
unfolding lxc_line
to_lxc_string e =
    if e.isuid && e.isgid
    then lxc_line b'u' e ∷ lxc_line b'g' e ∷ []
    else if e.isuid
    then lxc_line b'u' e ∷ []
    else lxc_line b'g' e ∷ []

unfoldable pub is_between : Int64 → Int64 → Int64 → Bool
is_between x low high = le low x && lt x high

-- The guard of both intersection tests.
unfoldable pub shares_kind : IdmapEntry → IdmapEntry → Bool
shares_kind e i = e.isuid && i.isuid || e.isgid && i.isgid

unfoldable pub hostids_intersect : IdmapEntry → IdmapEntry → Bool
unfolding shares_kind is_between
hostids_intersect e i =
    if shares_kind e i
    then is_between e.hostid i.hostid (add i.hostid i.maprange)
      || (is_between i.hostid e.hostid (add e.hostid e.maprange)
          || (is_between (add e.hostid e.maprange) i.hostid (add i.hostid i.maprange)
              || is_between (add i.hostid i.maprange) e.hostid (add e.hostid e.maprange)))
    else false

-- The last id of a range: i.Hostid+i.Maprange-1.
abbrev pub last : Int64 → Int64 → Int64
last start range = sub (add start range) 1

-- The four cases of Intersects over one pair of ranges.
unfoldable pub ranges_cross : Int64 → Int64 → Int64 → Int64 → Bool
unfolding is_between
ranges_cross a m b n =
    is_between a b (last b n)
    || (is_between b a (last a m)
        || (is_between (last a m) b (last b n) || is_between (last b n) a (last a m)))

unfoldable pub intersects : IdmapEntry → IdmapEntry → Bool
unfolding shares_kind ranges_cross
intersects e i =
    if shares_kind e i
    then ranges_cross e.hostid e.maprange i.hostid i.maprange
      || ranges_cross e.nsid e.maprange i.nsid i.maprange
    else false

-- The switch on the type letter: Isuid and Isgid.
unfoldable pub parse_kind : Bytes → Option (Bool × Bool)
parse_kind s =
    if bytes_eq s (codes "u")
    then some (true, false)
    else if bytes_eq s (codes "g")
    then some (false, true)
    else if bytes_eq s (codes "b")
    then some (true, true)
    else none

unfoldable pub check_wraparound : IdmapEntry → Option IdmapEntry
check_wraparound e =
    if lt (add e.hostid e.maprange) e.hostid || lt (add e.nsid e.maprange) e.nsid
    then none
    else some e

-- The numbers of an entry and the wraparound check.
unfoldable pub parse_numbers : Bool × Bool → Bytes → Bytes → Bytes → Option IdmapEntry
unfolding check_wraparound
parse_numbers (isuid, isgid) ns host range = do
  nsid ← parse_uint32 ns
  hostid ← parse_uint32 host
  maprange ← parse_uint32 range
  check_wraparound
      (record { isuid = isuid; isgid = isgid; hostid = hostid; nsid = nsid; maprange = maprange })

unfoldable pub parse_parts : List Bytes → Option IdmapEntry
unfolding parse_kind parse_numbers
parse_parts (kind ∷ ns ∷ host ∷ range ∷ []) = do k ← parse_kind kind; parse_numbers k ns host range
parse_parts _ = none

-- IdmapEntry.parse, on the zero entry that Append hands it.
unfoldable pub parse : Bytes → Option IdmapEntry
unfolding parse_parts
parse s = parse_parts (split s b':')

unfoldable pub shift_into_ns : IdmapEntry → Int64 → Option Int64
shift_into_ns e id =
    if lt id e.nsid || le (add e.nsid e.maprange) id
    then none
    else some (add (sub id e.nsid) e.hostid)

unfoldable pub shift_from_ns : IdmapEntry → Int64 → Option Int64
shift_from_ns e id =
    if lt id e.hostid || le (add e.hostid e.maprange) id
    then none
    else some (add (sub id e.hostid) e.nsid)
