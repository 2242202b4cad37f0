-- ===== src/Idmap/Tests.antt =====
-- The theorems on maps of ids at concrete entries, sets and hosts.
use mercuryc.Base.{
  ℕ, Bytes, List, [], ◌∷◌, Option, none, some, Bool, true, false, not, ◌≡◌, ◌≢◌, ◌⊎◌, ◌↔◌, inl, inr,
  refl, codes, arith, All, string_in_slice, distinct, ◌<◌, ◌≤◌, ◌+◌,
}
use mercuryc.Base.Word.{int64_mod, minus_one}
use mercuryc.Idmap.{
  IdmapEntry, intersects, hostids_intersect, parse, shift_into_ns, shift_from_ns, lxc_line,
}
use mercuryc.Idmap.Set.{
  IdmapSet, Direction, into, out, add_safe, append_entry, do_shift, pieces, set_shift_into_ns,
  set_to_lxc_string, valid_ranges,
}
use mercuryc.Idmap.Kernel.{Host, missing, lines, current_idmap_set, set_usable}
use mercuryc.Idmap.Defaults.{default_idmap_set, has_shadow, is_full}
use mercuryc.Idmap.Isolated.{Containers, find_idmap, make_idmap}
use mercuryc.Idmap.Proofs.Hostids.{IsFree}
use mercuryc.Idmap.Proofs.Isolated.{find_idmap-IsFree}
use mercuryc.Idmap.Proofs.Entry.{IsU32, shift_into_ns_lem}
use mercuryc.Idmap.Proofs.Cross.{intersects_single}
use mercuryc.Idmap.Proofs.Parse.{parse-entry_text, parse_sound, entry_text}
use mercuryc.Idmap.Proofs.Shift.{do_shift-opposite}
use mercuryc.Idmap.Proofs.Remaps.{add_safe-shift_uid}
use mercuryc.Idmap.Proofs.Ranges.{valid_ranges_lem, covered, mapped}
use mercuryc.Idmap.Proofs.Defaults.{default_idmap_set-usable}

-- 65536 ids of both kinds from 100000 on, one id within them, and 1000 uids beside them.
abbrev users : IdmapEntry
users = record { isuid = true; isgid = true; hostid = 100000; nsid = 0; maprange = 65536 }

abbrev one : IdmapEntry
one = record { isuid = true; isgid = true; hostid = 1000; nsid = 1000; maprange = 1 }

abbrev guests : IdmapEntry
guests = record { isuid = true; isgid = false; hostid = 5000; nsid = 2000; maprange = 1000 }

abbrev guests_far : IdmapEntry
guests_far = record { isuid = true; isgid = false; hostid = 300000; nsid = 100000; maprange = 1000 }

-- The set of `users` with `guests` in its middle.
abbrev mixed : IdmapSet
mixed =
    record { isuid = true; isgid = true; hostid = 100000; nsid = 0; maprange = 2000 }
    ∷ guests
    ∷ record { isuid = true; isgid = true; hostid = 103000; nsid = 3000; maprange = 62536 }
    ∷ []

users-IsU32 : IsU32 users
users-IsU32 = (omega arith, omega arith, omega arith)

shift_into_ns_example : shift_into_ns users 1000 ≡ some 101000
shift_into_ns_example = shift_into_ns_lem users 1000 users-IsU32 (omega arith)

intersects_single_example : intersects one one ≡ false
intersects_single_example =
    intersects_single one one (omega arith, omega arith, omega arith)
      (omega arith, omega arith, omega arith) refl refl

parse-entry_text_example : parse (entry_text (codes "b") 0 100000 65536) ≡ some users
unfolding mercuryc.Idmap.parse_kind mercuryc.Base.bytes_eq
parse-entry_text_example =
    parse-entry_text (codes "b") (true, true) 0 100000 65536 refl (omega arith) (omega arith)
      (omega arith)

do_shift-opposite_example : do_shift out (users ∷ []) 100007 100008 ≡ (7, 8)
unfolding do_shift mercuryc.Idmap.Set.shift shift_into_ns mercuryc.Base.Word.lt
    mercuryc.Base.Word.le mercuryc.Base.Word.add mercuryc.Base.Word.sub
do_shift-opposite_example =
    do_shift-opposite into (users ∷ []) 7 8 100007 100008 (users-IsU32, tt) (tt, tt) (omega arith)
      (omega arith) (omega arith) (omega arith) refl (omega arith) (omega arith)

add_safe-shift_uid_example : (set_shift_into_ns mixed 2005 7).0 ≡ 5005
unfolding intersects mercuryc.Base.Word.le mercuryc.Base.Word.lt mercuryc.Base.Word.sub
    mercuryc.Base.Word.add hostids_intersect add_safe set_shift_into_ns do_shift
    mercuryc.Idmap.Set.shift shift_into_ns
add_safe-shift_uid_example =
    add_safe-shift_uid (users ∷ []) guests mixed 2005 7 ((users-IsU32, omega arith), tt)
      (omega arith, tt) ((omega arith, omega arith, omega arith), omega arith) (omega arith) refl
      (omega arith) (omega arith) refl

valid_ranges_example :
    covered true true 7 (valid_ranges (users ∷ [])) ≡ mapped true true 7 (users ∷ [])
valid_ranges_example =
    valid_ranges_lem true true 7 (users ∷ []) ((users-IsU32, omega arith), tt) (omega arith)

-- A host without shadow files, in a namespace that maps 1000000 ids.
abbrev nested : Host
nested = record {
  newuidmap = [];
  newgidmap = [];
  subuid = missing;
  subgid = missing;
  uid_map = lines (codes "0 0 1000000" ∷ []);
  gid_map = lines (codes "0 0 1000000" ∷ []);
}

abbrev whole : IdmapEntry
whole = record { isuid = true; isgid = false; hostid = 0; nsid = 0; maprange = 1000000 }

abbrev half : Bool → IdmapEntry
half uids = record { isuid = uids; isgid = not uids; hostid = 100000; nsid = 0; maprange = 900000 }

default_idmap_set-usable_example : set_usable nested (half true ∷ half false ∷ []) ≡ true
unfolding has_shadow current_idmap_set is_full valid_ranges default_idmap_set mercuryc.Base.split
    mercuryc.Strconv.parse_uint mercuryc.Base.Word.le mercuryc.Base.Word.lt mercuryc.Base.Word.sub
    mercuryc.Base.Word.add
default_idmap_set-usable_example =
    default_idmap_set-usable nested (whole ∷ record whole { isuid = false; isgid = true } ∷ [])
      (half true ∷ half false ∷ []) refl refl refl refl

parse_sound_example : IsU32 users × ((users.isuid ≡ true) ⊎ (users.isgid ≡ true))
unfolding parse mercuryc.Base.split mercuryc.Base.bytes_eq mercuryc.Strconv.parse_uint
    mercuryc.Base.Word.lt mercuryc.Base.Word.add
parse_sound_example = parse_sound (codes "b:0:100000:65536") refl

-- A daemon with 1000000 ids, and a second isolated container, without a base or with one.
abbrev pool : IdmapEntry
pool = record { isuid = true; isgid = false; hostid = 100000; nsid = 0; maprange = 1000000 }

abbrev pools : IdmapSet
pools = pool ∷ record pool { isuid = false; isgid = true } ∷ []

abbrev neighbour : List (Bytes × Bytes) → Containers
neighbour base = record {
  list = some (codes "a" ∷ codes "b" ∷ []);
  load = λ name. some ((codes "security.idmap.isolated", codes "true") ∷ base);
}

abbrev taken : IdmapEntry
taken = record { isuid = false; isgid = false; hostid = 165536; nsid = 0; maprange = 65536 }

find_idmap-IsFree_example :
    (165536 ≤ 231072) × (231072 + 65536 ≤ 1100000) × All (IsFree 231072 65536) (taken ∷ [])
unfolding mercuryc.Config.is_true string_in_slice mercuryc.Base.bytes_eq mercuryc.Base.to_lower
    mercuryc.Base.lower_byte mercuryc.Idmap.Isolated.other_ranges mercuryc.Device.get
    mercuryc.Strconv.parse_int64 find_idmap mercuryc.Base.split mercuryc.Base.Word.lt
    mercuryc.Base.Word.add
find_idmap-IsFree_example =
    find_idmap-IsFree pool (record pool { isuid = false; isgid = true } ∷ [])
      (neighbour ((codes "volatile.idmap.base", codes "165536") ∷ [])) (codes "a") (codes "true") []
      [] (codes "a" ∷ codes "b" ∷ []) (taken ∷ []) 65536 (make_idmap [] 231072 65536) 231072 refl
      refl refl refl (omega arith) (omega arith) (omega arith) (omega arith) (omega arith) (tt, tt)
      refl
