-- ===== src/Device.antt =====
-- apollo/types/devices.go. A device is a map from property names to values, and Devices is a map from
-- device names to devices; a nil device is not told from a missing one.
pub mod Proofs
mod Tests
use mercuryc.Base.{
  ℕ, Bytes, List, [], ◌∷◌, ◌++◌, Option, none, some, Bool, true, false, ◌&&◌, ◌||◌, not, ◌==◌, ltb,
  if◌then◌else◌, ◌≡◌, codes, bytes_eq, map,
}
use mercuryc.Base.Dict.{find, has, delete, put, select}

abbrev pub Device : Type 0
Device = List (Bytes × Bytes)

abbrev pub Devices : Type 0
Devices = List (Bytes × Device)

-- d[key]: the empty text for a missing key.
unfoldable pub get : Bytes → Device → Bytes
unfolding find
get key d = elim (find key d) [ none ↦ [] | some v ↦ v ]

-- One loop of deviceEquals: the keys of `d` have the same values in both.
unfoldable pub agree : Device → Device → Device → Bool
agree [] d old = true
agree ((k, v) ∷ rest) d old = bytes_eq (get k d) (get k old) && agree rest d old

unfoldable pub device_equals : Device → Device → Bool
unfolding agree
device_equals old d = agree d d old && agree old d old

-- Devices.ContainsName
unfoldable pub contains_name : Devices → Bytes → Bool
unfolding find
contains_name list k = has k list

-- Devices.Contains
unfoldable pub contains : Devices → Bytes → Device → Bool
contains list k d = elim (find k list) [ none ↦ false | some old ↦ device_equals old d ]

-- The properties that can change while the container runs.
abbrev pub live_keys : List Bytes
live_keys =
    codes "limits.max"
    ∷ codes "limits.read"
    ∷ codes "limits.write"
    ∷ codes "limits.egress"
    ∷ codes "limits.ingress"
    ∷ codes "ipv4.address"
    ∷ codes "ipv6.address"
    ∷ []

unfoldable pub delete_all : List Bytes → Device → Device
delete_all [] d = d
delete_all (k ∷ ks) d = delete_all ks (delete k d)

-- Two devices differ in live properties alone.
unfoldable pub same_but_live : Device → Device → Bool
same_but_live old new = device_equals (delete_all live_keys old) (delete_all live_keys new)

pub record Changes : Type 0 where
  pub rmlist : Devices
  pub addlist : Devices
  pub updatelist : Devices

abbrev pub or_empty : Option Device → Device
or_empty none = []
or_empty (some d) = d

-- One round of the third loop of Update.
unfoldable pub settle : Devices → Bytes → Device → Changes → Changes
settle newlist key d c =
    if same_but_live (or_empty (find key c.rmlist)) (or_empty (find key newlist))
    then record {
      rmlist = delete key c.rmlist;
      addlist = delete key c.addlist;
      updatelist = put key d c.updatelist;
    }
    else c

-- The third loop of Update, over the devices to add.
unfoldable pub update_loop : Devices → Devices → Changes → Changes
unfolding settle
update_loop newlist [] c = c
update_loop newlist ((key, d) ∷ rest) c = update_loop newlist rest (settle newlist key d c)

-- The first two loops of Update: what the other list does not contain.
unfoldable pub differences : Devices → Devices → Changes
differences old newlist = record {
  rmlist = select (λ key d. not (contains newlist key d)) old;
  addlist = select (λ key d. not (contains old key d)) newlist;
  updatelist = [];
}

-- Devices.Update
unfoldable pub update : Devices → Devices → Changes
unfolding update_loop differences
update old newlist = let c = differences old newlist in update_loop newlist c.addlist c

-- Devices.ExtendFromProfile
unfoldable pub extend_from_profile : Devices → Devices → Devices → Devices
extend_from_profile base current [] = base
extend_from_profile base current ((name, new) ∷ profile) =
    extend_from_profile (put name (elim (find name current) [ none ↦ new | some cur ↦ cur ]) base)
      current profile

-- The order of Go strings.
unfoldable pub bytes_lt : Bytes → Bytes → Bool
bytes_lt s [] = false
bytes_lt [] (b ∷ t) = true
bytes_lt (a ∷ s) (b ∷ t) = ltb a b || (a == b && bytes_lt s t)

-- sortableDevices.Less
unfoldable pub less : Bytes × Device → Bytes × Device → Bool
unfolding get
less (name_a, a) (name_b, b) =
    if bytes_eq (get (codes "type") a) (codes "disk")
      && bytes_eq (get (codes "type") b) (codes "disk")
    then if bytes_eq (get (codes "path") a) (get (codes "path") b)
      then bytes_lt name_a name_b
      else bytes_lt (get (codes "path") a) (get (codes "path") b)
    else bytes_lt name_a name_b

-- sort.Sort by Less: on short slices the package's sort keeps the order of equal elements, as this does.
unfoldable pub insert_sorted : Bytes × Device → Devices → Devices
unfolding less
insert_sorted x [] = x ∷ []
insert_sorted x (y ∷ ys) = if less y x then y ∷ insert_sorted x ys else x ∷ y ∷ ys

unfoldable pub sort : Devices → Devices
unfolding insert_sorted
sort [] = []
sort (x ∷ xs) = insert_sorted x (sort xs)

-- Devices.DeviceNames
unfoldable pub device_names : Devices → List Bytes
unfolding sort
device_names devices = map (λ x. x.0) (sort devices)
