-- ===== src/Device/Proofs/Order.antt =====
-- The order of DeviceNames, and the devices that a profile adds.
use mercuryc.Base.{
  Bytes, [], ◌∷◌, none, some, true, false, arith, refl, ◌≡◌, codes, bytes_eq, bytes_eq→eq,
  eq→bytes_eq,
}
use mercuryc.Base.Dict.{find, put, find-put, unique}
use mercuryc.Device.{Device, Devices, get, extend_from_profile, bytes_lt, less}

-- Where a profile has no name twice: under each of its names the base list gets the device that the
-- container has under it, and the profile's own if it has none; the other names stay.
find-extend_from_profile :
    (base current profile : Devices) (k : Bytes)
    → unique profile ≡ true
    → find k (extend_from_profile base current profile) ≡ elim (find k profile) [
      | none ↦ find k base
      | some new ↦ some (elim (find k current) [ none ↦ new | some cur ↦ cur ])
    ]
unfolding extend_from_profile find
find-extend_from_profile base current [] k u = refl
find-extend_from_profile base current ((j, new) ∷ profile) k u = ground (
  arith,
  find-extend_from_profile (put j (elim (find j current) [ none ↦ new | some cur ↦ cur ]) base)
      current profile k,
  find-put j k (elim (find j current) [ none ↦ new | some cur ↦ cur ]) base,
  bytes_eq→eq j k,
)

bytes_lt_irrefl : (s : Bytes) → bytes_lt s s ≡ false
unfolding bytes_lt
bytes_lt_irrefl [] = refl
bytes_lt_irrefl (c ∷ s) = ground (arith, bytes_lt_irrefl s)

-- Less is no order: a disk, a device that is no disk and a second disk, with names that rise in this
-- order and with the second disk's path before the first's, form a cycle.
less_cycle :
    (x y z : Bytes) (a b c : Device)
    → get (codes "type") a ≡ codes "disk"
    → bytes_eq (get (codes "type") b) (codes "disk") ≡ false
    → get (codes "type") c ≡ codes "disk"
    → bytes_lt x y ≡ true
    → bytes_lt y z ≡ true
    → bytes_lt (get (codes "path") c) (get (codes "path") a) ≡ true
    → (less (x, a) (y, b) ≡ true) × (less (y, b) (z, c) ≡ true) × (less (z, c) (x, a) ≡ true)
unfolding less
less_cycle x y z a b c ta tb tc xy yz p = ground (
  arith,
  eq→bytes_eq (get (codes "type") a) (codes "disk") ta,
  eq→bytes_eq (get (codes "type") c) (codes "disk") tc,
  bytes_eq→eq (get (codes "path") c) (get (codes "path") a),
  bytes_lt_irrefl (get (codes "path") a),
)
