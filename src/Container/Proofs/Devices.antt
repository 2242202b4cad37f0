-- ===== src/Container/Proofs/Devices.antt =====
-- Which maps of devices the validation accepts.
use mercuryc.Base.{
  Bytes, List, [], ◌∷◌, ◌++◌, Option, none, some, Bool, true, false, ◌&&◌, not, if◌then◌else◌, ◌≡◌,
  codes, is_empty, string_in_slice, arith, refl, bytes_eq_sym, string_in_slice-append, distinct,
}
use mercuryc.Base.Dict.{is_some}
use mercuryc.Device.{Device, Devices, get}
use mercuryc.Container.{Daemon}
use mercuryc.Container.Devices.{
  is_root_disk_device, root_loop, get_root_disk_device, valid_device, is_disk, devices_loop,
  valid_devices,
}

-- The root disks among the devices.
abbrev pub root_disks : Devices → Devices
root_disks [] = []
root_disks ((n, d) ∷ devices) =
    let rest = root_disks devices in if is_root_disk_device d then (n, d) ∷ rest else rest

-- The one element of a list of one.
abbrev pub only {ℓ} : {A : Type ℓ} → List A → Option A
only (x ∷ []) = some x
only _ = none

abbrev pub named : Devices → Bool
named [] = true
named ((n, d) ∷ devices) = not (is_empty n) && named devices

root_loop_found :
    (devices : Devices) (n : Bytes) (d : Device)
    → is_empty n ≡ false
    → root_loop devices n d ≡ only ((n, d) ∷ root_disks devices)
unfolding root_loop
root_loop_found [] n d h = refl
root_loop_found ((m, e) ∷ devices) n d h = ground (arith, root_loop_found devices n d h)

-- Where every device has a name, the root disk device is found exactly when one device alone is a
-- root disk, and is that one; so the order in which the map is walked does not matter.
pub get_root_disk_device_lem :
    (devices : Devices)
    → named devices ≡ true
    → get_root_disk_device devices ≡ only (root_disks devices)
unfolding get_root_disk_device root_loop
get_root_disk_device_lem [] h = refl
get_root_disk_device_lem ((n, d) ∷ devices) h =
    ground (arith, get_root_disk_device_lem devices, root_loop_found devices n d)

-- Every device passes its own checks.
abbrev pub all_valid : Daemon → Devices → Bool
all_valid d [] = true
all_valid d ((n, m) ∷ devices) = valid_device d m && all_valid d devices

-- The paths of the disks.
abbrev pub disk_paths : Devices → List Bytes
disk_paths [] = []
disk_paths ((n, m) ∷ devices) =
    let rest = disk_paths devices in if is_disk m then get (codes "path") m ∷ rest else rest

-- No text stands in both lists.
abbrev disjoint : List Bytes → List Bytes → Bool
disjoint [] ys = true
disjoint (x ∷ xs) ys = not (string_in_slice x ys) && disjoint xs ys

disjoint-append :
    (xs ys : List Bytes) (p : Bytes)
    → disjoint xs (ys ++ p ∷ []) ≡ disjoint xs ys && not (string_in_slice p xs)
unfolding string_in_slice
disjoint-append [] ys p = refl
disjoint-append (x ∷ xs) ys p =
    ground (arith, disjoint-append xs ys p, string_in_slice-append x ys p, bytes_eq_sym p x)

disjoint-nil : (xs : List Bytes) → disjoint xs [] ≡ true
unfolding string_in_slice
disjoint-nil [] = refl
disjoint-nil (x ∷ xs) = ground (arith, disjoint-nil xs)

devices_loop_lem :
    (d : Daemon) (paths : List Bytes) (devices : Devices)
    → devices_loop d false paths devices
      ≡ all_valid d devices
        && (distinct (disk_paths devices) && disjoint (disk_paths devices) paths)
unfolding devices_loop
devices_loop_lem d paths [] = refl
devices_loop_lem d paths ((n, m) ∷ devices) =
    let path = get (codes "path") m in
    ground (
      arith,
      devices_loop_lem d paths devices,
      devices_loop_lem d (paths ++ path ∷ []) devices,
      disjoint-append (disk_paths devices) paths path,
    )

devices_loop_expanded :
    (d : Daemon) (paths : List Bytes) (devices : Devices)
    → devices_loop d true paths devices ≡ all_valid d devices
unfolding devices_loop
devices_loop_expanded d paths [] = refl
devices_loop_expanded d paths ((n, m) ∷ devices) =
    ground (arith, devices_loop_expanded d paths devices)

-- Where every device has a name, a map of devices is accepted exactly when each device passes its
-- own checks and, on an expanded configuration, one device alone is a root disk, or, on another one,
-- no two disks have the same path; so the order in which the map is walked does not matter.
pub valid_devices_lem :
    (d : Daemon) (devices : Devices) (expanded : Bool)
    → named devices ≡ true
    → valid_devices d (some devices) expanded
      ≡ all_valid d devices
        && (if expanded then is_some (only (root_disks devices)) else distinct (disk_paths devices))
unfolding valid_devices
valid_devices_lem d devices true h =
    ground (arith, devices_loop_expanded d [] devices, get_root_disk_device_lem devices h)
valid_devices_lem d devices false h =
    ground (arith, devices_loop_lem d [] devices, disjoint-nil (disk_paths devices))
