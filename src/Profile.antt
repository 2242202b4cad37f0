-- ===== src/Profile.antt =====
-- The change of a profile, apollo/profiles_utils.go doProfileUpdate. The data base, the transaction and the
-- containers' own updates are parameters.
pub mod Proofs
mod Tests
use mercuryc.Base.{
  Bytes, List, [], ◌∷◌, Option, none, some, Bool, true, false, ◌&&◌, ◌||◌, not, if◌then◌else◌,
  codes, bytes_eq, is_empty,
}
use mercuryc.Base.Dict.{has}
use mercuryc.Device.{Device, Devices, get}
use mercuryc.Container.{Daemon, valid_config}
use mercuryc.Container.Devices.{valid_devices, get_root_disk_device}

-- api.ProfilePut, which is also what a profile keeps.
pub record ProfilePut : Type 0 where
  pub description : Bytes
  pub config : List (Bytes × Bytes)
  pub devices : Devices

-- LocalDevices and Profiles of a container.
pub record Container : Type 0 where
  pub local_devices : Devices
  pub profiles : List Bytes

-- The containers that getContainersWithProfile gives; the devices of the profiles in the data base, none for
-- an error; reflect.DeepEqual of the old and the new maps; whether the transaction goes through; and whether
-- the update of a container succeeds.
pub record World : Type 0 where
  pub containers : List Container
  pub profile_devices : Bytes → Option Devices
  pub unchanged : Bool
  pub commits : Bool
  pub updates : Container → Bool

pub data Response : Type 0 where
  done bad_request failure : Response

-- The device and its pool, as the code reads them when containerGetRootDiskDevice fails: empty.
abbrev pub root_pool : Option (Bytes × Device) → Bytes
root_pool none = []
root_pool (some (name, dev)) = get (codes "pool") dev

abbrev pub root_key : Option (Bytes × Device) → Bytes
root_key none = []
root_key (some (name, dev)) = name

-- What the profile p says about the device: nothing, or whether the change may go on.
unfoldable pub look_at : Bytes → Bytes → Bytes → Option Devices → Option Response
look_at key name p none = some failure
look_at key name p (some devices) =
    if has key devices then some (if bytes_eq p name then bad_request else done) else none

-- An answer of the later profiles stands; else the earlier one gives it.
abbrev pub first_answer : Option Response → Option Response → Option Response
first_answer none earlier = earlier
first_answer (some r) earlier = some r

-- The loop over the profiles of a container, from the last to the first.
unfoldable pub profiles_loop :
    (Bytes → Option Devices) → Bytes → Bytes → List Bytes → Option Response
unfolding look_at
profiles_loop db key name [] = none
profiles_loop db key name (p ∷ profiles) =
    first_answer (profiles_loop db key name profiles) (look_at key name p (db p))

-- The answer for one container; `done` lets the loop go on.
unfoldable pub check_container : (Bytes → Option Devices) → Bytes → Bytes → Container → Response
unfolding profiles_loop
check_container db key name c =
    if not (is_empty (root_pool (get_root_disk_device c.local_devices)))
    then done
    else elim (profiles_loop db key name c.profiles) [ none ↦ done | some r ↦ r ]

unfoldable pub check_containers :
    (Bytes → Option Devices) → Bytes → Bytes → List Container → Response
unfolding check_container
check_containers db key name [] = done
check_containers db key name (c ∷ containers) = elim (check_container db key name c) [
  | done ↦ check_containers db key name containers
  | bad_request ↦ bad_request
  | failure ↦ failure
]

-- The check of the root device.
unfoldable pub check_root : World → Bytes → Devices → Devices → Response
unfolding check_containers
check_root w name old new =
    let old_root = get_root_disk_device old in
    let old_pool = root_pool old_root in
    let new_pool = root_pool (get_root_disk_device new) in
    if (not (is_empty w.containers) && not (is_empty old_pool) && is_empty new_pool)
      || not (bytes_eq old_pool new_pool)
    then check_containers w.profile_devices (root_key old_root) name w.containers
    else done

abbrev all_update : World → List Container → Bool
all_update w [] = true
all_update w (c ∷ containers) = w.updates c && all_update w containers

-- The end of doProfileUpdate: the profile as it is stored, and the answer.
unfoldable pub write_profile : World → ProfilePut → ProfilePut → ProfilePut × Response
write_profile w profile req =
    if not w.commits
    then (profile, failure)
    else (req, if w.unchanged || all_update w w.containers then done else failure)

-- doProfileUpdate
unfoldable pub do_profile_update :
    Daemon → World → Bytes → ProfilePut → ProfilePut → ProfilePut × Response
unfolding check_root write_profile
do_profile_update d w name profile req =
    if not (valid_config d (some req.config) true false)
    then (profile, bad_request)
    else if not (valid_devices d (some req.devices) false)
    then (profile, bad_request)
    else elim (check_root w name profile.devices req.devices) [
      | bad_request ↦ (profile, bad_request)
      | failure ↦ (profile, failure)
      | done ↦ write_profile w profile req
    ]
