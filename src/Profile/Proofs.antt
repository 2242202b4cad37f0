-- ===== src/Profile/Proofs.antt =====
-- What a change of a profile leaves of the containers' root devices.
use mercuryc.Base.{
  Bytes, List, [], ◌∷◌, Option, none, some, Bool, true, false, ◌||◌, ◌≡◌, ◌⊎◌, ◌∙◌, arith, refl, ap,
  sym, if◌then◌else◌, Bool-cases, inl, inr, bytes_eq, bytes_eq→eq, eq→bytes_eq, is_empty,
  >>=-eq-some,
}
use mercuryc.Base.Dict.{find, has, unique}
use mercuryc.Device.{Device, Devices}
use mercuryc.Container.{Daemon}
use mercuryc.Container.Devices.{root_loop, get_root_disk_device}
use mercuryc.Container.Expand.{expand}
use mercuryc.Container.Proofs.Expand.{or_find, last_value, IsUniqueDb, expand_lem}
use mercuryc.Profile.{
  ProfilePut, Container, World, Response, done, bad_request, failure, root_pool, root_key, look_at,
  first_answer, profiles_loop, check_container, check_containers, check_root, do_profile_update,
}

-- The data base after the profile has new devices.
abbrev pub with_devices : Bytes → Devices → (Bytes → Option Devices) → Bytes → Option Devices
with_devices name new db p = if bytes_eq p name then some new else db p

-- The data base gives these devices to the profile p, and the device is found in them.
abbrev found_in : Bytes → Option Devices → Option Device
found_in key none = none
found_in key (some devices) = find key devices

-- What the answer of the loop says of the last value of the device, before and after.
abbrev Answer : Option Response → Option Device → Option Device → Type 0
Answer none before after = (before ≡ none) × (after ≡ none)
Answer (some done) before after = (dev : Device) × (before ≡ some dev) × (after ≡ some dev)
Answer (some bad_request) before after = Unit
Answer (some failure) before after = Unit

look_at-Answer :
    (db : Bytes → Option Devices) (key name p : Bytes) (old new : Devices) (o : Option Devices)
    → db name ≡ some old
    → has key old ≡ true
    → db p ≡ o
    → Answer (look_at key name p o) (found_in key o) (found_in key (with_devices name new db p))
unfolding look_at
look_at-Answer db key name p old new none e k q = tt
look_at-Answer db key name p old new (some devices) e k q =
    by_device (find key devices) refl (bytes_eq p name) refl
  where
    by_device :
        (v : Option Device)
        → find key devices ≡ v
        → (b : Bool) → bytes_eq p name ≡ b
        → Answer
            (look_at key name p (some devices))
            (find key devices)
            (found_in key (with_devices name new db p))
    by_device none f true g = ground (arith, bytes_eq→eq p name g, ap db (bytes_eq→eq p name g))
    by_device none f false g = rw (f, g, q) (refl, f)
    by_device (some v) f true g = rw (f, g) tt
    by_device (some v) f false g = rw (f, g, q) (v, refl, f)

first_answer-Answer :
    (r l : Option Response) (b a b' a' : Option Device)
    → Answer r b a
    → Answer l b' a'
    → Answer (first_answer r l) (or_find b b') (or_find a a')
first_answer-Answer none l b a b' a' (e, f) h = rw (e, f) h
first_answer-Answer (some done) l b a b' a' (dev, e, f) h = (dev, rw e refl, rw f refl)
first_answer-Answer (some bad_request) l b a b' a' g h = tt
first_answer-Answer (some failure) l b a b' a' g h = tt

profiles_loop-Answer :
    (db : Bytes → Option Devices) (key name : Bytes) (old new : Devices) (profiles : List Bytes)
    → db name ≡ some old
    → has key old ≡ true
    → Answer
        (profiles_loop db key name profiles)
        (last_value db key profiles)
        (last_value (with_devices name new db) key profiles)
unfolding profiles_loop
profiles_loop-Answer db key name old new [] e k = (refl, refl)
profiles_loop-Answer db key name old new (p ∷ profiles) e k =
    first_answer-Answer (profiles_loop db key name profiles) (look_at key name p (db p))
      (last_value db key profiles) (last_value (with_devices name new db) key profiles)
      (found_in key (db p)) (found_in key (with_devices name new db p))
      (profiles_loop-Answer db key name old new profiles e k)
      (look_at-Answer db key name p old new (db p) e k refl)

-- What an accepted answer means.
Answer-accepted :
    (r : Option Response) (b a : Option Device)
    → Answer r b a
    → elim r as (λ _. Response) [ none ↦ done | some r ↦ r ] ≡ done
    → b ≡ a
Answer-accepted none b a (e, f) h = ground arith
Answer-accepted (some done) b a (dev, e, f) h = ground arith
Answer-accepted (some bad_request) b a g h = cc
Answer-accepted (some failure) b a g h = cc

-- The device of an accepted container, without a root device of its own.
check_container-last_value :
    (db : Bytes → Option Devices) (key name : Bytes) (old new : Devices) (c : Container)
    → db name ≡ some old
    → has key old ≡ true
    → is_empty (root_pool (get_root_disk_device c.local_devices)) ≡ true
    → check_container db key name c ≡ done
    → last_value db key c.profiles ≡ last_value (with_devices name new db) key c.profiles
unfolding check_container
check_container-last_value db key name old new c e k l h =
    Answer-accepted (profiles_loop db key name c.profiles) _ _
      (profiles_loop-Answer db key name old new c.profiles e k) (rw l at h)

-- Does the container stand in the list?
abbrev pub AnyIs : Container → List Container → Type 0
AnyIs c [] = ⊥
AnyIs c (x ∷ containers) = (c ≡ x) ⊎ AnyIs c containers

check_containers-each :
    (db : Bytes → Option Devices) (key name : Bytes) (containers : List Container) (c : Container)
    → check_containers db key name containers ≡ done
    → AnyIs c containers
    → check_container db key name c ≡ done
unfolding check_containers
check_containers-each db key name [] c h m = elim m [ ]
check_containers-each db key name (x ∷ containers) c h (inl e) = rw e (ground arith)
check_containers-each db key name (x ∷ containers) c h (inr m) =
    check_containers-each db key name containers c (ground arith) m

-- The root device that containerGetRootDiskDevice gives is found under its name.
root_loop-find :
    (devices : Devices) (n key : Bytes) (d dev : Device)
    → root_loop devices n d ≡ some (key, dev)
    → (has key devices || bytes_eq n key) ≡ true
unfolding root_loop find
root_loop-find [] n key d dev h = ground (arith, eq→bytes_eq n key)
root_loop-find ((m, x) ∷ devices) n key d dev h = ground (
  arith,
  root_loop-find devices m key x dev,
  root_loop-find devices n key d dev,
  bytes_eq→eq m key,
  eq→bytes_eq m key,
)

abbrev pair : Bytes → Device → Option (Bytes × Device)
pair n d = some (n, d)

named_root :
    (n key : Bytes) (d dev : Device)
    → (if is_empty n then none else pair n d) ≡ pair key dev
    → (pair n d ≡ pair key dev) × (is_empty key ≡ false)
named_root [] key d dev h = ground arith
named_root (x ∷ n) key d dev h = (h, ground arith)

get_root_disk_device-find :
    (devices : Devices) (key : Bytes) (dev : Device)
    → get_root_disk_device devices ≡ some (key, dev)
    → has key devices ≡ true
unfolding get_root_disk_device
get_root_disk_device-find devices key dev h =
    let (r, e, f) =
      >>=-eq-some (root_loop devices [] []) (λ (n, d). if is_empty n then none else some (n, d))
        h in
    let (q, nonempty) = named_root r.0 key r.1 dev f in
    ground (arith, root_loop-find devices [] key [] dev (e ∙ q), bytes_eq→eq [] key)

-- The container's own device, else that of the profiles.
abbrev own_or : Option Device → Option Device → Option Device
own_or o last = elim o [ none ↦ last | some v ↦ some v ]

-- Other profiles keep their maps.
with_devices-IsUniqueDb :
    (name : Bytes) (new : Devices) (db : Bytes → Option Devices)
    → unique new ≡ true
    → IsUniqueDb db
    → IsUniqueDb (with_devices name new db)
with_devices-IsUniqueDb name new db u h p m e = elim (Bool-cases (bytes_eq p name)) [
  | inl t ↦ ground arith
  | inr t ↦ h p m (ground arith)
]

-- A change that goes through passed the check of the root device.
do_profile_update-check_root :
    (d : Daemon) (w : World) (name : Bytes) (profile req : ProfilePut)
    → (do_profile_update d w name profile req).1 ≡ done
    → check_root w name profile.devices req.devices ≡ done
unfolding do_profile_update
do_profile_update-check_root d w name profile req h = ground arith

check_root-containers :
    (w : World) (name key : Bytes) (dev : Device) (old new : Devices)
    → get_root_disk_device old ≡ some (key, dev)
    → bytes_eq (root_pool (get_root_disk_device old)) (root_pool (get_root_disk_device new)) ≡ false
    → check_root w name old new ≡ done
    → check_containers w.profile_devices key name w.containers ≡ done
unfolding check_root
check_root-containers w name key dev old new r b h =
    ap (λ k. check_containers w.profile_devices k name w.containers) (sym (ap root_key r))
    ∙ ground arith

-- A change of a profile that goes through and moves its root device to another pool, or takes it away, leaves
-- the root device of each of its containers that has none with a pool of its own: the device of that name in
-- the expanded devices is the same before and after. The conditions are that no map has a key twice and that
-- the expansions succeed.
pub do_profile_update-root :
    (d : Daemon) (w : World) (name key : Bytes) (dev : Device) (profile req : ProfilePut)
    (c : Container) (before after : Devices)
    → IsUniqueDb w.profile_devices
    → unique c.local_devices ≡ true
    → unique req.devices ≡ true
    → w.profile_devices name ≡ some profile.devices
    → get_root_disk_device profile.devices ≡ some (key, dev)
    → bytes_eq
        (root_pool (get_root_disk_device profile.devices))
        (root_pool (get_root_disk_device req.devices))
      ≡ false
    → AnyIs c w.containers
    → is_empty (root_pool (get_root_disk_device c.local_devices)) ≡ true
    → expand w.profile_devices c.profiles c.local_devices ≡ some before
    → expand (with_devices name req.devices w.profile_devices) c.profiles c.local_devices
      ≡ some after
    → (do_profile_update d w name profile req).1 ≡ done
    → find key before ≡ find key after
do_profile_update-root d w name key dev profile req c before after u v n e r b m l x y h =
    let db = w.profile_devices in
    let db' = with_devices name req.devices db in
    let passed =
      check_root-containers w name key dev profile.devices req.devices r b
        (do_profile_update-check_root d w name profile req h) in
    let same =
      check_container-last_value db key name profile.devices req.devices c e
        (get_root_disk_device-find profile.devices key dev r) l
        (check_containers-each db key name w.containers c passed m) in
    expand_lem db c.profiles c.local_devices before key u v x
    ∙ ap (λ o. own_or (find key c.local_devices) o) same
    ∙ sym (
        expand_lem db' c.profiles c.local_devices after key
          (with_devices-IsUniqueDb name req.devices db n u) v y)
