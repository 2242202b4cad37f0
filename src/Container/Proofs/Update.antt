-- ===== src/Container/Proofs/Update.antt =====
-- What the first part of an update of a container finds, if it passes its checks.
use mercuryc.Base.{
  Bytes, List, Option, none, some, Bool, true, false, not, ◌≡◌, refl, sym, ap, ◌∙◌, subst,
  if◌then◌else◌, >>=-eq-some, some_inj, bytes_eq, string_in_slice,
}
use mercuryc.Base.Dict.{find, unique}
use mercuryc.Device.{Changes, get, update}
use mercuryc.Storage.Proofs.Diff.{config_diff_lem}
use mercuryc.Container.{Daemon}
use mercuryc.Container.Expand.{expand}
use mercuryc.Device.Proofs.Update.{applied, same_device, update_applies}
use mercuryc.Container.Proofs.Expand.{last_value, IsUniqueDb, expand_lem, expand-unique}
use mercuryc.Container.Update.{
  Args, Settings, Source, update_checks, accepts_expanded, changes_of, apply_args, default_args,
  start_update,
}

if-eq-some :
    {A : Type 0} (b : Bool) (m : Option A) {a : A}
    → (if b then m else none) ≡ some a
    → (b ≡ true) × (m ≡ some a)
if-eq-some true m h = (refl, h)
if-eq-some false m h = cc

-- The steps of an update.
start_update_inv :
    (d : Daemon) (source : Source) (user_requested : Bool) (c : Settings) (new : Args)
    (r : Settings × (List Bytes × Changes))
    → start_update d source user_requested c new ≡ some r
    → (s : Settings) × (update_checks d source user_requested c (default_args c new) ≡ true)
      × (apply_args source (default_args c new) ≡ some s)
      × (accepts_expanded d source s ≡ true)
      × ((s, changes_of c s) ≡ r)
unfolding start_update
start_update_inv d source user_requested c new r h =
    let (s, e, f) =
      >>=-eq-some
        (if update_checks d source user_requested c (default_args c new)
          then apply_args source (default_args c new)
          else none)
        (λ new'. if accepts_expanded d source new' then some (new', changes_of c new') else none)
        h in
    let (a, b) =
      if-eq-some (update_checks d source user_requested c (default_args c new))
        (apply_args source (default_args c new)) e in
    let (g, k) = if-eq-some (accepts_expanded d source s) (some (s, changes_of c s)) f in
    (s, a, b, g, some_inj k)

apply_args_inv :
    (source : Source) (args : Args) (s : Settings)
    → apply_args source args ≡ some s
    → (s.args ≡ args)
      × (expand source.profile_config args.profiles args.config ≡ some s.expanded_config)
      × (expand source.profile_devices args.profiles args.devices ≡ some s.expanded_devices)
unfolding apply_args
apply_args_inv source args s h =
    let (config, e, f) = >>=-eq-some (expand source.profile_config args.profiles args.config) _ h in
    let (devices, g, k) =
      >>=-eq-some (expand source.profile_devices args.profiles args.devices) _ f in
    let same = some_inj k in
    (
      sym (ap (λ t. t.args) same),
      e ∙ ap (λ t. some t.expanded_config) same,
      g ∙ ap (λ t. some t.expanded_devices) same,
    )

-- What is asked for under a key: the container's own, or else that of the last profile that has the key.
abbrev pub wanted :
    {V : Type 0}
    → (Bytes → Option (List (Bytes × V)))
    → List Bytes
    → List (Bytes × V)
    → Bytes
    → Option V
wanted db profiles own k = elim (find k own) [ none ↦ last_value db k profiles | some v ↦ some v ]

-- An update that passes its checks expands the new configuration from the profiles and the container's own
-- keys, finds exactly the keys whose expanded value differs, and makes of the old devices, with the changes
-- of Devices.Update, the devices that the profiles and the container ask for, up to empty properties; no map
-- has a key twice.
pub start_update_lem :
    (d : Daemon) (source : Source) (user_requested : Bool) (c : Settings) (new : Args)
    (r : Settings × (List Bytes × Changes)) (k : Bytes)
    → start_update d source user_requested c new ≡ some r
    → IsUniqueDb source.profile_config
    → IsUniqueDb source.profile_devices
    → unique new.config ≡ true
    → unique new.devices ≡ true
    → unique c.expanded_devices ≡ true
    → (find k r.0.expanded_config ≡ wanted source.profile_config new.profiles new.config k)
      × (string_in_slice k r.1.0
          ≡ not (bytes_eq (get k c.expanded_config) (get k r.0.expanded_config)))
      × (same_device
            (applied c.expanded_devices r.1.1 k)
            (wanted source.profile_devices new.profiles new.devices k)
          ≡ true)
unfolding default_args changes_of
start_update_lem d source user_requested c new r k h uc ud nc nd od =
    let (s, a, b, g, e) = start_update_inv d source user_requested c new r h in
    let (x, y, z) = apply_args_inv source (default_args c new) s b in
    let (diff, once, users) = config_diff_lem c.expanded_config s.expanded_config k in
    let config =
      expand_lem source.profile_config new.profiles new.config s.expanded_config k uc nc y in
    let devices =
      expand_lem source.profile_devices new.profiles new.devices s.expanded_devices k ud nd z in
    let made =
      update_applies c.expanded_devices s.expanded_devices k od
        (expand-unique source.profile_devices new.profiles new.devices s.expanded_devices z) in
    subst
      (λ (t : Settings × (List Bytes × Changes)).
        (find k t.0.expanded_config ≡ wanted source.profile_config new.profiles new.config k)
        × (string_in_slice k t.1.0
            ≡ not (bytes_eq (get k c.expanded_config) (get k t.0.expanded_config)))
        × (same_device (applied c.expanded_devices t.1.1 k)
              (wanted source.profile_devices new.profiles new.devices k)
            ≡ true))
      e
      (
        config,
        diff,
        subst
            (λ w.
              same_device
                (applied c.expanded_devices (update c.expanded_devices s.expanded_devices) k) w
              ≡ true)
            devices made,
      )
