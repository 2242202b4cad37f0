-- ===== src/Device/Proofs/Update.antt =====
-- What Update tells apart.
use mercuryc.Base.{
  Bytes, [], ◌∷◌, Option, none, some, Bool, true, false, arith, refl, not, if◌then◌else◌, ◌≡◌,
  bytes_eq, bytes_eq→eq, bytes_eq_refl, Bool-cases, inl, inr, subst, ◌∙◌,
}
use mercuryc.Base.Dict.{find, find-delete, find-put, find-select, select-unique, unique, is_some}
use mercuryc.Device.{
  Device, Devices, device_equals, contains, same_but_live, Changes, or_empty, update_loop, settle,
  differences, update,
}
use mercuryc.Device.Proofs.Equality.{device_equals_sym, device_equals_iff}

contains_sym :
    (old new : Devices) (k : Bytes) (a b : Device)
    → find k old ≡ some a
    → find k new ≡ some b
    → contains new k a ≡ contains old k b
unfolding contains
contains_sym old new k a b p q = ground (arith, device_equals_sym a b)

-- Two results that agree at one name.
abbrev AgreeAt : Bytes → Changes → Changes → Type 0
AgreeAt k a b =
    (find k a.rmlist ≡ find k b.rmlist)
    × (find k a.addlist ≡ find k b.addlist)
    × (find k a.updatelist ≡ find k b.updatelist)

abbrev settle_found : Devices → Bytes → Option Device → Changes → Changes
settle_found newlist k none c = c
settle_found newlist k (some d) c = settle newlist k d c

settle_other :
    (newlist : Devices) (j k : Bytes) (d : Device) (c : Changes)
    → bytes_eq j k ≡ false
    → AgreeAt k (settle newlist j d c) c
unfolding settle
settle_other newlist j k d c h =
    ground (arith, find-delete j k c.rmlist, find-delete j k c.addlist, find-put j k d c.updatelist)

settle_same :
    (newlist : Devices) (k : Bytes) (o : Option Device) (c c' : Changes)
    → AgreeAt k c c'
    → AgreeAt k (settle_found newlist k o c) (settle_found newlist k o c')
unfolding settle
settle_same newlist k none c c' a = a
settle_same newlist k (some d) c c' a = ground (
  arith,
  find-delete k k c.rmlist,
  find-delete k k c.addlist,
  find-put k k d c.updatelist,
  find-delete k k c'.rmlist,
  find-delete k k c'.addlist,
  find-put k k d c'.updatelist,
  bytes_eq_refl k,
)

AgreeAt-trans : (k : Bytes) (a b c : Changes) → AgreeAt k a b → AgreeAt k b c → AgreeAt k a c
AgreeAt-trans k a b c (p, q, r) (s, t, u) = (p ∙ s, q ∙ t, r ∙ u)

first_key :
    (newlist rest : Devices) (j k : Bytes) (d : Device) (c : Changes)
    → bytes_eq j k ≡ true
    → AgreeAt j
        (update_loop newlist rest (settle newlist j d c))
        (settle_found newlist j (find j rest) (settle newlist j d c))
    → find j rest ≡ none
    → AgreeAt k (update_loop newlist rest (settle newlist j d c)) (settle newlist k d c)
first_key newlist rest j k d c e a absent =
    subst (λ x. AgreeAt x (update_loop newlist rest (settle newlist j d c)) (settle newlist x d c))
      (bytes_eq→eq j k e) (rw absent at a)

update_loop-settle :
    (newlist rest : Devices) (k : Bytes) (c : Changes)
    → unique rest ≡ true
    → AgreeAt k (update_loop newlist rest c) (settle_found newlist k (find k rest) c)
unfolding update_loop find
update_loop-settle newlist [] k c u = (refl, refl, refl)
update_loop-settle newlist ((j, d) ∷ rest) k c u = elim (Bool-cases (bytes_eq j k)) [
  | inl e ↦ rw e (
      first_key newlist rest j k d c e
        (update_loop-settle newlist rest j (settle newlist j d c) (ground arith)) (ground arith))
  | inr e ↦ rw e (
      AgreeAt-trans k _ _ _
        (update_loop-settle newlist rest k (settle newlist j d c) (ground arith))
        (settle_same newlist k (find k rest) (settle newlist j d c) c
          (settle_other newlist j k d c e)))
]

-- What Update says of one name, by what the old and the new list have under it: the device to
-- remove, the device to add, and the device to update.
abbrev pub classify : Option Device → Option Device → Option Device × Option Device × Option Device
classify none none = (none, none, none)
classify (some a) none = (some a, none, none)
classify none (some b) = if same_but_live [] b then (none, none, some b) else (none, some b, none)
classify (some a) (some b) =
    if device_equals a b
    then (none, none, none)
    else if same_but_live a b
    then (none, none, some b)
    else (some a, some b, none)

settle_at :
    (newlist : Devices) (k : Bytes) (d : Device) (c : Changes)
    → (find k (settle newlist k d c).rmlist ≡ (
        if same_but_live (or_empty (find k c.rmlist)) (or_empty (find k newlist))
        then none
        else find k c.rmlist))
      × (find k (settle newlist k d c).addlist ≡ (
          if same_but_live (or_empty (find k c.rmlist)) (or_empty (find k newlist))
          then none
          else find k c.addlist))
      × (find k (settle newlist k d c).updatelist ≡ (
          if same_but_live (or_empty (find k c.rmlist)) (or_empty (find k newlist))
          then some d
          else find k c.updatelist))
unfolding settle
settle_at newlist k d c = ground (
  arith,
  find-delete k k c.rmlist,
  find-delete k k c.addlist,
  find-put k k d c.updatelist,
  bytes_eq_refl k,
)

-- The three lists at one name.
abbrev At : Bytes → Changes → Option Device × Option Device × Option Device → Type 0
At k c r = (find k c.rmlist ≡ r.0) × (find k c.addlist ≡ r.1) × (find k c.updatelist ≡ r.2)

differences-At :
    (old newlist : Devices) (k : Bytes)
    → unique old ≡ true
    → unique newlist ≡ true
    → At k (differences old newlist) (
      elim (find k old) [
        | none ↦ none
        | some a ↦ if not (contains newlist k a) then some a else none
      ],
      elim (find k newlist) [
        | none ↦ none
        | some b ↦ if not (contains old k b) then some b else none
      ],
      none,
    )
unfolding differences find
differences-At old newlist k uo un = (
  find-select (λ key d. not (contains newlist key d)) k old uo,
  find-select (λ key d. not (contains old key d)) k newlist un,
  refl,
)

settle-classify :
    (old newlist : Devices) (k : Bytes) (o n : Option Device) (c : Changes)
    → find k old ≡ o
    → find k newlist ≡ n
    → At k c (
      elim o [ none ↦ none | some a ↦ if not (contains newlist k a) then some a else none ],
      elim n [ none ↦ none | some b ↦ if not (contains old k b) then some b else none ],
      none,
    )
    → At k (settle_found newlist k (find k c.addlist) c) (classify o n)
unfolding contains
settle-classify old newlist k none none c p q h = ground arith
settle-classify old newlist k (some a) none c p q h = ground arith
settle-classify old newlist k none (some b) c p q h = ground (arith, settle_at newlist k b c)
settle-classify old newlist k (some a) (some b) c p q h =
    ground (arith, settle_at newlist k b c, device_equals_sym a b)

differences-unique :
    (old newlist : Devices)
    → unique newlist ≡ true
    → unique (differences old newlist).addlist ≡ true
unfolding differences
differences-unique old newlist u = select-unique (λ key d. not (contains old key d)) newlist u

-- For two lists of devices with no name twice, Update puts each name, by what the two lists have
-- under it, into the lists to remove, to add and to update exactly as `classify` says, in whatever
-- order the maps are walked.
pub update_lem :
    (old newlist : Devices) (k : Bytes)
    → unique old ≡ true
    → unique newlist ≡ true
    → (find k (update old newlist).rmlist ≡ (classify (find k old) (find k newlist)).0)
      × (find k (update old newlist).addlist ≡ (classify (find k old) (find k newlist)).1)
      × (find k (update old newlist).updatelist ≡ (classify (find k old) (find k newlist)).2)
unfolding update differences
update_lem old newlist k uo un =
    let c = differences old newlist in
    let (p, q, r) = update_loop-settle newlist c.addlist k c (differences-unique old newlist un) in
    let (x, y, z) =
      settle-classify old newlist k (find k old) (find k newlist) c refl refl
        (differences-At old newlist k uo un) in
    (p ∙ x, q ∙ y, r ∙ z)

-- What is left of the old list under a name when the changes are made.
abbrev pub applied : Devices → Changes → Bytes → Option Device
applied old c k = elim (find k c.updatelist) [
  | some d ↦ some d
  | none ↦ elim (find k c.addlist) [
    | some d ↦ some d
    | none ↦ if is_some (find k c.rmlist) then none else find k old
  ]
]

-- The same device, or none on both sides.
abbrev pub same_device : Option Device → Option Device → Bool
same_device none none = true
same_device (some a) (some b) = device_equals a b
same_device _ _ = false

device_equals_refl : (a : Device) → device_equals a a ≡ true
device_equals_refl a = (device_equals_iff a a).1 (λ k. refl)

-- For two lists of devices with no name twice, the old list with the changes of Update made is the
-- new list, under every name and up to empty properties.
pub update_applies :
    (old newlist : Devices) (k : Bytes)
    → unique old ≡ true
    → unique newlist ≡ true
    → same_device (applied old (update old newlist) k) (find k newlist) ≡ true
update_applies old newlist k uo un = by_values (find k old) (find k newlist) refl refl
  where
    by_values :
        (o n : Option Device)
        → find k old ≡ o
        → find k newlist ≡ n
        → same_device (applied old (update old newlist) k) (find k newlist) ≡ true
    by_values none none p q = ground (arith, update_lem old newlist k uo un)
    by_values (some a) none p q = ground (arith, update_lem old newlist k uo un)
    by_values none (some b) p q =
        ground (arith, update_lem old newlist k uo un, device_equals_refl b)
    by_values (some a) (some b) p q =
        ground (arith, update_lem old newlist k uo un, device_equals_refl b)
