-- ===== src/Container/Proofs/Expand.antt =====
-- What the profiles leave of a container's settings, and that a free interface name is found.
use mercuryc.Base.{
  ℕ, zero, suc, ◌+◌, ◌<◌, ◌≤◌, Bytes, List, [], ◌∷◌, Option, none, some, true, false, ◌≡◌, arith,
  refl, sym, ap, ◌∙◌, ◌⊎◌, inl, inr, Bool-cases, if◌then◌else◌, bytes_eq, bytes_eq→eq,
  string_in_slice, length, some_inj, >>=-eq-some,
}
use mercuryc.Base.Dict.{find, put, unique, find-put, put-unique}
use mercuryc.Strconv.{format_uint, parse_uint}
use mercuryc.Strconv.Laws.{parse_uint-format_uint}
use mercuryc.Device.{Device}
use mercuryc.Container.Expand.{
  overlay, profiles_loop, expand, eth, free_name, taken_names, next_interface_name,
}

module _ {V : Type 0} where
  abbrev pub or_find : Option V → Option V → Option V
  or_find none b = b
  or_find (some v) b = some v

  find-overlay :
      (k : Bytes) (top config : List (Bytes × V))
      → unique top ≡ true
      → find k (overlay top config) ≡ or_find (find k top) (find k config)
  unfolding find overlay
  find-overlay k [] config u = refl
  find-overlay k ((j, v) ∷ top) config u =
      ground (arith, find-overlay k top (put j v config), find-put j k v config, bytes_eq→eq j k)

  -- The value that the last of the profiles gives that has the key; none where a profile is missing.
  abbrev pub last_value : (Bytes → Option (List (Bytes × V))) → Bytes → List Bytes → Option V
  last_value db k [] = none
  last_value db k (name ∷ profiles) =
      or_find (last_value db k profiles)
        (elim (db name) [ none ↦ none | some profile ↦ find k profile ])

  -- The data base gives no map with a key twice.
  abbrev pub IsUniqueDb : (Bytes → Option (List (Bytes × V))) → Type 0
  IsUniqueDb db = (name : Bytes) (m : List (Bytes × V)) → db name ≡ some m → unique m ≡ true

  profiles_loop_inv :
      (db : Bytes → Option (List (Bytes × V))) (name : Bytes) (profiles : List Bytes)
      (config c : List (Bytes × V)) (r : Option (List (Bytes × V)))
      → db name ≡ r
      → profiles_loop db (name ∷ profiles) config ≡ some c
      → (profile : List (Bytes × V)) × (db name ≡ some profile)
        × (profiles_loop db profiles (overlay profile config) ≡ some c)
  unfolding profiles_loop
  profiles_loop_inv db name profiles config c none e h = ground arith
  profiles_loop_inv db name profiles config c (some profile) e h = (profile, e, ground arith)

  profiles_loop_lem :
      (db : Bytes → Option (List (Bytes × V))) (k : Bytes) (profiles : List Bytes)
      (config c : List (Bytes × V))
      → IsUniqueDb db
      → profiles_loop db profiles config ≡ some c
      → find k c ≡ or_find (last_value db k profiles) (find k config)
  unfolding profiles_loop
  profiles_loop_lem db k [] config c u h = ground arith
  profiles_loop_lem db k (name ∷ profiles) config c u h =
      let (profile, e, f) = profiles_loop_inv db name profiles config c (db name) refl h in
      ground (
        arith,
        profiles_loop_lem db k profiles (overlay profile config) c u f,
        find-overlay k profile config (u name profile e),
      )

  -- A key of the expanded settings has the container's own value, or else the value of the last profile that
  -- has the key; this is what expandConfig and expandDevices give whenever every profile is found.
  pub expand_lem :
      (db : Bytes → Option (List (Bytes × V))) (profiles : List Bytes) (own c : List (Bytes × V))
      (k : Bytes)
      → IsUniqueDb db
      → unique own ≡ true
      → expand db profiles own ≡ some c
      → find k c ≡ elim (find k own) [ none ↦ last_value db k profiles | some v ↦ some v ]
  unfolding expand find
  expand_lem db profiles own c k u v h =
      let (config, e, f) =
        >>=-eq-some (profiles_loop db profiles []) (λ config. some (overlay own config)) h in
      ground (arith, profiles_loop_lem db k profiles [] config u e, find-overlay k own config v)

  overlay-unique :
      (top config : List (Bytes × V)) → unique config ≡ true → unique (overlay top config) ≡ true
  unfolding overlay
  overlay-unique [] config u = u
  overlay-unique ((k, v) ∷ top) config u =
      overlay-unique top (put k v config) (put-unique k v config u)

  profiles_loop-unique :
      (db : Bytes → Option (List (Bytes × V))) (profiles : List Bytes) (config c : List (Bytes × V))
      → unique config ≡ true
      → profiles_loop db profiles config ≡ some c
      → unique c ≡ true
  unfolding profiles_loop
  profiles_loop-unique db [] config c u h = ground arith
  profiles_loop-unique db (name ∷ profiles) config c u h =
      let (profile, e, f) = profiles_loop_inv db name profiles config c (db name) refl h in
      profiles_loop-unique db profiles (overlay profile config) c (overlay-unique profile config u)
        f

  pub expand-unique :
      (db : Bytes → Option (List (Bytes × V))) (profiles : List Bytes) (own c : List (Bytes × V))
      → expand db profiles own ≡ some c
      → unique c ≡ true
  unfolding expand
  expand-unique db profiles own c h =
      let (config, e, f) =
        >>=-eq-some (profiles_loop db profiles []) (λ config. some (overlay own config)) h in
      ground (arith, overlay-unique own config (profiles_loop-unique db profiles [] config refl e))

-- A list without the first place of a text.
abbrev without : Bytes → List Bytes → List Bytes
without x [] = []
without x (y ∷ ys) = if bytes_eq y x then ys else y ∷ without x ys

length-without :
    (x : Bytes) (ys : List Bytes)
    → string_in_slice x ys ≡ true
    → suc (length (without x ys)) ≡ length ys
unfolding string_in_slice
length-without x [] h = cc
length-without x (y ∷ ys) h = ground (arith, length-without x ys)

member-without :
    (x z : Bytes) (ys : List Bytes)
    → bytes_eq x z ≡ false
    → string_in_slice z ys ≡ true
    → string_in_slice z (without x ys) ≡ true
unfolding string_in_slice
member-without x z [] n h = cc
member-without x z (y ∷ ys) n h = ground (arith, member-without x z ys, bytes_eq→eq y x)

eth-injective : (i j : ℕ) → bytes_eq (eth i) (eth j) ≡ true → i ≡ j
unfolding bytes_eq
eth-injective i j h =
    let same = bytes_eq→eq (format_uint i) (format_uint j) (ground arith) in
    some_inj (
      sym (parse_uint-format_uint (suc (i + j)) i (omega arith))
      ∙ (ap (parse_uint (suc (i + j))) same ∙ parse_uint-format_uint (suc (i + j)) j (omega arith)))

-- Names that are all taken are no more than the taken names.
taken_bound :
    (n i : ℕ) (names : List Bytes)
    → ((k : ℕ) → i ≤ k → k < i + n → string_in_slice (eth k) names ≡ true)
    → n ≤ length names
taken_bound zero i names h = omega arith
taken_bound (suc n) i names h =
    let first = h i (omega arith) (omega arith) in
    let rest = taken_bound n (suc i) (without (eth i) names) (λ k l m.
      member-without (eth i) (eth k) names (ground (arith, eth-injective i k))
        (h k (omega arith) (omega arith))) in
    omega (arith, length-without (eth i) names first)

-- How the search ends: at the first free name, or with the fuel, when all names were taken.
abbrev Searches : ℕ → ℕ → List Bytes → Type 0
Searches fuel i names =
    ((k : ℕ) × (free_name fuel i names ≡ some (eth k))
      × (i ≤ k)
      × (string_in_slice (eth k) names ≡ false)
      × ((j : ℕ) → i ≤ j → j < k → string_in_slice (eth j) names ≡ true))
    ⊎ ((j : ℕ) → i ≤ j → j < i + fuel → string_in_slice (eth j) names ≡ true)

free_name-Searches : (fuel i : ℕ) (names : List Bytes) → Searches fuel i names
unfolding free_name
free_name-Searches zero i names = inr (λ j l m. ground arith)
free_name-Searches (suc fuel) i names = elim (Bool-cases (string_in_slice (eth i) names)) [
  | inr f ↦ inl (i, ground arith, omega arith, f, λ j l m. ground arith)
  | inl t ↦ elim (free_name-Searches fuel (suc i) names) [
    | inl (k, e, l, f, g) ↦ inl (k, ground arith, omega arith, f, λ j a b. from_next t g j a b)
    | inr g ↦ inr (λ j a b. from_next t g j a (omega arith))
  ]
]
  where
    from_next :
        {n : ℕ}
        → string_in_slice (eth i) names ≡ true
        → ((j : ℕ) → suc i ≤ j → j < n → string_in_slice (eth j) names ≡ true)
        → (j : ℕ) → i ≤ j
        → j < n
        → string_in_slice (eth j) names ≡ true
    from_next t g j a b = ground (arith, g j)

-- The loop that looks for a free interface name ends: it gives the first of eth0, eth1, ... that is not taken,
-- after at most as many rounds as there are taken names, and one.
pub next_interface_name_lem :
    (devices : List (Bytes × Device)) (config : List (Bytes × Bytes)) (interfaces : List Bytes)
    → (k : ℕ) × (next_interface_name devices config interfaces ≡ some (eth k))
      × (k ≤ length (taken_names devices config interfaces))
      × (string_in_slice (eth k) (taken_names devices config interfaces) ≡ false)
      × ((j : ℕ) → j < k → string_in_slice (eth j) (taken_names devices config interfaces) ≡ true)
unfolding next_interface_name
next_interface_name_lem devices config interfaces =
    let names = taken_names devices config interfaces in
    elim (free_name-Searches (suc (length names)) 0 names) [
      | inl (k, e, l, f, g) ↦ (
        k,
        e,
        taken_bound k 0 names (λ j a b. g j a (omega arith)),
        f,
        λ j b. g j (omega arith) b,
      )
      | inr g ↦ elim (below_itself (length names) (taken_bound (suc (length names)) 0 names g)) [ ]
    ]
  where
    below_itself : (n : ℕ) → suc n ≤ n → ⊥
    below_itself n h = omega arith
