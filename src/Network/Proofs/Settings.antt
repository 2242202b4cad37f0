-- ===== src/Network/Proofs/Settings.antt =====
-- Which configurations of a network are accepted, and what networkFillAuto leaves.
use mercuryc.Base.{
  ℕ, ◌<◌, ◌≤◌, Bytes, List, [], ◌∷◌, ◌++◌, Option, none, some, Bool, true, false, ◌&&◌, ◌||◌, ◌≡◌,
  ◌↔◌, ◌⊎◌, inl, inr, codes, has_prefix, arith, refl, bytes_eq→eq, is_empty, ltb, length, bytes_eq,
  if◌then◌else◌, string_in_slice, split, Bool-cases, length-append, >>=-eq-some, bytes_eq_sym,
}
use mercuryc.Base.Dict.{find, find-put, has}
use mercuryc.Base.Word.{int64_mod, int64_sign, lt}
use mercuryc.Strconv.{parse_int64}
use mercuryc.Config.Proofs.{parse_int64-lt}
use mercuryc.Device.{get}
use mercuryc.Network.{Net, valid_port}
use mercuryc.Network.Config.{
  Config, is_fan, is_set, valid_entry, valid_mtu, valid_mode, entries_loop, validate_config,
  get_tunnels, tunnels_loop, second_part, table_key, Subnets, fill_key, fill_auto,
}

entries_loop_sound :
    (net : Net) (name : Bytes) (config rest : Config) (k v : Bytes)
    → entries_loop net name config rest ≡ true
    → find k rest ≡ some v
    → valid_entry net name config k v ≡ true
unfolding entries_loop find
entries_loop_sound net name config [] k v h f = cc
entries_loop_sound net name config ((j, w) ∷ rest) k v h f =
    ground (arith, entries_loop_sound net name config rest k v, bytes_eq→eq j k)

-- The loop of networkGetTunnels drops no target.
tunnels_loop-length :
    (config : Config) (tunnels : List Bytes) → length tunnels ≤ length (tunnels_loop config tunnels)
unfolding tunnels_loop
tunnels_loop-length [] tunnels = omega arith
tunnels_loop-length ((k, v) ∷ config) tunnels = ground (
  arith,
  tunnels_loop-length config tunnels,
  tunnels_loop-length config (tunnels ++ second_part (split k b'.') ∷ []),
  length-append tunnels (second_part (split k b'.') ∷ []),
)

-- With a tunnel's key there is a target.
tunnels_loop-has :
    (k : Bytes) (config : Config) (tunnels : List Bytes)
    → has_prefix k (codes "tunnel.") ≡ true
    → has k config ≡ true
    → 0 < length (tunnels_loop config tunnels)
unfolding tunnels_loop find string_in_slice
tunnels_loop-has k [] tunnels p h = cc
tunnels_loop-has k ((j, v) ∷ config) [] p h = ground (
  arith,
  tunnels_loop-has k config [] p,
  tunnels_loop-length config (second_part (split j b'.') ∷ []),
  bytes_eq→eq j k,
)
tunnels_loop-has k ((j, v) ∷ config) (t ∷ tunnels) p h =
    omega (arith, tunnels_loop-length ((j, v) ∷ config) (t ∷ tunnels))

get_tunnels-has :
    (k : Bytes) (config : Config)
    → has_prefix k (codes "tunnel.") ≡ true
    → has k config ≡ true
    → ltb 0 (length (get_tunnels config)) ≡ true
unfolding get_tunnels
get_tunnels-has k config p h = ground (arith, tunnels_loop-has k config [] p h)

-- What is demanded of the MTU.
abbrev pub IsMtu : Config → ℕ → Type 0
IsMtu config mtu =
    (is_set (get (codes "ipv6.address") config) ≡ true → (1280 ≤ mtu) × (mtu < int64_sign))
    × (is_set (get (codes "ipv4.address") config) ≡ true → (68 ≤ mtu) × (mtu < int64_sign))
    × (is_fan config ≡ true → lt 1480 mtu ≡ false)
    × (is_fan config ≡ true
        → bytes_eq (get (codes "fan.type") config) (codes "ipip") ≡ false
        → lt 1450 mtu ≡ false)
    × ((k : Bytes)
        → has_prefix k (codes "tunnel.") ≡ true
        → has k config ≡ true
        → lt 1400 mtu ≡ false)

valid_mtu-IsMtu :
    (config : Config) (mtu : ℕ) → mtu < int64_mod → valid_mtu config mtu ≡ true → IsMtu config mtu
unfolding valid_mtu lt
valid_mtu-IsMtu config mtu l h = (
  λ a. ground arith,
  λ a. ground arith,
  λ a. ground arith,
  λ a b. ground arith,
  λ k a b. ground (arith, get_tunnels-has k config a b),
)

valid_entry-mtu :
    (net : Net) (name : Bytes) (config : Config) (v : Bytes)
    → valid_entry net name config (codes "bridge.mtu") v ≡ true
    → is_empty v ≡ false
    → elim (parse_int64 v) [ none ↦ false | some mtu ↦ valid_mtu config mtu ] ≡ true
unfolding valid_entry table_key find has_prefix bytes_eq
valid_entry-mtu net name config v h e = ground arith

IsMtu-of_parsed :
    (config : Config) (v : Bytes) (r : Option ℕ)
    → parse_int64 v ≡ r
    → elim r [ none ↦ false | some mtu ↦ valid_mtu config mtu ] ≡ true
    → (mtu : ℕ) × (parse_int64 v ≡ some mtu) × IsMtu config mtu
IsMtu-of_parsed config v none e h = cc
IsMtu-of_parsed config v (some mtu) e h =
    (mtu, e, valid_mtu-IsMtu config mtu (parse_int64-lt v mtu e) h)

-- An MTU that is set in an accepted configuration is an int64: at least 1280 with an IPv6 address, at
-- least 68 with an IPv4 address, at most 1480 on a fan and at most 1450 on one that is not of the type
-- ipip, and at most 1400 with a tunnel's key. So the order in which the map is walked does not matter.
pub validate_config-IsMtu :
    (net : Net) (name : Bytes) (config : Config) (v : Bytes)
    → validate_config net name config ≡ true
    → find (codes "bridge.mtu") config ≡ some v
    → is_empty v ≡ false
    → (mtu : ℕ) × (parse_int64 v ≡ some mtu) × IsMtu config mtu
unfolding validate_config
validate_config-IsMtu net name config v h f e = IsMtu-of_parsed config v (parse_int64 v) refl (
    valid_entry-mtu net name config v
      (entries_loop_sound net name config config (codes "bridge.mtu") v (ground arith) f) e)

-- A key's family is told by its first byte.
prefix_differ :
    (k : Bytes)
    → (has_prefix k (codes "ipv4.") || (has_prefix k (codes "ipv6.") || has_prefix k (codes "fan."))
        ≡ true)
    → (has_prefix k (codes "user.") ≡ false) × (has_prefix k (codes "tunnel.") ≡ false)
unfolding has_prefix
prefix_differ [] h = cc
prefix_differ (c ∷ k) h = ground arith

valid_entry-mode :
    (net : Net) (name : Bytes) (config : Config) (k v : Bytes)
    → valid_entry net name config k v ≡ true
    → has_prefix k (codes "user.") ≡ false
    → has_prefix k (codes "tunnel.") ≡ false
    → valid_mode (is_fan config) k v ≡ true
unfolding valid_entry table_key
valid_entry-mode net name config k v h p q = ground arith

valid_mode-fan :
    (fan : Bool) (k v : Bytes)
    → is_empty v ≡ false
    → (has_prefix k (codes "ipv4.") || (has_prefix k (codes "ipv6.") || has_prefix k (codes "fan."))
          ≡ true
        → valid_mode fan k v ≡ true)
    → (fan ≡ true → has_prefix k (codes "ipv4.") || has_prefix k (codes "ipv6.") ≡ false)
      × (fan ≡ false → has_prefix k (codes "fan.") ≡ false)
unfolding valid_mode
valid_mode-fan fan k v e h =
    elim (Bool-cases (
      has_prefix k (codes "ipv4.")
      || (has_prefix k (codes "ipv6.") || has_prefix k (codes "fan.")))) [
        | inl t ↦ let m = h t in (λ f. ground arith, λ f. ground arith)
        | inr t ↦ (λ f. ground arith, λ f. ground arith)
      ]

-- In an accepted configuration, a fan's name has at most 11 bytes, it has no IPv4 or IPv6 settings, and
-- no other network has settings of a fan; empty values do not count.
validate_config_fan :
    (net : Net) (name : Bytes) (config : Config) (k v : Bytes)
    → validate_config net name config ≡ true
    → find k config ≡ some v
    → is_empty v ≡ false
    → (is_fan config ≡ true → length name ≤ 11)
      × (is_fan config ≡ true
          → has_prefix k (codes "ipv4.") || has_prefix k (codes "ipv6.") ≡ false)
      × (is_fan config ≡ false → has_prefix k (codes "fan.") ≡ false)
unfolding validate_config
validate_config_fan net name config k v h f e =
    let entry = entries_loop_sound net name config config k v (ground arith) f in
    let (a, b) =
      valid_mode-fan (is_fan config) k v e
        (λ p. let (q, r) = prefix_differ k p in valid_entry-mode net name config k v entry q r) in
    (λ p. ground arith, a, b)

-- A port is the empty text, or a number from 1 to 65536, one more than the last port.
valid_port_iff :
    (value : Bytes)
    → (valid_port value ≡ true)
      ↔ ((value ≡ []) ⊎ ((v : ℕ) × (parse_int64 value ≡ some v) × (1 ≤ v) × (v ≤ 65536)))
unfolding valid_port lt
valid_port_iff value = (λ h. by_value (parse_int64 value) refl h, λ h. accepted h)
  where
    by_value :
        (r : Option ℕ)
        → parse_int64 value ≡ r
        → valid_port value ≡ true
        → (value ≡ []) ⊎ ((v : ℕ) × (parse_int64 value ≡ some v) × (1 ≤ v) × (v ≤ 65536))
    by_value none e h = inl (ground arith)
    by_value (some v) e h = elim (Bool-cases (is_empty value)) [
      | inl t ↦ inl (ground arith)
      | inr t ↦
          inr (
            v,
            e,
            ground (arith, parse_int64-lt value v e),
            ground (arith, parse_int64-lt value v e),
          )
    ]

    accepted :
        (value ≡ []) ⊎ ((v : ℕ) × (parse_int64 value ≡ some v) × (1 ≤ v) × (v ≤ 65536))
        → valid_port value ≡ true
    accepted (inl e) = ground arith
    accepted (inr (v, e, l, m)) = ground arith

fill_key_lem :
    (key j : Bytes) (value : Option Bytes) (config c : Config)
    → fill_key key value config ≡ some c
    → find j c ≡ (
        if bytes_eq key j && bytes_eq (get key config) (codes "auto") then value else find j config)
unfolding fill_key
fill_key_lem key j none config c h = ground arith
fill_key_lem key j (some v) config c h = ground (arith, find-put key j v config)

fill_key_other :
    (key j : Bytes) (value : Option Bytes) (config c : Config)
    → bytes_eq key j ≡ false
    → fill_key key value config ≡ some c
    → get j c ≡ get j config
unfolding get
fill_key_other key j value config c e h = ground (arith, fill_key_lem key j value config c h)

-- The three keys differ.
keys_differ :
    (bytes_eq (codes "ipv4.address") (codes "ipv6.address") ≡ false)
    × (bytes_eq (codes "ipv4.address") (codes "fan.underlay_subnet") ≡ false)
    × (bytes_eq (codes "ipv6.address") (codes "fan.underlay_subnet") ≡ false)
unfolding bytes_eq
keys_differ = (refl, refl, refl)

-- What networkFillAuto leaves under a key: each of the three addresses that was auto is replaced by what
-- was found for it, and nothing else is changed.
fill_auto_lem :
    (nets : Subnets) (config c : Config) (j : Bytes)
    → fill_auto nets config ≡ some c
    → find j c ≡ (
        if bytes_eq (codes "ipv4.address") j
          && bytes_eq (get (codes "ipv4.address") config) (codes "auto")
        then nets.random_v4
        else if bytes_eq (codes "ipv6.address") j
            && bytes_eq (get (codes "ipv6.address") config) (codes "auto")
        then nets.random_v6
        else if bytes_eq (codes "fan.underlay_subnet") j
            && bytes_eq (get (codes "fan.underlay_subnet") config) (codes "auto")
        then nets.gateway_v4
        else find j config)
unfolding fill_auto
fill_auto_lem nets config c j h =
    let (a, ea, ha) = >>=-eq-some (fill_key (codes "ipv4.address") nets.random_v4 config) _ h in
    let (b, eb, hb) = >>=-eq-some (fill_key (codes "ipv6.address") nets.random_v6 a) _ ha in
    ground (
      arith,
      fill_key_lem (codes "ipv4.address") j nets.random_v4 config a ea,
      fill_key_lem (codes "ipv6.address") j nets.random_v6 a b eb,
      fill_key_lem (codes "fan.underlay_subnet") j nets.gateway_v4 b c hb,
      fill_key_other (codes "ipv4.address") (codes "ipv6.address") nets.random_v4 config a
          keys_differ.0 ea,
      fill_key_other (codes "ipv4.address") (codes "fan.underlay_subnet") nets.random_v4 config a
          keys_differ.1 ea,
      fill_key_other (codes "ipv6.address") (codes "fan.underlay_subnet") nets.random_v6 a b
          keys_differ.2 eb,
      bytes_eq→eq (codes "ipv4.address") j,
      bytes_eq→eq (codes "ipv6.address") j,
      bytes_eq→eq (codes "fan.underlay_subnet") j,
      keys_differ,
      bytes_eq_sym (codes "ipv4.address") (codes "ipv6.address"),
      bytes_eq_sym (codes "ipv4.address") (codes "fan.underlay_subnet"),
      bytes_eq_sym (codes "ipv6.address") (codes "fan.underlay_subnet"),
    )
