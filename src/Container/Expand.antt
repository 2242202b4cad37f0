-- ===== src/Container/Expand.antt =====
-- apollo/container_mercury.go: how the profiles and the container's own settings give its configuration and
-- its devices (expandConfig, expandDevices), and the free interface name of fillNetworkDevice.
use mercuryc.Base.{
  ℕ, zero, suc, Bytes, List, [], ◌∷◌, ◌++◌, Option, none, some, Bool, false, ◌&&◌, if◌then◌else◌,
  ◌>>=◌, codes, bytes_eq, is_empty, string_in_slice, has_prefix, split_two, length,
}
use mercuryc.Base.Dict.{put}
use mercuryc.Strconv.{format_uint}
use mercuryc.Device.{Device, get}

-- Laying one map over another.
module _ {V : Type 0} where
  unfoldable pub overlay : List (Bytes × V) → List (Bytes × V) → List (Bytes × V)
  unfolding put
  overlay [] config = config
  overlay ((k, v) ∷ top) config = overlay top (put k v config)

  -- The loop over the profiles, whose maps the data base gives; none is its error.
  unfoldable pub profiles_loop :
      (Bytes → Option (List (Bytes × V)))
      → List Bytes
      → List (Bytes × V)
      → Option (List (Bytes × V))
  unfolding overlay
  profiles_loop db [] config = some config
  profiles_loop db (name ∷ profiles) config = elim (db name) [
    | none ↦ none
    | some profile ↦ profiles_loop db profiles (overlay profile config)
  ]

  -- expandConfig, and on devices expandDevices.
  unfoldable pub expand :
      (Bytes → Option (List (Bytes × V)))
      → List Bytes
      → List (Bytes × V)
      → Option (List (Bytes × V))
  unfolding profiles_loop
  expand db profiles own = do config ← profiles_loop db profiles []; some (overlay own config)

abbrev pub add_name : Bytes → List Bytes → List Bytes
add_name name names = if string_in_slice name names then names else names ++ name ∷ []

-- The names that the devices give, of those that stand in the configuration, and of those that the
-- running container has.
unfoldable pub device_names : List (Bytes × Device) → List Bytes → List Bytes
device_names [] names = names
device_names ((k, d) ∷ devices) names =
    device_names devices
      (if is_empty (get (codes "name") d) then names else add_name (get (codes "name") d) names)

-- Whether a key is of the form volatile.<device>.name: its third part of at most three.
unfoldable pub is_name_key : Bytes → Bool
is_name_key k = has_prefix k (codes "volatile.") && elim (split_two b'.' k).1 [
  | none ↦ false
  | some rest ↦ elim (split_two b'.' rest).1 [
    | none ↦ false
    | some third ↦ bytes_eq third (codes "name")
  ]
]

unfoldable pub volatile_names : List (Bytes × Bytes) → List Bytes → List Bytes
unfolding is_name_key
volatile_names [] names = names
volatile_names ((k, v) ∷ config) names =
    volatile_names config (if is_name_key k then add_name v names else names)

unfoldable pub add_names : List Bytes → List Bytes → List Bytes
add_names [] names = names
add_names (name ∷ interfaces) names = add_names interfaces (add_name name names)

abbrev pub eth : ℕ → Bytes
eth i = codes "eth" ++ format_uint i

-- The search for a free name; `none` is the end of the fuel.
unfoldable pub free_name : ℕ → ℕ → List Bytes → Option Bytes
free_name zero i names = none
free_name (suc fuel) i names =
    let rest = free_name fuel (suc i) names in
    if string_in_slice (eth i) names then rest else some (eth i)

abbrev pub taken_names : List (Bytes × Device) → List (Bytes × Bytes) → List Bytes → List Bytes
taken_names devices config interfaces =
    add_names interfaces (volatile_names config (device_names devices []))

-- nextInterfaceName, from the expanded devices in the order of their names, the expanded configuration, and
-- the interfaces of the runtime, none where it does not give them.
unfoldable pub next_interface_name :
    List (Bytes × Device) → List (Bytes × Bytes) → List Bytes → Option Bytes
unfolding device_names volatile_names add_names free_name
next_interface_name devices config interfaces =
    let names = taken_names devices config interfaces in free_name (suc (length names)) 0 names
