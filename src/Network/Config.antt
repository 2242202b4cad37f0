-- ===== src/Network/Config.antt =====
-- apollo/networks_config.go: the keys of a network and the check of its configuration. A check's
-- result is whether it returns no error.
use mercuryc.Base.{
  ℕ, Bytes, List, [], ◌∷◌, ◌++◌, ◌+◌, Option, none, some, Bool, true, false, ◌&&◌, ◌||◌, not, ltb,
  if◌then◌else◌, codes, bytes_eq, is_empty, length, split, string_in_slice, has_prefix, ◌>>=◌,
}
use mercuryc.Base.Dict.{find, put}
use mercuryc.Base.Word.{lt, Int64}
use mercuryc.Strconv.{parse_int64}
use mercuryc.Config.{is_bool, is_int64, is_one_of}
use mercuryc.Device.{get}
use mercuryc.Idmap.Kernel.{is_space}
use mercuryc.Network.{
  Net, valid_name, valid_port, valid_address_cidr, valid_address_v4, valid_network_v4,
}

-- strings.TrimSpace
unfoldable pub trim_left_space : Bytes → Bytes
trim_left_space [] = []
trim_left_space (c ∷ s) = let rest = trim_left_space s in if is_space c then rest else c ∷ s

-- The text up to its last byte that is no space.
unfoldable pub trim_right_space : Bytes → Bytes
trim_right_space [] = []
trim_right_space (c ∷ s) =
    let rest = trim_right_space s in if is_space c && is_empty rest then [] else c ∷ rest

unfoldable pub trim_space : Bytes → Bytes
unfolding trim_left_space trim_right_space
trim_space s = trim_right_space (trim_left_space s)

unfoldable pub all_valid_names : List Bytes → Bool
unfolding trim_space
all_valid_names [] = true
all_valid_names (entry ∷ entries) = valid_name (trim_space entry) && all_valid_names entries

-- The checkers that the table holds.
pub data Checker : Type 0 where
  any bool int64 driver interfaces mode overlay underlay fan_type tunnel_protocol : Checker
  address_v4 port ifname cidr_v4 cidr_v6 dns_mode : Checker

unfoldable pub check : Net → Checker → Bytes → Bool
unfolding all_valid_names
check net any value = true
check net bool value = is_bool value
check net int64 value = is_int64 value
check net driver value = is_one_of value (codes "native" ∷ codes "openvswitch" ∷ [])
check net interfaces value = is_empty value || all_valid_names (split value b',')
check net mode value = is_one_of value (codes "standard" ∷ codes "fan" ∷ [])
check net overlay value = valid_network_v4 net value
check net underlay value = bytes_eq value (codes "auto") || valid_network_v4 net value
check net fan_type value = is_one_of value (codes "vxlan" ∷ codes "ipip" ∷ [])
check net tunnel_protocol value = is_one_of value (codes "gre" ∷ codes "vxlan" ∷ [])
check net address_v4 value = valid_address_v4 net value
check net port value = valid_port value
check net ifname value = valid_name value
check net cidr_v4 value =
    is_one_of value (codes "none" ∷ codes "auto" ∷ []) || valid_address_cidr net true value
check net cidr_v6 value =
    is_one_of value (codes "none" ∷ codes "auto" ∷ []) || valid_address_cidr net false value
check net dns_mode value = is_one_of value (codes "dynamic" ∷ codes "managed" ∷ codes "none" ∷ [])

-- networkConfigKeys
abbrev pub network_config_keys : List (Bytes × Checker)
network_config_keys =
    (codes "bridge.driver", driver)
    ∷ (codes "bridge.external_interfaces", interfaces)
    ∷ (codes "bridge.mtu", int64)
    ∷ (codes "bridge.mode", mode)
    ∷ (codes "fan.overlay_subnet", overlay)
    ∷ (codes "fan.underlay_subnet", underlay)
    ∷ (codes "fan.type", fan_type)
    ∷ (codes "tunnel.TARGET.protocol", tunnel_protocol)
    ∷ (codes "tunnel.TARGET.local", address_v4)
    ∷ (codes "tunnel.TARGET.remote", address_v4)
    ∷ (codes "tunnel.TARGET.port", port)
    ∷ (codes "tunnel.TARGET.group", address_v4)
    ∷ (codes "tunnel.TARGET.id", int64)
    ∷ (codes "tunnel.TARGET.interface", ifname)
    ∷ (codes "ipv4.address", cidr_v4)
    ∷ (codes "ipv4.firewall", bool)
    ∷ (codes "ipv4.nat", bool)
    ∷ (codes "ipv4.dhcp", bool)
    ∷ (codes "ipv4.dhcp.expiry", any)
    ∷ (codes "ipv4.dhcp.ranges", any)
    ∷ (codes "ipv4.routes", any)
    ∷ (codes "ipv4.routing", bool)
    ∷ (codes "ipv6.address", cidr_v6)
    ∷ (codes "ipv6.firewall", bool)
    ∷ (codes "ipv6.nat", bool)
    ∷ (codes "ipv6.dhcp", bool)
    ∷ (codes "ipv6.dhcp.expiry", any)
    ∷ (codes "ipv6.dhcp.stateful", bool)
    ∷ (codes "ipv6.dhcp.ranges", any)
    ∷ (codes "ipv6.routes", any)
    ∷ (codes "ipv6.routing", bool)
    ∷ (codes "dns.domain", any)
    ∷ (codes "dns.mode", dns_mode)
    ∷ (codes "raw.dnsmasq", any)
    ∷ []

abbrev pub Config : Type 0
Config = List (Bytes × Bytes)

-- The second part of a key, behind its first dot; the code indexes the parts, and there are two.
unfoldable pub second_part : List Bytes → Bytes
second_part (a ∷ b ∷ rest) = b
second_part _ = []

-- networkGetTunnels
unfoldable pub tunnels_loop : Config → List Bytes → List Bytes
unfolding second_part
tunnels_loop [] tunnels = tunnels
tunnels_loop ((k, v) ∷ config) tunnels =
    let target = second_part (split k b'.') in
    tunnels_loop config (
      if not (has_prefix k (codes "tunnel.")) || string_in_slice target tunnels
      then tunnels
      else tunnels ++ target ∷ [])

unfoldable pub get_tunnels : Config → List Bytes
unfolding tunnels_loop
get_tunnels config = tunnels_loop config []

abbrev pub is_fan : Config → Bool
is_fan config = bytes_eq (get (codes "bridge.mode") config) (codes "fan")

-- The key's name in the table: a tunnel's key has its target replaced, if the name of its interface
-- is short enough.
unfoldable pub table_parts : ℕ → List Bytes → Option Bytes
table_parts len (tunnel ∷ target ∷ setting ∷ []) =
    if ltb 14 (len + length target) then none else some (codes "tunnel.TARGET." ++ setting)
table_parts len _ = none

unfoldable pub table_key : Bytes → Bytes → Option Bytes
unfolding table_parts
table_key name k =
    if has_prefix k (codes "tunnel.") then table_parts (length name) (split k b'.') else some k

-- The checks against the mode of the bridge.
unfoldable pub valid_mode : Bool → Bytes → Bytes → Bool
valid_mode fan key v =
    is_empty v
    || (if fan
        then not (has_prefix key (codes "ipv4.") || has_prefix key (codes "ipv6."))
        else not (has_prefix key (codes "fan.")))

-- Whether an address is set, to something other than none.
abbrev pub is_set : Bytes → Bool
is_set address = not (is_empty address) && not (bytes_eq address (codes "none"))

-- The checks of an MTU.
unfoldable pub valid_mtu : Config → Int64 → Bool
unfolding get_tunnels
valid_mtu config mtu =
    if is_set (get (codes "ipv6.address") config) && lt mtu 1280
    then false
    else if is_set (get (codes "ipv4.address") config) && lt mtu 68
    then false
    else if is_fan config
        && lt (if bytes_eq (get (codes "fan.type") config) (codes "ipip") then 1480 else 1450) mtu
    then false
    else not (ltb 0 (length (get_tunnels config)) && lt 1400 mtu)

unfoldable pub valid_entry : Net → Bytes → Config → Bytes → Bytes → Bool
unfolding table_key check valid_mode valid_mtu
valid_entry net name config k v = has_prefix k (codes "user.") || elim (table_key name k) [
  | none ↦ false
  | some key ↦ elim (find key network_config_keys) [
    | none ↦ false
    | some validator ↦
        check net validator v
        && (valid_mode (is_fan config) key v
            && (if bytes_eq key (codes "bridge.mtu") && not (is_empty v)
                then (elim (parse_int64 v) [ none ↦ false | some mtu ↦ valid_mtu config mtu ])
                else true))
  ]
]

unfoldable pub entries_loop : Net → Bytes → Config → Config → Bool
unfolding valid_entry
entries_loop net name config [] = true
entries_loop net name config ((k, v) ∷ rest) =
    valid_entry net name config k v && entries_loop net name config rest

-- networkValidateConfig
unfoldable pub validate_config : Net → Bytes → Config → Bool
unfolding entries_loop
validate_config net name config =
    if is_fan config && ltb 11 (length name) then false else entries_loop net name config config

-- What networkFillAuto calls: networkRandomSubnetV4, networkRandomSubnetV6 and the text of the subnet of
-- networkDefaultGatewaySubnetV4.
pub record Subnets : Type 0 where
  pub random_v4 : Option Bytes
  pub random_v6 : Option Bytes
  pub gateway_v4 : Option Bytes

unfoldable pub fill_key : Bytes → Option Bytes → Config → Option Config
fill_key key value config =
    if bytes_eq (get key config) (codes "auto")
    then (do v ← value; some (put key v config))
    else some config

-- networkFillAuto. The code fills the map in place, so before an error it may have filled a part.
unfoldable pub fill_auto : Subnets → Config → Option Config
unfolding fill_key
fill_auto nets config = do
  c ← fill_key (codes "ipv4.address") nets.random_v4 config
  d ← fill_key (codes "ipv6.address") nets.random_v6 c
  fill_key (codes "fan.underlay_subnet") nets.gateway_v4 d
