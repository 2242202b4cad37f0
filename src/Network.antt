-- ===== src/Network.antt =====
-- The checks of values in apollo/networks_utils.go: interface names, ports, addresses and subnets.
-- What the code uses of Go's package net is a parameter.
pub mod Config
pub mod Address
pub mod Proofs
mod Tests
use mercuryc.Base.{
  ℕ, Bytes, List, [], ◌∷◌, Option, none, some, Bool, true, false, ◌&&◌, ◌||◌, not, ltb, leb,
  if◌then◌else◌, codes, bytes_eq, is_empty, length,
}
use mercuryc.Base.Dict.{is_some}
use mercuryc.Base.Word.{lt}
use mercuryc.Strconv.{parse_int64}
use mercuryc.Container.{all_hostname_bytes}

-- A parsed address: whether To4 gives one, and its text.
pub record ParsedIp : Type 0 where
  pub is_v4 : Bool
  pub text : Bytes

-- net.ParseIP, and net.ParseCIDR with the text of its network's first address.
pub record Net : Type 0 where
  pub parse_ip : Bytes → Option ParsedIp
  pub parse_cidr : Bytes → Option (ParsedIp × Bytes)

-- networkValidName
unfoldable pub valid_name : Bytes → Bool
valid_name value =
    if ltb (length value) 2
    then false
    else if ltb 15 (length value)
    then false
    else all_hostname_bytes value

-- networkValidPort
unfoldable pub valid_port : Bytes → Bool
valid_port value =
    is_empty value
    || elim (parse_int64 value) [ none ↦ false | some v ↦ not (lt v 1 || lt 65536 v) ]

-- networkValidAddressCIDRV6 and networkValidAddressCIDRV4
unfoldable pub valid_address_cidr : Net → Bool → Bytes → Bool
valid_address_cidr net v4 value = is_empty value || elim (net.parse_cidr value) [
  | none ↦ false
  | some (ip, subnet) ↦
      if not (if v4 then ip.is_v4 else not ip.is_v4) then false else not (bytes_eq ip.text subnet)
]

-- networkValidAddressV4
unfoldable pub valid_address_v4 : Net → Bytes → Bool
valid_address_v4 net value = is_empty value || is_some (net.parse_ip value)

-- networkValidNetworkV4
unfoldable pub valid_network_v4 : Net → Bytes → Bool
valid_network_v4 net value = is_empty value || elim (net.parse_cidr value) [
  | none ↦ false
  | some (ip, subnet) ↦ if not ip.is_v4 then false else bytes_eq ip.text subnet
]
