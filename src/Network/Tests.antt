-- ===== src/Network/Tests.antt =====
-- The theorems on networks at concrete settings and addresses.
use mercuryc.Base.{
  ℕ, ◌+◌, ◌-◌, ◌^◌, ◌%◌, ◌≤◌, ◌<◌, Bytes, List, [], ◌∷◌, Option, none, some, Bool, true, false, ◌≡◌,
  ◌↔◌, ◌⊎◌, ◌||◌, refl, codes, has_prefix, length, arith, bytes_eq,
}
use mercuryc.Base.Dict.{find}
use mercuryc.Base.Word.{int64_mod}
use mercuryc.Strconv.{parse_int64}
use mercuryc.Network.{Net}
use mercuryc.Network.Config.{Config, validate_config, Subnets}
use mercuryc.Network.Address.{Subnet, Ip4}
use mercuryc.Network.Proofs.Settings.{IsMtu, validate_config-IsMtu}

-- A library that reads no address.
abbrev no_net : Net
no_net = record { parse_ip = λ s. none; parse_cidr = λ s. none }

abbrev config : Config
config =
    (codes "bridge.mtu", codes "1300")
    ∷ (codes "ipv6.address", codes "auto")
    ∷ (codes "tunnel.far.protocol", codes "gre")
    ∷ []

validate_config-IsMtu_example :
    (mtu : ℕ) × (parse_int64 (codes "1300") ≡ some mtu) × IsMtu config mtu
unfolding validate_config find bytes_eq mercuryc.Device.get has_prefix mercuryc.Config.is_int64
    parse_int64 mercuryc.Base.Word.lt mercuryc.Base.string_in_slice mercuryc.Config.is_one_of
    mercuryc.Base.split
validate_config-IsMtu_example =
    validate_config-IsMtu no_net (codes "br0") config (codes "1300") refl refl refl

abbrev nets : Subnets
nets = record {
  random_v4 = some (codes "10.1.2.1/24");
  random_v6 = some (codes "fd42::1/64");
  gateway_v4 = none;
}

-- 10.0.1.0/24
abbrev subnet : Subnet
subnet = record { is_v4 = true; ip = 167772416; mask = 24 }

abbrev ip : ℕ → ℕ → ℕ → ℕ → Ip4
ip a b c d = record { a = a; b = b; c = c; d = d }
