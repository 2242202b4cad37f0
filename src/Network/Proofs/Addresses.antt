-- ===== src/Network/Proofs/Addresses.antt =====
-- Which addresses the arithmetic gives.
use mercuryc.Base.{ℕ, ◌+◌, ◌-◌, ◌%◌, ◌^◌, ◌<◌, ◌≡◌, some, true, arith}
use mercuryc.Base.Word.{int64_mod}
use mercuryc.Network.Address.{Subnet, Ip4, get_ip, fan_address, v4_bytes}

-- The address of a host in an IPv4 subnet, counted from 0 or, by a negative offset, from the end, is
-- the sum within 32 bits: the first address and the offset, or what is left before the next subnet.
pub get_ip_v4 :
    (subnet : Subnet) (host : ℕ)
    → subnet.is_v4 ≡ true
    → subnet.ip < 2 ^ 32
    → host < 2 ^ 31
    → (get_ip subnet host ≡ v4_bytes ((subnet.ip + host) % 2 ^ 32))
      × (0 < host
          → get_ip subnet (int64_mod - host)
            ≡ v4_bytes ((subnet.ip + 2 ^ (32 - subnet.mask) + (2 ^ 32 - host)) % 2 ^ 32))
unfolding get_ip
get_ip_v4 subnet host v i h = (ground arith, λ p. ground arith)

-- The fan gives no address twice: for an underlay and an overlay, two addresses that agree in the bytes of the underlay's
-- mask and get the same address of the overlay are the same.
fan_address-injective :
    (underlay_size overlay_size : ℕ) (overlay i j r : Ip4)
    → i.a ≡ j.a
    → i.b ≡ j.b
    → (underlay_size ≡ 24 → i.c ≡ j.c)
    → fan_address underlay_size overlay_size overlay i ≡ some r
    → fan_address underlay_size overlay_size overlay j ≡ some r
    → i ≡ j
unfolding fan_address
fan_address-injective u o overlay i j r a b c p q = ground arith
