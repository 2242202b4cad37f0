-- ===== src/Network/Address.antt =====
-- The address arithmetic of apollo/networks_utils.go: networkGetIP and networkFanAddress.
use mercuryc.Base.{
  ℕ, zero, suc, ◌+◌, ◌-◌, ◌*◌, ◌/◌, ◌%◌, ◌^◌, Bytes, [], ◌∷◌, ◌++◌, Option, none, some, Bool, ◌||◌,
  not, ◌==◌, ltb, if◌then◌else◌,
}
use mercuryc.Base.Word.{Int64, int64_mod, int64_sign}

-- net.IPNet: the first address as a number, of 32 or 128 bits, and the length of the mask.
pub record Subnet : Type 0 where
  pub is_v4 : Bool
  pub ip : ℕ
  pub mask : ℕ

-- To16 writes an IPv4 address behind ::ffff.
unfoldable pub to_16 : Subnet → ℕ
to_16 subnet = if subnet.is_v4 then 0xffff * 2 ^ 32 + subnet.ip else subnet.ip

unfoldable pub bits : Subnet → ℕ
bits subnet = if subnet.is_v4 then 32 else 128

-- The sum of the address and the offset; an offset below 0 counts from the end of the subnet. The power
-- of two is exact as a float.
unfoldable pub host_ip : Subnet → Int64 → ℕ
unfolding to_16 bits
host_ip subnet host =
    if ltb host int64_sign
    then to_16 subnet + host
    else to_16 subnet + 2 ^ (bits subnet - subnet.mask) - (int64_mod - host)

-- big.Int.Bytes: the big-endian bytes with no zero in front. 17 bytes are enough for what is asked.
unfoldable pub big_bytes : ℕ → ℕ → Bytes
big_bytes zero n = []
big_bytes (suc f) n =
    let rest = big_bytes f (n / 256) ++ (n % 256) ∷ [] in if n == 0 then [] else rest

-- The four bytes that PutUint32 writes.
unfoldable pub v4_bytes : ℕ → Bytes
v4_bytes n = (n / 2 ^ 24) % 256 ∷ (n / 2 ^ 16) % 256 ∷ (n / 2 ^ 8) % 256 ∷ n % 256 ∷ []

-- networkGetIP
unfoldable pub get_ip : Subnet → Int64 → Bytes
unfolding host_ip big_bytes v4_bytes
get_ip subnet host =
    let sum = host_ip subnet host in
    if subnet.is_v4 then v4_bytes (sum % 2 ^ 32) else big_bytes 17 sum

-- The four bytes of an address.
pub record Ip4 : Type 0 where
  pub a : ℕ
  pub b : ℕ
  pub c : ℕ
  pub d : ℕ

-- networkFanAddress for the sizes of the two masks, the overlay's first address and the address that
-- networkAddressForSubnet found in the underlay.
unfoldable pub fan_address : ℕ → ℕ → Ip4 → Ip4 → Option Ip4
fan_address underlay_size overlay_size overlay ip =
    if not (underlay_size == 16 || underlay_size == 24)
    then none
    else if not (overlay_size == 8 || overlay_size == 16)
    then none
    else if ltb 32 (overlay_size + (32 - underlay_size) + 8)
    then none
    else some (record {
      a = overlay.a;
      b = if overlay_size == 16 then overlay.b else if underlay_size == 24 then 0 else ip.c;
      c = ip.d;
      d = 1;
    })
