-- ===== src/Size.antt =====
-- ParseByteSizeString and ParseBitSizeString of shared/util.go. The result is the int64; an error,
-- with its result -1, is `none`.
pub mod Proofs
mod Tests
use mercuryc.Base.{
  ℕ, ◌+◌, ◌-◌, ◌*◌, ◌^◌, Bytes, List, [], ◌∷◌, ◌++◌, Option, none, some, Bool, true, false, ◌&&◌,
  ◌||◌, not, ◌==◌, leb, ltb, if◌then◌else◌, ◌>>=◌, ◌≡◌, refl, codes, bytes_eq, has_prefix, take,
  drop, length,
}
use mathlib.Core.List.{reverse}
use mercuryc.Base.Word.{Int64, mul, lt}
use mercuryc.Strconv.{parse_int64, is_digit}

-- unicode.IsNumber(rune(b)) for a byte: the digits, and the superscripts and fractions of Latin 1.
unfoldable pub is_number : ℕ → Bool
unfolding is_digit
is_number b = is_digit b || (b == 0xb2 || (b == 0xb3 || (b == 0xb9 || (leb 0xbc b && leb b 0xbe))))

-- input[len(input)-2] is a number, in the input read from its end.
unfoldable pub second_is_number : Bytes → Bool
unfolding is_number
second_is_number (b ∷ a ∷ rest) = is_number a
second_is_number _ = false

-- The length of the suffix, from the input read from its end; `none` is the first error.
unfoldable pub suffix_len : Bytes → Option ℕ
unfolding second_is_number
suffix_len [] = some 0
suffix_len (b ∷ rest) =
    if is_number b
    then some 0
    else if b == b'B' && second_is_number (b ∷ rest)
    then some 1
    else if has_prefix (b ∷ rest) (reverse (codes " bytes"))
    then some 6
    else if ltb (length (b ∷ rest)) 3
    then none
    else some 2

unfoldable pub byte_multiplicator : Bytes → Option ℕ
byte_multiplicator suffix =
    if bytes_eq suffix (codes "kB")
    then some (2 ^ 10)
    else if bytes_eq suffix (codes "MB")
    then some (2 ^ 20)
    else if bytes_eq suffix (codes "GB")
    then some (2 ^ 30)
    else if bytes_eq suffix (codes "TB")
    then some (2 ^ 40)
    else if bytes_eq suffix (codes "PB")
    then some (2 ^ 50)
    else if bytes_eq suffix (codes "EB")
    then some (2 ^ 60)
    else none

-- strconv.ParseInt of the value, and the check of its sign.
unfoldable pub parse_value : Bytes → Option Int64
unfolding parse_int64
parse_value value = do v ← parse_int64 value; if lt v 0 then none else some v

-- The part behind the choice of the suffix's length, over the input read from its end.
unfoldable pub parse_suffixed : ℕ → Bytes → Option Int64
unfolding parse_value byte_multiplicator
parse_suffixed len reversed = do
  v ← parse_value (reverse (drop len reversed))
  if len == 2
      then (do m ← byte_multiplicator (reverse (take len reversed)); some (mul v m))
      else some v

unfoldable pub parse_byte_size : Bytes → Option Int64
unfolding suffix_len parse_suffixed
parse_byte_size [] = some 0
parse_byte_size (c ∷ s) = do
  len ← suffix_len (reverse (c ∷ s))
  parse_suffixed len (reverse (c ∷ s))

unfoldable pub bit_multiplicator : Bytes → Option ℕ
bit_multiplicator suffix =
    if bytes_eq suffix (codes "kbit")
    then some 1000
    else if bytes_eq suffix (codes "Mbit")
    then some (1000 ^ 2)
    else if bytes_eq suffix (codes "Gbit")
    then some (1000 ^ 3)
    else if bytes_eq suffix (codes "Tbit")
    then some (1000 ^ 4)
    else if bytes_eq suffix (codes "Pbit")
    then some (1000 ^ 5)
    else if bytes_eq suffix (codes "Ebit")
    then some (1000 ^ 6)
    else none

unfoldable pub parse_bit_size : Bytes → Option Int64
unfolding parse_value bit_multiplicator
parse_bit_size [] = some 0
parse_bit_size (c ∷ s) = if ltb (length (c ∷ s)) 5 then none else (do
  let reversed = reverse (c ∷ s)
  v ← parse_value (reverse (drop 4 reversed))
  m ← bit_multiplicator (reverse (take 4 reversed))
  some (mul v m))

-- The product wraps around without an error.
sixteen_exabytes : parse_byte_size (codes "16EB") ≡ some 0
unfolding parse_byte_size has_prefix lt bytes_eq mul
sixteen_exabytes = refl
