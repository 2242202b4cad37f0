-- ===== src/Strconv.antt =====
-- What the sources use of Go's package strconv, and of fmt's verb %d. Only that an error was
-- returned is ever read, so an error is `none`.
pub mod Laws
use mercuryc.Base.{
  ℕ, zero, suc, ◌+◌, ◌-◌, ◌*◌, ◌/◌, ◌%◌, ◌^◌, Bytes, List, [], ◌∷◌, ◌++◌, Option, none, some, Bool,
  true, false, ◌&&◌, ltb, leb, ◌==◌, if◌then◌else◌, ◌>>=◌, ◌≡◌, refl, codes,
}
use mercuryc.Base.Word.{Int64, int64_mod, int64_sign, u32_mod}

unfoldable pub is_digit : ℕ → Bool
is_digit c = leb b'0' c && leb c b'9'

-- The number that the digits spell behind `acc`.
unfoldable pub scan : ℕ → Bytes → Option ℕ
unfolding is_digit
scan acc [] = some acc
scan acc (c ∷ s) = let rest = scan (acc * 10 + (c - b'0')) s in if is_digit c then rest else none

-- strconv.ParseUint(s, 10, bits), with `limit` for 2 ^ bits.
unfoldable pub parse_uint : ℕ → Bytes → Option ℕ
unfolding scan
parse_uint limit [] = none
parse_uint limit (c ∷ s) = do v ← scan 0 (c ∷ s); if ltb v limit then some v else none

abbrev pub parse_uint32 : Bytes → Option ℕ
parse_uint32 = parse_uint u32_mod

-- strconv.ParseInt(s, 10, 64).
unfoldable pub parse_int64 : Bytes → Option Int64
unfolding parse_uint
parse_int64 [] = none
parse_int64 (c ∷ s) =
    if c == b'-'
    then (do
      un ← parse_uint int64_mod s
      if ltb int64_sign un then none else some ((int64_mod - un) % int64_mod))
    else (do
      un ← parse_uint int64_mod (if c == b'+' then s else c ∷ s)
      if leb int64_sign un then none else some un)

-- strconv.Atoi, where int has 64 bits.
abbrev pub atoi : Bytes → Option Int64
atoi = parse_int64

-- The digits of a number; the fuel is above the number.
unfoldable pub digits : ℕ → ℕ → Bytes
digits zero n = []
digits (suc f) n =
    let rest = digits f (n / 10) ++ (b'0' + n % 10) ∷ [] in
    if ltb n 10 then (b'0' + n) ∷ [] else rest

unfoldable pub format_uint : ℕ → Bytes
unfolding digits
format_uint n = digits (suc n) n

-- %d of an int64.
unfoldable pub format_int64 : Int64 → Bytes
unfolding format_uint
format_int64 a = if leb int64_sign a then b'-' ∷ format_uint (int64_mod - a) else format_uint a

format_sample : format_uint 4294967295 ≡ codes "4294967295"
unfolding format_uint
format_sample = refl

parse_sample : parse_uint32 (codes "4294967295") ≡ some 4294967295
unfolding parse_uint
parse_sample = refl

parse_big : parse_uint32 (codes "4294967296") ≡ none
unfolding parse_uint
parse_big = refl
