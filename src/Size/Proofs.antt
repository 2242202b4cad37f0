-- ===== src/Size/Proofs.antt =====
-- What the two size parsers return.
use mercuryc.Base.{
  ℕ, zero, suc, ◌^◌, get_elem?, subst, some_inj, bytes_eq, ◌*◌, ◌%◌, ◌<◌, Bytes, [], ◌∷◌, ◌++◌,
  Option, some, false, ◌>>=◌, ◌≡◌, ◌≢◌, refl, codes, bytes_eq→eq, ◌⊎◌, inl, inr, has_prefix, take,
  drop, length, length-append, arith, All, ap, ◌∙◌, sym,
}
use mathlib.Core.List.{append-ne-nil_of_right_ne-nil, reverse, reverse-append, reverse-reverse}
use mercuryc.Base.Word.{Int64, int64_sign, int64_mod, mul, lt}
use mercuryc.Strconv.{parse_int64, parse_uint, format_uint}
use mercuryc.Strconv.Laws.{format_uint-All, format_uint-ne-nil, parse_uint-format_uint}
use mercuryc.Size.{
  is_number, suffix_len, parse_value, parse_suffixed, parse_byte_size, byte_multiplicator,
  parse_bit_size, bit_multiplicator,
}

parse_int64-unsigned :
    (s : Bytes) (n : ℕ)
    → All (λ c. (c ≢ b'-') × (c ≢ b'+')) s
    → parse_uint int64_mod s ≡ some n
    → n < int64_sign
    → parse_int64 s ≡ some n
unfolding parse_int64
parse_int64-unsigned [] n h e lt = unfold parse_uint in cc
parse_int64-unsigned (c ∷ s) n h e lt = ground arith

parse_value-format_uint : (n : ℕ) → n < int64_sign → parse_value (format_uint n) ≡ some n
unfolding parse_value lt
parse_value-format_uint n h =
    rw
      (parse_int64-unsigned (format_uint n) n
        (format_uint-All _ n (λ d l. (ground arith, ground arith)))
        (parse_uint-format_uint int64_mod n (omega arith)) h)
      (ground arith)

byte_unit_cases :
    (unit : Bytes) (m : ℕ)
    → byte_multiplicator unit ≡ some m
    → ((unit ≡ codes "kB")
        ⊎ ((unit ≡ codes "MB")
            ⊎ ((unit ≡ codes "GB")
                ⊎ ((unit ≡ codes "TB") ⊎ ((unit ≡ codes "PB") ⊎ (unit ≡ codes "EB"))))))
unfolding byte_multiplicator
byte_unit_cases unit m h = ground (
  arith,
  bytes_eq→eq unit (codes "kB"),
  bytes_eq→eq unit (codes "MB"),
  bytes_eq→eq unit (codes "GB"),
  bytes_eq→eq unit (codes "TB"),
  bytes_eq→eq unit (codes "PB"),
  bytes_eq→eq unit (codes "EB"),
)

-- Each unit of bytes is a letter before a B.
byte_unit :
    (unit : Bytes) (m : ℕ)
    → byte_multiplicator unit ≡ some m
    → (k : ℕ) × (unit ≡ k ∷ b'B' ∷ []) × (is_number k ≡ false)
unfolding byte_multiplicator is_number
byte_unit unit m h = elim (byte_unit_cases unit m h) [
  | inl e ↦ (b'k', e, refl)
  | inr (inl e) ↦ (b'M', e, refl)
  | inr (inr (inl e)) ↦ (b'G', e, refl)
  | inr (inr (inr (inl e))) ↦ (b'T', e, refl)
  | inr (inr (inr (inr (inl e)))) ↦ (b'P', e, refl)
  | inr (inr (inr (inr (inr e)))) ↦ (b'E', e, refl)
]

parse_byte_size_nonempty :
    (s : Bytes)
    → s ≢ []
    → parse_byte_size s ≡ (do len ← suffix_len (reverse s); parse_suffixed len (reverse s))
unfolding parse_byte_size
parse_byte_size_nonempty [] h = absurd (h refl)
parse_byte_size_nonempty (c ∷ s) h = refl

suffixed :
    (k : ℕ) (s r : Bytes) (n m : ℕ)
    → is_number k ≡ false
    → r ≡ reverse s
    → s ≢ []
    → parse_value s ≡ some n
    → byte_multiplicator (k ∷ b'B' ∷ []) ≡ some m
    → (suffix_len (b'B' ∷ k ∷ r) >>= λ len. parse_suffixed len (b'B' ∷ k ∷ r)) ≡ some (mul n m)
unfolding suffix_len has_prefix parse_suffixed is_number
suffixed k s [] n m hk e ne hv hm = absurd (ne (sym (reverse-reverse s) ∙ sym (ap reverse e)))
suffixed k s (c ∷ r) n m hk e ne hv hm =
    let back : reverse (c ∷ r) ≡ s = ap reverse e ∙ reverse-reverse s in ground (arith, back)

-- The text of a number in front of a unit that byte_multiplicator knows.
pub parse_byte_size-append :
    (n m : ℕ) (unit : Bytes)
    → n < int64_sign
    → byte_multiplicator unit ≡ some m
    → parse_byte_size (format_uint n ++ unit) ≡ some ((n * m) % int64_mod)
unfolding mul
parse_byte_size-append n m unit h hm =
    let (k, e, letter) = byte_unit unit m hm in
    parse_byte_size_nonempty (format_uint n ++ unit) (nonempty e)
    ∙ (rw (e, reverse-append (format_uint n) (k ∷ b'B' ∷ []))
        (suffixed k (format_uint n) (reverse (format_uint n)) n m letter refl (format_uint-ne-nil n)
          (parse_value-format_uint n h) (rw e at hm)))
  where
    nonempty : {k : ℕ} → unit ≡ k ∷ b'B' ∷ [] → format_uint n ++ unit ≢ []
    nonempty {k} e = append-ne-nil_of_right_ne-nil (format_uint n) (λ q. cc)

-- The units of bytes are the powers of 1024, in this order.
byte_multiplicator_letter :
    (k letter : ℕ)
    → get_elem? (codes "kMGTPE") k ≡ some letter
    → byte_multiplicator (letter ∷ codes "B") ≡ some (1024 ^ suc k)
unfolding byte_multiplicator bytes_eq
byte_multiplicator_letter zero letter h =
    subst (λ c. byte_multiplicator (c ∷ codes "B") ≡ some (1024 ^ suc 0)) (some_inj h) refl
byte_multiplicator_letter (suc zero) letter h =
    subst (λ c. byte_multiplicator (c ∷ codes "B") ≡ some (1024 ^ suc 1)) (some_inj h) refl
byte_multiplicator_letter (suc (suc zero)) letter h =
    subst (λ c. byte_multiplicator (c ∷ codes "B") ≡ some (1024 ^ suc 2)) (some_inj h) refl
byte_multiplicator_letter (suc (suc (suc zero))) letter h =
    subst (λ c. byte_multiplicator (c ∷ codes "B") ≡ some (1024 ^ suc 3)) (some_inj h) refl
byte_multiplicator_letter (suc (suc (suc (suc zero)))) letter h =
    subst (λ c. byte_multiplicator (c ∷ codes "B") ≡ some (1024 ^ suc 4)) (some_inj h) refl
byte_multiplicator_letter (suc (suc (suc (suc (suc zero))))) letter h =
    subst (λ c. byte_multiplicator (c ∷ codes "B") ≡ some (1024 ^ suc 5)) (some_inj h) refl
byte_multiplicator_letter (suc (suc (suc (suc (suc (suc k)))))) letter h = absurd (cc)

-- A decimal number below 2 ^ 63 with one of the units kB, MB, GB, TB, PB and EB, which stand for the powers
-- of 1024 from the first to the sixth, is read as the number times the unit, reduced to 64 bits: exactly
-- where the product is below 2 ^ 63, and wrapped around, without an error, where it is not.
pub parse_byte_size_lem :
    (n k letter : ℕ)
    → n < int64_sign
    → get_elem? (codes "kMGTPE") k ≡ some letter
    → parse_byte_size (format_uint n ++ letter ∷ codes "B") ≡ some ((n * 1024 ^ suc k) % int64_mod)
parse_byte_size_lem n k letter h e =
    parse_byte_size-append n (1024 ^ suc k) (letter ∷ codes "B") h
      (byte_multiplicator_letter k letter e)

bit_unit_cases :
    (unit : Bytes) (m : ℕ)
    → bit_multiplicator unit ≡ some m
    → ((unit ≡ codes "kbit")
        ⊎ ((unit ≡ codes "Mbit")
            ⊎ ((unit ≡ codes "Gbit")
                ⊎ ((unit ≡ codes "Tbit") ⊎ ((unit ≡ codes "Pbit") ⊎ (unit ≡ codes "Ebit"))))))
unfolding bit_multiplicator
bit_unit_cases unit m h = ground (
  arith,
  bytes_eq→eq unit (codes "kbit"),
  bytes_eq→eq unit (codes "Mbit"),
  bytes_eq→eq unit (codes "Gbit"),
  bytes_eq→eq unit (codes "Tbit"),
  bytes_eq→eq unit (codes "Pbit"),
  bytes_eq→eq unit (codes "Ebit"),
)

-- Each unit of bits is a letter before the word.
bit_unit :
    (unit : Bytes) (m : ℕ) → bit_multiplicator unit ≡ some m → (k : ℕ) × (unit ≡ k ∷ codes "bit")
bit_unit unit m h = elim (bit_unit_cases unit m h) [
  | inl e ↦ (b'k', e)
  | inr (inl e) ↦ (b'M', e)
  | inr (inr (inl e)) ↦ (b'G', e)
  | inr (inr (inr (inl e))) ↦ (b'T', e)
  | inr (inr (inr (inr (inl e)))) ↦ (b'P', e)
  | inr (inr (inr (inr (inr e)))) ↦ (b'E', e)
]

-- The input read from its end, behind the test of its length.
bit_size_reversed : Bytes → Option Int64
bit_size_reversed reversed = do
  v ← parse_value (reverse (drop 4 reversed))
  m ← bit_multiplicator (reverse (take 4 reversed))
  some (mul v m)

parse_bit_size_long : (s : Bytes) → 4 < length s → parse_bit_size s ≡ bit_size_reversed (reverse s)
unfolding parse_bit_size bit_size_reversed
parse_bit_size_long [] h = elim h [ ]
parse_bit_size_long (c ∷ s) h = ground arith

bits_suffixed :
    (k : ℕ) (s : Bytes) (n m : ℕ)
    → parse_value s ≡ some n
    → bit_multiplicator (k ∷ codes "bit") ≡ some m
    → bit_size_reversed (b't' ∷ b'i' ∷ b'b' ∷ k ∷ reverse s) ≡ some (mul n m)
unfolding bit_size_reversed
bits_suffixed k s n m hv hm = rw (reverse-reverse s, hv) (ground arith)

length_nonempty : (s : Bytes) → s ≢ [] → 0 < length s
length_nonempty [] h = absurd (h refl)
length_nonempty (c ∷ s) h = omega arith

-- A decimal number below 2 ^ 63 with one of the units of bits is read as the number times the unit,
-- reduced to 64 bits: exactly where the product is below 2 ^ 63, and wrapped around, without an
-- error, where it is not.
parse_bit_size_lem :
    (n m : ℕ) (unit : Bytes)
    → n < int64_sign
    → bit_multiplicator unit ≡ some m
    → parse_bit_size (format_uint n ++ unit) ≡ some ((n * m) % int64_mod)
unfolding mul
parse_bit_size_lem n m unit h hm =
    let (k, e) = bit_unit unit m hm in
    parse_bit_size_long (format_uint n ++ unit) (long k e)
    ∙ (rw (e, reverse-append (format_uint n) (k ∷ codes "bit"))
        (bits_suffixed k (format_uint n) n m (parse_value-format_uint n h) (rw e at hm)))
  where
    long : (k : ℕ) → unit ≡ k ∷ codes "bit" → 4 < length (format_uint n ++ unit)
    long k e = rw e (
        omega (
          arith,
          length-append (format_uint n) (k ∷ codes "bit"),
          length_nonempty (format_uint n) (format_uint-ne-nil n),
        ))
