-- ===== src/Strconv/Laws.antt =====
-- Reading what was printed, for the model of strconv and of %d.
use mercuryc.Base.{
  ℕ, zero, suc, ◌+◌, ◌/◌, ◌%◌, ◌<◌, Bytes, [], ◌∷◌, ◌++◌, some, false, ◌≡◌, ◌≢◌, refl, ltb, ltb→lt,
  ltb→lt, arith, All, All-append, Lacks, append_assoc, append-nil, inl, inr, Bool-cases,
}
use mathlib.Core.List.{concat-ne-nil}
use mercuryc.Strconv.{is_digit, scan, parse_uint, digits, format_uint}

scan-digits : (f n : ℕ) (rest : Bytes) → n < f → scan 0 (digits f n ++ rest) ≡ scan n rest
unfolding scan digits
scan-digits zero n rest h = elim h [ ]
scan-digits (suc f) n rest h = ground (
  arith,
  append_assoc (digits f (n / 10)) (((48 + n % 10)) ∷ []) rest,
  scan-digits f (n / 10) ((48 + n % 10) ∷ rest),
)

scan-nil : (n : ℕ) → scan n [] ≡ some n
unfolding scan
scan-nil n = refl

digits-ne-nil : (f n : ℕ) → digits (suc f) n ≢ []
unfolding digits
digits-ne-nil f n = ground (arith, concat-ne-nil (48 + n % 10) (digits f (n / 10)))

parse_uint-scan :
    (limit : ℕ) (s : Bytes) (v : ℕ)
    → s ≢ []
    → scan 0 s ≡ some v
    → v < limit
    → parse_uint limit s ≡ some v
unfolding parse_uint
parse_uint-scan limit [] v ne h lt = absurd (ne refl)
parse_uint-scan limit (c ∷ s) v ne h lt = rw h (ground arith)

-- A number below the limit is read back from its decimal print.
pub parse_uint-format_uint : (limit n : ℕ) → n < limit → parse_uint limit (format_uint n) ≡ some n
unfolding format_uint
parse_uint-format_uint limit n h = parse_uint-scan limit _ n (digits-ne-nil n n) whole h
  where
    whole : scan 0 (digits (suc n) n) ≡ some n
    whole = ground (arith, append-nil (digits (suc n) n), scan-digits (suc n) n [], scan-nil n)

digits-All : (P : ℕ → Type 0) (f n : ℕ) → ((d : ℕ) → d < 10 → P (48 + d)) → All P (digits f n)
unfolding digits
digits-All P zero n h = tt
digits-All P (suc f) n h = elim (Bool-cases (ltb n 10)) [
  | inl small ↦ rw small (h n (ltb→lt n 10 small), tt)
  | inr large ↦ rw large (
      All-append P (digits f (n / 10)) ((48 + n % 10) ∷ []) (digits-All P f (n / 10) h)
        (h (n % 10) (omega arith), tt))
]

-- What holds of every digit holds of every byte that is printed.
pub format_uint-All :
    (P : ℕ → Type 0) (n : ℕ) → ((d : ℕ) → d < 10 → P (48 + d)) → All P (format_uint n)
unfolding format_uint
format_uint-All P n h = digits-All P (suc n) n h

-- No byte that is not a digit is printed.
pub format_uint-Lacks : (sep n : ℕ) → is_digit sep ≡ false → Lacks sep (format_uint n)
unfolding is_digit
format_uint-Lacks sep n h = format_uint-All (λ c. c ≢ sep) n (λ d lt. ground arith)

pub format_uint-ne-nil : (n : ℕ) → format_uint n ≢ []
unfolding format_uint
format_uint-ne-nil n = digits-ne-nil n n

-- What is read is below the limit.
pub parse_uint-lt : (limit : ℕ) (s : Bytes) (v : ℕ) → parse_uint limit s ≡ some v → v < limit
unfolding parse_uint
parse_uint-lt limit [] v h = cc
parse_uint-lt limit (c ∷ s) v h = ground arith
