-- ===== src/Container/Proofs/Raw.antt =====
-- Which raw settings are refused.
use mercuryc.Base.{
  ℕ, Bytes, List, [], ◌∷◌, ◌++◌, some, Bool, true, false, not, ◌&&◌, ◌==◌, ◌≡◌, arith, refl,
  if◌then◌else◌, codes, bytes_eq→eq, is_empty, string_in_slice, has_prefix, split, split_two,
  to_lower, lower_byte, append_assoc,
}
use mercuryc.Container.Raw.{
  is_blank, valid_fields, trim_left, trim_right, blacklist, valid_key, valid_line, valid_lines,
  mercury_valid_config,
}

abbrev pub all_blank : Bytes → Bool
all_blank [] = true
all_blank (c ∷ s) = is_blank c && all_blank s

-- The bytes that can stand in a key whatever surrounds it.
abbrev pub is_plain : ℕ → Bool
is_plain c = not (is_blank c) && (not (c == b'=') && not (c == b'#'))

abbrev pub all_plain : Bytes → Bool
all_plain [] = true
all_plain (c ∷ s) = is_plain c && all_plain s

plain-lower_byte : (c : ℕ) → is_plain (lower_byte c) ≡ is_plain c
unfolding lower_byte
plain-lower_byte c = ground arith

all_plain-to_lower : (s : Bytes) → all_plain (to_lower s) ≡ all_plain s
unfolding to_lower
all_plain-to_lower [] = refl
all_plain-to_lower (c ∷ s) = ground (arith, plain-lower_byte c, all_plain-to_lower s)

trim_left-blank : (a s : Bytes) → all_blank a ≡ true → trim_left (a ++ s) ≡ trim_left s
unfolding trim_left
trim_left-blank [] s h = refl
trim_left-blank (c ∷ a) s h = ground (arith, trim_left-blank a s)

trim_right-blank : (b : Bytes) → all_blank b ≡ true → trim_right b ≡ []
unfolding trim_right
trim_right-blank [] h = refl
trim_right-blank (c ∷ b) h = ground (arith, trim_right-blank b)

trim_right-plain :
    (key b : Bytes) → all_plain key ≡ true → all_blank b ≡ true → trim_right (key ++ b) ≡ key
unfolding trim_right
trim_right-plain [] b p h = trim_right-blank b h
trim_right-plain (c ∷ key) b p h = ground (arith, trim_right-plain key b)

-- What stands before the sign of a setting.
abbrev lacks_sign : Bytes → Bool
lacks_sign [] = true
lacks_sign (c ∷ s) = not (c == b'=') && lacks_sign s

split_two-sign :
    (s value : Bytes) → lacks_sign s ≡ true → split_two b'=' (s ++ b'=' ∷ value) ≡ (s, some value)
unfolding split_two
split_two-sign [] value h = ground arith
split_two-sign (c ∷ s) value h = ground (arith, split_two-sign s value)

lacks_sign-append :
    (key b : Bytes) → all_plain key ≡ true → all_blank b ≡ true → lacks_sign (key ++ b) ≡ true
lacks_sign-append [] [] p h = refl
lacks_sign-append [] (c ∷ b) p h = ground (arith, lacks_sign-append [] b refl)
lacks_sign-append (c ∷ key) b p h = ground (arith, lacks_sign-append key b)

-- A line that sets a key, with blanks around the key.
abbrev pub setting : Bytes → Bytes → Bytes → Bytes → Bytes
setting a key b value = a ++ (key ++ (b ++ b'=' ∷ value))

trim_left_plain : (c : ℕ) (s : Bytes) → is_plain c ≡ true → trim_left (c ∷ s) ≡ c ∷ s
unfolding trim_left
trim_left_plain c s h = ground arith

is_empty_behind : (a : Bytes) (c : ℕ) (s : Bytes) → is_empty (a ++ c ∷ s) ≡ false
is_empty_behind [] c s = refl
is_empty_behind (d ∷ a) c s = refl

valid_line-setting :
    (recent : Bool) (a key b value : Bytes)
    → all_blank a ≡ true
    → all_blank b ≡ true
    → all_plain key ≡ true
    → is_empty key ≡ false
    → valid_line recent (setting a key b value) ≡ valid_key recent (to_lower key)
unfolding valid_line has_prefix
valid_line-setting recent a [] b value ha hb hk ne = cc
valid_line-setting recent a (c ∷ key) b value ha hb hk ne = ground (
  arith,
  trim_left-blank a (c ∷ (key ++ (b ++ b'=' ∷ value))) ha,
  trim_left_plain c (key ++ (b ++ b'=' ∷ value)),
  trim_left_plain c (key ++ b),
  is_empty_behind a c (key ++ (b ++ b'=' ∷ value)),
  append_assoc key b (b'=' ∷ value),
  split_two-sign (c ∷ (key ++ b)) value (lacks_sign-append (c ∷ key) b hk hb),
  trim_right-plain (c ∷ key) b hk hb,
)

valid_lines-member :
    (recent : Bool) (line : Bytes) (lines : List Bytes)
    → valid_lines recent lines ≡ true
    → string_in_slice line lines ≡ true
    → valid_line recent line ≡ true
unfolding valid_lines string_in_slice
valid_lines-member recent line [] v h = cc
valid_lines-member recent line (l ∷ lines) v h =
    ground (arith, valid_lines-member recent line lines, bytes_eq→eq l line)

-- Where raw settings are accepted, no line of them, with any case of letters and any blanks around the key,
-- sets a key of the blacklist, and one that sets a key of the network sets an address or a gateway of one
-- interface; the key has no blank, no sign = and no # in it.
pub raw_safe :
    (recent : Bool) (raw a key b value : Bytes)
    → mercury_valid_config recent raw ≡ true
    → string_in_slice (setting a key b value) (split raw 10) ≡ true
    → all_blank a ≡ true
    → all_blank b ≡ true
    → all_plain key ≡ true
    → is_empty key ≡ false
    → (string_in_slice (to_lower key) blacklist ≡ false)
      × (has_prefix
              (to_lower key)
              (if recent then codes "mercury.net." else codes "mercury.network.")
            ≡ true
          → valid_fields (split (to_lower key) b'.') ≡ true)
unfolding mercury_valid_config valid_key
raw_safe recent raw a key b value v h ha hb hk ne =
    let line = valid_lines-member recent (setting a key b value) (split raw 10) v h in
    let same = valid_line-setting recent a key b value ha hb hk ne in
    (ground arith, λ p. ground arith)
