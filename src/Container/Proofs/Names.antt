-- ===== src/Container/Proofs/Names.antt =====
-- Which names the validation accepts.
use mercuryc.Base.{ℕ, Bytes, [], ◌∷◌, Bool, true, false, ◌&&◌, ◌||◌, not, ◌≡◌, codes, arith, refl}
use mercuryc.Base.{leb, length, has_suffix, contains_text}
use mercuryc.Base.Dict.{is_some}
use mercuryc.Strconv.{atoi, parse_int64, is_digit}
use mercuryc.Container.{all_hostname_bytes, valid_hostname, valid_name}

-- The first byte is a letter.
abbrev pub starts_with_letter : Bytes → Bool
starts_with_letter [] = false
starts_with_letter (c ∷ s) = (leb b'a' c && leb c b'z') || (leb b'A' c && leb c b'Z')

atoi_byte : (c : ℕ) → is_some (atoi (c ∷ [])) ≡ is_digit c
unfolding parse_int64
atoi_byte c = ground arith

-- A host name is accepted exactly if it has at most 63 bytes, starts with a letter, does not end in
-- a dash, and has letters, digits and dashes alone.
pub valid_hostname_lem :
    (s : Bytes)
    → valid_hostname s
      ≡ leb (length s) 63
        && (starts_with_letter s && (not (has_suffix s (codes "-")) && all_hostname_bytes s))
unfolding valid_hostname is_digit
valid_hostname_lem [] = refl
valid_hostname_lem (c ∷ s) = ground (arith, atoi_byte c)

no_slash : (s : Bytes) → all_hostname_bytes s ≡ true → contains_text s (codes "/") ≡ false
unfolding all_hostname_bytes contains_text
no_slash [] h = refl
no_slash (c ∷ s) h = ground (arith, no_slash s)

-- A name is accepted for a container exactly if it is a host name: the test for the delimiter of
-- snapshots refuses nothing more.
valid_name_lem : (s : Bytes) → valid_name s ≡ valid_hostname s
unfolding valid_name
valid_name_lem s = ground (arith, valid_hostname_lem s, no_slash s)
