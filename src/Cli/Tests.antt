-- ===== src/Cli/Tests.antt =====
-- The remotes and the container of mercury/list_test.go.
use Prim.Native.String.{String}
use mercuryc.Base.{
  Bytes, List, [], ◌∷◌, ◌++◌, Option, none, some, Bool, true, false, ◌≡◌, refl, codes, bytes_eq,
  ◌||◌, ◌&&◌, has_prefix, Bool,
}
use mercuryc.Cli.{Config, parse_remote, Container, Regexp, should_show, dot_prefix_match}
use mercuryc.Cli.Proofs.{parse_remote_lem, any_match, should_show_lem}
use mercuryc.Device.{get}

abbrev config : Config
config = record { default_remote = codes "local"; remotes = codes "local" ∷ codes "images" ∷ [] }

parse_remote_example :
    (parse_remote config (codes "images" ++ b':' ∷ codes "a:b")
      ≡ some (codes "images", codes "a:b"))
    × (parse_remote config (codes "c1") ≡ some (codes "local", codes "c1"))
unfolding mercuryc.Base.string_in_slice bytes_eq
parse_remote_example =
    parse_remote_lem config (codes "images") (codes "a:b") (codes "c1") refl refl refl

-- Expressions without operators.
abbrev literal : Regexp
literal s = some (λ t. bytes_eq s (codes "^" ++ t ++ codes "$"))

abbrev is_text : String → Bytes → Bool
is_text s t = bytes_eq (codes "^" ++ codes s ++ codes "$") (codes "^" ++ t ++ codes "$")

abbrev foo : Container
foo = record {
  name = codes "foo";
  expanded_config =
      (codes "security.privileged", codes "1") ∷ (codes "user.blah", codes "abc") ∷ [];
}

prefix_key : dot_prefix_match (codes "s.privileged") (codes "security.privileged") ≡ true
unfolding dot_prefix_match mercuryc.Base.split mercuryc.Base.has_prefix
prefix_key = refl

short_key : should_show literal foo (codes "u.blah=abc" ∷ []) ≡ true
unfolding should_show mercuryc.Base.split_two mercuryc.Base.split mercuryc.Base.has_prefix bytes_eq
    mercuryc.Base.contains_text mercuryc.Device.get
short_key = refl

other_name : should_show literal foo (codes "bar" ∷ codes "u.blah=abc" ∷ []) ≡ false
unfolding should_show mercuryc.Base.split_two bytes_eq mercuryc.Base.contains_text
other_name = refl

-- The second filter alone hides the container.
other_value : should_show literal foo (codes "u.blah=other" ∷ []) ≡ false
unfolding should_show mercuryc.Base.split_two mercuryc.Base.split mercuryc.Base.has_prefix bytes_eq
    mercuryc.Base.contains_text mercuryc.Device.get
other_value = refl

exact_name_first : should_show literal foo (codes "foo" ∷ codes "u.blah=other" ∷ []) ≡ true
unfolding should_show mercuryc.Base.split_two bytes_eq mercuryc.Base.contains_text
exact_name_first = refl

should_show_example :
    (should_show literal foo ((codes "u.blah" ++ b'=' ∷ codes "abc") ∷ codes "fo" ∷ [])
      ≡ bytes_eq (get (codes "u.blah") foo.expanded_config) (codes "abc")
        || (any_match (is_text "abc") (codes "u.blah") foo.expanded_config
            && should_show literal foo (codes "fo" ∷ [])))
    × (should_show literal foo (codes "fo" ∷ codes "fo" ∷ [])
        ≡ is_text "fo" (codes "foo")
          || (has_prefix (codes "foo") (codes "fo") && should_show literal foo (codes "fo" ∷ [])))
unfolding mercuryc.Cli.regexp_value mercuryc.Base.contains_text
should_show_example =
    should_show_lem literal foo (codes "u.blah") (codes "abc") (codes "fo") (codes "fo" ∷ [])
      (is_text "abc") (is_text "fo") refl refl refl refl
