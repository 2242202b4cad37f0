-- ===== src/Cli/Proofs.antt =====
-- What the client makes of the names of remotes and of filters.
use mercuryc.Base.{
  ℕ, Bytes, List, [], ◌∷◌, ◌++◌, none, some, Bool, true, false, ◌&&◌, not, ◌==◌, ◌≡◌, arith, refl,
  string_in_slice, split_two, ◌||◌, if◌then◌else◌, bytes_eq, has_prefix,
}
use mercuryc.Cli.{
  Config, parse_remote, Container, Regexp, found, missing, dot_prefix_match, regexp_value,
  config_loop, config_verdict, name_verdict, verdict, should_show,
}
use mercuryc.Device.{get}

-- Is the byte missing from the text?
abbrev pub lacks : ℕ → Bytes → Bool
lacks b [] = true
lacks b (c ∷ s) = not (c == b) && lacks b s

split_two-append :
    (sep : ℕ) (s t : Bytes) → lacks sep s ≡ true → split_two sep (s ++ sep ∷ t) ≡ (s, some t)
unfolding split_two
split_two-append sep [] t h = ground arith
split_two-append sep (c ∷ s) t h = ground (arith, split_two-append sep s t)

split_two-lacks : (sep : ℕ) (s : Bytes) → lacks sep s ≡ true → split_two sep s ≡ (s, none)
unfolding split_two
split_two-lacks sep [] h = refl
split_two-lacks sep (c ∷ s) h = ground (arith, split_two-lacks sep s)

-- A known remote without a colon in its name, a colon and any object are read as this remote and this object;
-- and a text without a colon is an object of the default remote.
pub parse_remote_lem :
    (c : Config) (remote object plain : Bytes)
    → lacks b':' remote ≡ true
    → string_in_slice remote c.remotes ≡ true
    → lacks b':' plain ≡ true
    → (parse_remote c (remote ++ b':' ∷ object) ≡ some (remote, object))
      × (parse_remote c plain ≡ some (c.default_remote, plain))
unfolding parse_remote
parse_remote_lem c remote object plain h k l = (
  ground (arith, split_two-append b':' remote object h),
  ground (arith, split_two-lacks b':' plain l),
)

-- Some entry has a key whose parts begin with those of the given one, and a value that matches.
abbrev pub any_match : (Bytes → Bool) → Bytes → List (Bytes × Bytes) → Bool
any_match matches key [] = false
any_match matches key ((k, v) ∷ config) =
    (dot_prefix_match key k && matches v) || any_match matches key config

config_loop-any_match :
    (regexp : Regexp) (matches : Bytes → Bool) (key value : Bytes) (config : List (Bytes × Bytes))
    → regexp (regexp_value value) ≡ some matches
    → config_loop regexp key value config
      ≡ (if any_match matches key config then found else missing)
unfolding config_loop
config_loop-any_match regexp matches key value [] h = refl
config_loop-any_match regexp matches key value ((k, v) ∷ config) h =
    ground (arith, h, config_loop-any_match regexp matches key value config h)

-- Take filters that stand for regular expressions. With a filter key=value, the container is shown at once
-- if it has exactly this value under exactly this key; else an entry is needed whose key is one that the
-- filter's key shortens and whose value the expression matches, and the other filters decide. With a filter
-- without an equals sign, it is shown at once if the expression matches its name; else its name has to begin
-- with the filter, and the other filters decide.
pub should_show_lem :
    (regexp : Regexp) (c : Container) (key value plain : Bytes) (filters : List Bytes)
    (matches name_matches : Bytes → Bool)
    → lacks b'=' key ≡ true
    → lacks b'=' plain ≡ true
    → regexp (regexp_value value) ≡ some matches
    → regexp (regexp_value plain) ≡ some name_matches
    → (should_show regexp c ((key ++ b'=' ∷ value) ∷ filters)
        ≡ bytes_eq (get key c.expanded_config) value
          || (any_match matches key c.expanded_config && should_show regexp c filters))
      × (should_show regexp c (plain ∷ filters)
          ≡ name_matches c.name || (has_prefix c.name plain && should_show regexp c filters))
unfolding should_show verdict name_verdict config_verdict
should_show_lem regexp c key value plain filters matches name_matches k p h n = (
  ground (
    arith,
    split_two-append b'=' key value k,
    config_loop-any_match regexp matches key value c.expanded_config h,
  ),
  ground (arith, n, split_two-lacks b'=' plain p),
)
