-- ===== src/Cli.antt =====
-- The command line client: ParseRemote of mercury/config/remote.go, and the filters of mercury/list.go.
pub mod Proofs
mod Tests
use mercuryc.Base.{
  ℕ, Bytes, List, [], ◌∷◌, ◌++◌, Option, none, some, Bool, true, false, ◌&&◌, ◌||◌, not,
  if◌then◌else◌, codes, bytes_eq, string_in_slice, has_prefix, contains_text, split, split_two,
}
use mercuryc.Device.{get}

-- The names of the remotes in the configuration and the default one.
pub record Config : Type 0 where
  pub default_remote : Bytes
  pub remotes : List Bytes

-- shared.IsSnapshot
unfoldable pub is_snapshot : Bytes → Bool
is_snapshot name = contains_text name (codes "/")

-- ParseRemote; `none` is its error.
unfoldable pub parse_remote : Config → Bytes → Option (Bytes × Bytes)
unfolding is_snapshot
parse_remote c raw =
    let result = split_two b':' raw in
    elim result.1 [
      | none ↦ some (c.default_remote, raw)
      | some object ↦
          if string_in_slice result.0 c.remotes
          then some (result.0, object)
          else if is_snapshot raw && contains_text result.0 (codes "/")
          then some (c.default_remote, raw)
          else none
    ]

-- What the filters read of a container.
pub record Container : Type 0 where
  pub name : Bytes
  pub expanded_config : List (Bytes × Bytes)

-- regexp.Compile and MatchString.
abbrev pub Regexp : Type 0
Regexp = Bytes → Option (Bytes → Bool)

abbrev pub all_prefixes : List Bytes → List Bytes → Bool
all_prefixes [] [] = true
all_prefixes [] (s ∷ short) = false
all_prefixes (f ∷ full) [] = false
all_prefixes (f ∷ full) (s ∷ short) = has_prefix f s && all_prefixes full short

-- dotPrefixMatch
unfoldable pub dot_prefix_match : Bytes → Bytes → Bool
dot_prefix_match short full = all_prefixes (split full b'.') (split short b'.')

-- The expression that a value stands for.
unfoldable pub regexp_value : Bytes → Bytes
regexp_value value =
    if contains_text value (codes "^") || contains_text value (codes "$")
    then value
    else codes "^" ++ value ++ codes "$"

-- What one filter says: the container is shown at once, hidden at once, or it is the next filter's turn.
pub data Verdict : Type 0 where
  shows hides passes : Verdict

-- What the loop over the configuration ends with; `refused` hides the container at once.
pub data Search : Type 0 where
  found missing refused : Search

-- The loop over the configuration.
unfoldable pub config_loop : Regexp → Bytes → Bytes → List (Bytes × Bytes) → Search
unfolding dot_prefix_match regexp_value
config_loop regexp key value [] = missing
config_loop regexp key value ((config_key, config_value) ∷ config) =
    let rest = config_loop regexp key value config in
    if not (dot_prefix_match key config_key) then rest else elim (regexp (regexp_value value)) [
      | none ↦ if bytes_eq value config_value then found else refused
      | some matches ↦ if matches config_value then found else rest
    ]

-- The answer on a filter key=value, from what the loop found.
unfoldable pub config_verdict : Bytes → Bytes → List (Bytes × Bytes) → Search → Verdict
config_verdict key value config refused = hides
config_verdict key value config found = if bytes_eq (get key config) value then shows else passes
config_verdict key value config missing = if bytes_eq (get key config) value then shows else hides

-- The answer on a filter for the name.
unfoldable pub name_verdict : Regexp → Bytes → Bytes → Verdict
unfolding regexp_value
name_verdict regexp filter name =
    let matched : Bool = elim (regexp (regexp_value filter)) [
      | none ↦ false
      | some matches ↦ matches name
    ] in
    if matched then shows else if has_prefix name filter then passes else hides

-- The body of the loop of shouldShow.
unfoldable pub verdict : Regexp → Container → Bytes → Verdict
unfolding config_loop config_verdict name_verdict
verdict regexp c filter =
    let membs = split_two b'=' filter in
    elim membs.1 [
      | none ↦ name_verdict regexp filter c.name
      | some value ↦
          config_verdict membs.0 value c.expanded_config
            (config_loop regexp membs.0 value c.expanded_config)
    ]

-- shouldShow
unfoldable pub should_show : Regexp → Container → List Bytes → Bool
unfolding verdict
should_show regexp c [] = true
should_show regexp c (filter ∷ filters) =
    let rest = should_show regexp c filters in
    elim (verdict regexp c filter) [ shows ↦ true | hides ↦ false | passes ↦ rest ]
