-- ===== src/Container/Raw.antt =====
-- The check of raw settings in apollo/container_mercury.go.
use mercuryc.Base.{
  ℕ, Bytes, List, [], ◌∷◌, none, some, Bool, true, false, ◌&&◌, ◌||◌, ◌==◌, if◌then◌else◌, codes,
  bytes_eq, is_empty, string_in_slice, has_prefix, split, split_two, to_lower,
}

abbrev pub is_blank : ℕ → Bool
is_blank c = c == b' ' || c == 9

-- strings.TrimLeft of blanks and tabs, and strings.Trim.
unfoldable pub trim_left : Bytes → Bytes
trim_left [] = []
trim_left (c ∷ s) = let rest = trim_left s in if is_blank c then rest else c ∷ s

unfoldable pub trim_right : Bytes → Bytes
trim_right [] = []
trim_right (c ∷ s) = let rest = trim_right s in if is_blank c && is_empty rest then [] else c ∷ rest

-- Whether the fields of an interface's key are an address or a gateway.
unfoldable pub valid_fields : List Bytes → Bool
valid_fields (a ∷ b ∷ c ∷ d ∷ []) = string_in_slice d (codes "ipv4" ∷ codes "ipv6" ∷ [])
valid_fields (a ∷ b ∷ c ∷ d ∷ e ∷ []) =
    string_in_slice d (codes "ipv4" ∷ codes "ipv6" ∷ []) && bytes_eq e (codes "gateway")
valid_fields _ = false

abbrev pub blacklist : List Bytes
blacklist = codes "mercury.logfile" ∷ codes "mercury.syslog" ∷ codes "mercury.ephemeral" ∷ []

-- The checks of a key; `recent` is whether the runtime's version is at least 2.1.0.
unfoldable pub valid_key : Bool → Bytes → Bool
unfolding valid_fields
valid_key recent key =
    if string_in_slice key blacklist
    then false
    else if has_prefix key (if recent then codes "mercury.net." else codes "mercury.network.")
    then valid_fields (split key b'.')
    else true

unfoldable pub valid_line : Bool → Bytes → Bool
unfolding trim_left trim_right valid_key
valid_line recent line =
    let trimmed = trim_left line in
    if is_empty line || has_prefix trimmed (codes "#")
    then true
    else (let (before, behind) = split_two b'=' trimmed in
        elim behind [
          | none ↦ false
          | some value ↦ valid_key recent (to_lower (trim_right (trim_left before)))
        ])

unfoldable pub valid_lines : Bool → List Bytes → Bool
unfolding valid_line
valid_lines recent [] = true
valid_lines recent (line ∷ lines) = valid_line recent line && valid_lines recent lines

-- mercuryValidConfig
unfoldable pub mercury_valid_config : Bool → Bytes → Bool
unfolding valid_lines
mercury_valid_config recent raw = valid_lines recent (split raw 10)
