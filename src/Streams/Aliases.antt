-- ===== src/Streams/Aliases.antt =====
-- The aliases of a simple streams server: shared/simplestreams/simplestreams.go applyAliases.
use mercuryc.Base.{
  Bytes, List, [], ◌∷◌, ◌++◌, if◌then◌else◌, codes, bytes_eq, has_prefix, is_empty, length, drop,
}
use mercuryc.Base.Dict.{find, put, is_some}
use mercuryc.Streams.{Image, property}

-- strings.TrimPrefix
unfoldable pub trim_prefix : Bytes → Bytes → Bytes
trim_prefix s p = if has_prefix s p then drop (length p) s else s

-- The name under which addAlias keeps an alias, on a server with a default operating system or without.
unfoldable pub alias_name : Bytes → Bytes → Bytes
unfolding trim_prefix
alias_name default_os name =
    if is_empty default_os then name else trim_prefix name (default_os ++ codes "/")

-- addAlias and the append that follows: the aliases of the server and those of the image.
unfoldable pub add_alias :
    Bytes → Bytes → Bytes → List (Bytes × Bytes) × List Bytes → List (Bytes × Bytes) × List Bytes
unfolding alias_name
add_alias default_os fingerprint name (aliases, own) =
    let n = alias_name default_os name in
    if is_some (find n aliases) then (aliases, own) else (put n fingerprint aliases, own ++ n ∷ [])

-- The names that an image offers for one entry of its list, shortest first.
abbrev pub offered_for : Bytes → Image → Bytes → List Bytes
offered_for local image entry =
    let medium = entry ++ codes "/" ++ property image (codes "architecture") in
    if bytes_eq image.architecture local then entry ∷ medium ∷ [] else medium ∷ []

abbrev pub add_aliases :
    Bytes
    → Bytes
    → List Bytes
    → List (Bytes × Bytes) × List Bytes
    → List (Bytes × Bytes) × List Bytes
add_aliases default_os fingerprint [] acc = acc
add_aliases default_os fingerprint (name ∷ names) acc =
    add_aliases default_os fingerprint names (add_alias default_os fingerprint name acc)

-- The loop over the list of one image.
unfoldable pub entries_loop :
    Bytes
    → Bytes
    → Image
    → List Bytes
    → List (Bytes × Bytes) × List Bytes
    → List (Bytes × Bytes) × List Bytes
unfolding add_alias
entries_loop default_os local image [] acc = acc
entries_loop default_os local image (entry ∷ entries) acc =
    entries_loop default_os local image entries
      (add_aliases default_os image.fingerprint (offered_for local image entry) acc)

unfoldable pub images_loop :
    Bytes → Bytes → List Image → List (Bytes × Bytes) → List Image × List (Bytes × Bytes)
unfolding entries_loop
images_loop default_os local [] aliases = ([], aliases)
images_loop default_os local (image ∷ images) aliases =
    let r = entries_loop default_os local image image.aliases (aliases, []) in
    let rest = images_loop default_os local images r.0 in
    (record image { aliases = r.1 } ∷ rest.0, rest.1)

-- ssDefaultOS
unfoldable pub default_os_of : Bytes → Bytes
default_os_of url =
    if has_prefix url (codes "https://cloud-images.ubuntu.com") then codes "ubuntu" else []

-- applyAliases; `sort` is sort.Sort by `less`, and `local` the name of the machine's architecture.
unfoldable pub apply_aliases :
    (List Image → List Image) → Bytes → Bytes → List Image → List Image × List (Bytes × Bytes)
unfolding images_loop default_os_of
apply_aliases sort local url images = images_loop (default_os_of url) local (sort images) []
