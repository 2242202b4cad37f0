-- ===== src/Streams/Proofs/Aliases.antt =====
-- The aliases of a server.
use mercuryc.Base.{
  Bytes, List, [], ◌∷◌, Option, none, some, Bool, true, false, ◌||◌, ◌≡◌, arith, if◌then◌else◌,
  bytes_eq, bytes_eq→eq, bytes_eq_refl, string_in_slice, string_in_slice-append,
}
use mercuryc.Base.Dict.{find, find-put}
use mercuryc.Streams.{Image}
use mercuryc.Streams.Aliases.{
  alias_name, add_alias, add_aliases, offered_for, entries_loop, images_loop, apply_aliases,
  default_os_of,
}

-- Is this one of the names of a list, as they are kept?
abbrev is_offered : Bytes → Bytes → List Bytes → Bool
is_offered default_os n [] = false
is_offered default_os n (name ∷ names) =
    bytes_eq (alias_name default_os name) n || is_offered default_os n names

-- Does an image offer a name for one of the entries?
abbrev pub offers : Bytes → Bytes → Bytes → Image → List Bytes → Bool
offers default_os local n image [] = false
offers default_os local n image (entry ∷ entries) =
    is_offered default_os n (offered_for local image entry)
    || offers default_os local n image entries

-- The fingerprint of the first image that offers a name.
unfoldable pub first_offer : Bytes → Bytes → Bytes → List Image → Option Bytes
first_offer default_os local n [] = none
first_offer default_os local n (image ∷ images) =
    if offers default_os local n image image.aliases
    then some image.fingerprint
    else first_offer default_os local n images

-- What is there, else something new.
abbrev or_else : Option Bytes → Option Bytes → Option Bytes
or_else none new = new
or_else (some f) new = some f

add_alias-find :
    (d f name n : Bytes) (aliases : List (Bytes × Bytes)) (own : List Bytes)
    → find n (add_alias d f name (aliases, own)).0
      ≡ or_else (find n aliases) (if bytes_eq (alias_name d name) n then some f else none)
unfolding add_alias
add_alias-find d f name n aliases own =
    ground (arith, find-put (alias_name d name) n f aliases, bytes_eq→eq (alias_name d name) n)

add_aliases-find :
    (d f n : Bytes) (names : List Bytes) (aliases : List (Bytes × Bytes)) (own : List Bytes)
    → find n (add_aliases d f names (aliases, own)).0
      ≡ or_else (find n aliases) (if is_offered d n names then some f else none)
add_aliases-find d f n [] aliases own = ground arith
add_aliases-find d f n (name ∷ names) aliases own =
    let next = add_alias d f name (aliases, own) in
    ground
      (arith, add_alias-find d f name n aliases own, add_aliases-find d f n names next.0 next.1)

entries_loop-find :
    (d local n : Bytes) (image : Image) (entries : List Bytes) (aliases : List (Bytes × Bytes))
    (own : List Bytes)
    → find n (entries_loop d local image entries (aliases, own)).0
      ≡ or_else
          (find n aliases)
          (if offers d local n image entries then some image.fingerprint else none)
unfolding entries_loop
entries_loop-find d local n image [] aliases own = ground arith
entries_loop-find d local n image (entry ∷ entries) aliases own =
    let names = offered_for local image entry in
    let next = add_aliases d image.fingerprint names (aliases, own) in
    ground (
      arith,
      add_aliases-find d image.fingerprint n names aliases own,
      entries_loop-find d local n image entries next.0 next.1,
    )

images_loop-find :
    (d local n : Bytes) (images : List Image) (aliases : List (Bytes × Bytes))
    → find n (images_loop d local images aliases).1
      ≡ or_else (find n aliases) (first_offer d local n images)
unfolding images_loop first_offer
images_loop-find d local n [] aliases = ground arith
images_loop-find d local n (image ∷ images) aliases = ground (
  arith,
  entries_loop-find d local n image image.aliases aliases [],
  images_loop-find d local n images (entries_loop d local image image.aliases (aliases, [])).0,
)

-- Each name of a list is an alias of the fingerprint.
abbrev ResolvesTo : Bytes → List Bytes → List (Bytes × Bytes) → Type 0
ResolvesTo f own aliases = (n : Bytes) → string_in_slice n own ≡ true → find n aliases ≡ some f

add_alias-ResolvesTo :
    (d f name : Bytes) (aliases : List (Bytes × Bytes)) (own : List Bytes)
    → ResolvesTo f own aliases
    → ResolvesTo f (add_alias d f name (aliases, own)).1 (add_alias d f name (aliases, own)).0
unfolding add_alias
add_alias-ResolvesTo d f name aliases own h n = ground (
  arith,
  h n,
  find-put (alias_name d name) n f aliases,
  string_in_slice-append n own (alias_name d name),
  bytes_eq→eq (alias_name d name) n,
)

add_aliases-ResolvesTo :
    (d f : Bytes) (names : List Bytes) (aliases : List (Bytes × Bytes)) (own : List Bytes)
    → ResolvesTo f own aliases
    → ResolvesTo f (add_aliases d f names (aliases, own)).1 (add_aliases d f names (aliases, own)).0
add_aliases-ResolvesTo d f [] aliases own h = h
add_aliases-ResolvesTo d f (name ∷ names) aliases own h =
    let next = add_alias d f name (aliases, own) in
    add_aliases-ResolvesTo d f names next.0 next.1 (add_alias-ResolvesTo d f name aliases own h)

entries_loop-ResolvesTo :
    (d local : Bytes) (image : Image) (entries : List Bytes) (aliases : List (Bytes × Bytes))
    (own : List Bytes)
    → ResolvesTo image.fingerprint own aliases
    → ResolvesTo image.fingerprint
        (entries_loop d local image entries (aliases, own)).1
        (entries_loop d local image entries (aliases, own)).0
unfolding entries_loop
entries_loop-ResolvesTo d local image [] aliases own h = h
entries_loop-ResolvesTo d local image (entry ∷ entries) aliases own h =
    let names = offered_for local image entry in
    let next = add_aliases d image.fingerprint names (aliases, own) in
    entries_loop-ResolvesTo d local image entries next.0 next.1
      (add_aliases-ResolvesTo d image.fingerprint names aliases own h)

ResolvesTo-empty : (f : Bytes) (aliases : List (Bytes × Bytes)) → ResolvesTo f [] aliases
unfolding string_in_slice
ResolvesTo-empty f aliases n m = ground arith

-- Each name of a list is an alias of the fingerprint, name by name.
abbrev AllNamed : Bytes → List Bytes → List (Bytes × Bytes) → Type 0
AllNamed f [] aliases = Unit
AllNamed f (n ∷ own) aliases = (find n aliases ≡ some f) × AllNamed f own aliases

ResolvesTo-AllNamed :
    (f : Bytes) (own : List Bytes) (aliases : List (Bytes × Bytes))
    → ResolvesTo f own aliases
    → AllNamed f own aliases
unfolding string_in_slice
ResolvesTo-AllNamed f [] aliases h = tt
ResolvesTo-AllNamed f (n ∷ own) aliases h = (
  h n (ground (arith, bytes_eq_refl n)),
  ResolvesTo-AllNamed f own aliases (λ m e. h m (ground arith)),
)

-- Each alias in the list of an image is an alias of its fingerprint.
abbrev pub AllResolve : List Image → List (Bytes × Bytes) → Type 0
AllResolve [] aliases = Unit
AllResolve (image ∷ images) aliases =
    AllNamed image.fingerprint image.aliases aliases × AllResolve images aliases

images_loop-AllResolve :
    (d local : Bytes) (images : List Image) (aliases : List (Bytes × Bytes))
    → AllResolve (images_loop d local images aliases).0 (images_loop d local images aliases).1
unfolding images_loop
images_loop-AllResolve d local [] aliases = tt
images_loop-AllResolve d local (image ∷ images) aliases =
    let next = (entries_loop d local image image.aliases (aliases, [])).0 in
    (
      ResolvesTo-AllNamed image.fingerprint
          (entries_loop d local image image.aliases (aliases, [])).1 _
          (λ n m. ground (
            arith,
            entries_loop-ResolvesTo d local image image.aliases aliases []
                (ResolvesTo-empty image.fingerprint aliases) n m,
            images_loop-find d local n images next,
          )),
      images_loop-AllResolve d local images next,
    )

-- An alias of the server names the first image, in the order of the sort, that offers its name, and a name
-- that none offers is no alias; and each alias in the list of an image is the server's alias of that image.
pub apply_aliases_lem :
    (sort : List Image → List Image) (local url : Bytes) (images : List Image)
    → let r = apply_aliases sort local url images in
      ((n : Bytes) → find n r.1 ≡ first_offer (default_os_of url) local n (sort images))
      × AllResolve r.0 r.1
unfolding apply_aliases find
apply_aliases_lem sort local url images = (
  λ n. images_loop-find (default_os_of url) local n (sort images) [],
  images_loop-AllResolve (default_os_of url) local (sort images) [],
)
