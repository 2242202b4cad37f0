-- ===== src/Streams.antt =====
-- The images of a simple streams server: shared/simplestreams/simplestreams.go ToAPOLLO and ssSortImage.
pub mod Aliases
pub mod Client
pub mod Proofs
mod Tests
use mercuryc.Base.{
  ℕ, ◌+◌, ◌%◌, ◌^◌, Bytes, List, [], ◌∷◌, ◌++◌, Option, none, some, Bool, true, false, ◌&&◌, ◌||◌,
  not, ltb, leb, ◌==◌, ◌>>=◌, if◌then◌else◌, codes, bytes_eq, string_in_slice, split, has_prefix,
  is_empty, length, take, drop,
}
use mercuryc.Base.Dict.{find, put, is_some}
use mercuryc.Arch.{architecture_id, architecture_name}

-- SimpleStreamsManifestProductVersionItem; a size is the pattern of its 64 bits.
pub record Item : Type 0 where
  pub path : Bytes
  pub file_type : Bytes
  pub hash_sha256 : Bytes
  pub combined_sha256 : Bytes
  pub combined_rootxz_sha256 : Bytes
  pub combined_squashfs_sha256 : Bytes
  pub size : ℕ

-- SimpleStreamsManifestProductVersion; as in each map here, the entries stand in the order of `range`.
pub record Version : Type 0 where
  pub label : Bytes
  pub items : List (Bytes × Item)

-- SimpleStreamsManifestProduct
pub record Product : Type 0 where
  pub aliases : Bytes
  pub architecture : Bytes
  pub operating_system : Bytes
  pub release : Bytes
  pub release_title : Bytes
  pub supported_eol : Bytes
  pub version : Bytes
  pub versions : List (Bytes × Version)

-- api.Image; a time is its seconds of Unix, and 0 if these are negative. UploadedAt is CreatedAt.
pub record Image : Type 0 where
  pub aliases : List Bytes
  pub architecture : Bytes
  pub size : ℕ
  pub created_at : ℕ
  pub expires_at : ℕ
  pub filename : Bytes
  pub fingerprint : Bytes
  pub properties : List (Bytes × Bytes)

-- A file of an image: path, hash, kind and size.
pub record Download : Type 0 where
  pub path : Bytes
  pub sha256 : Bytes
  pub kind : Bytes
  pub size : ℕ

-- Property k, the empty text without it.
abbrev pub property : Image → Bytes → Bytes
property image k = elim (find k image.properties) [ none ↦ [] | some v ↦ v ]

-- Go's order of texts.
unfoldable pub text_ltb : Bytes → Bytes → Bool
text_ltb s [] = false
text_ltb [] (b ∷ t) = true
text_ltb (a ∷ s) (b ∷ t) = ltb a b || (a == b && text_ltb s t)

-- The order of two different names: the empty one is last.
unfoldable pub name_before : Bytes → Bytes → Bool
unfolding text_ltb
name_before s t = if is_empty s then false else if is_empty t then true else text_ltb s t

-- The order of two images of a release: an image without a time, then the newest.
unfoldable pub newer : Image → Image → Bool
unfolding text_ltb
newer a b =
    if a.created_at == 0
    then true
    else if b.created_at == 0
    then false
    else if a.created_at == b.created_at
    then text_ltb (property b (codes "serial")) (property a (codes "serial"))
    else ltb b.created_at a.created_at

-- ssSortImage.Less
unfoldable pub less : Image → Image → Bool
unfolding name_before newer
less a b =
    if bytes_eq (property a (codes "os")) (property b (codes "os"))
    then (if bytes_eq (property a (codes "release")) (property b (codes "release"))
        then newer a b
        else name_before (property a (codes "release")) (property b (codes "release")))
    else name_before (property a (codes "os")) (property b (codes "os"))

abbrev pub no_item : Item
no_item = record {
  path = [];
  file_type = [];
  hash_sha256 = [];
  combined_sha256 = [];
  combined_rootxz_sha256 = [];
  combined_squashfs_sha256 = [];
  size = 0;
}

-- The three files of a version that matter.
pub record Found : Type 0 where
  pub meta : Item
  pub root_tar : Item
  pub root_squash : Item

unfoldable pub sort_item : Item → Found → Found
sort_item item found =
    if bytes_eq item.file_type (codes "apollo.tar.xz")
    then record found { meta = item }
    else if bytes_eq item.file_type (codes "squashfs")
    then record found { root_squash = item }
    else if bytes_eq item.file_type (codes "root.tar.xz")
    then record found { root_tar = item }
    else found

unfoldable pub find_items : List (Bytes × Item) → Found → Found
unfolding sort_item
find_items [] found = found
find_items ((name, item) ∷ items) found = find_items items (sort_item item found)

-- The root file that is taken, and the fingerprint that goes with it.
unfoldable pub root_of : Found → Item × Bytes
root_of found =
    if not (is_empty found.root_squash.file_type)
    then (
      found.root_squash,
      if not (is_empty found.meta.combined_squashfs_sha256)
          then found.meta.combined_squashfs_sha256
          else found.meta.combined_sha256,
    )
    else (
      found.root_tar,
      if not (is_empty found.meta.combined_rootxz_sha256)
          then found.meta.combined_rootxz_sha256
          else found.meta.combined_sha256,
    )

abbrev pub last_text : List Bytes → Bytes
last_text [] = []
last_text (s ∷ []) = s
last_text (s ∷ t ∷ rest) = last_text (t ∷ rest)

-- The properties that are set.
unfoldable pub set_properties : List (Bytes × Bytes) → List (Bytes × Bytes)
set_properties [] = []
set_properties ((k, v) ∷ m) =
    let rest = set_properties m in if is_empty v then rest else (k, v) ∷ rest

abbrev pub describe : Product → Version → Bytes → Bytes
describe product version name =
    let text =
      product.operating_system
      ++ codes " "
      ++ product.release_title
      ++ codes " "
      ++ product.architecture in
    let labelled =
      if is_empty version.label then text else text ++ codes " (" ++ version.label ++ codes ")" in
    labelled ++ codes " (" ++ name ++ codes ")"

-- The image entry of a version, and its two files.
unfoldable pub image_entry :
    (Bool → Bytes → Option ℕ)
    → Bytes
    → Product
    → Bytes
    → Version
    → ℕ
    → Found
    → Image × List Download
unfolding root_of set_properties
image_entry parse_time arch product name version created found = (
  record {
    aliases = if is_empty product.aliases then [] else split product.aliases 44;
    architecture = arch;
    size = (found.meta.size + (root_of found).0.size) % 2 ^ 64;
    created_at = created;
    expires_at =
        (if is_empty product.supported_eol
          then 0
          else elim (parse_time true product.supported_eol) [ none ↦ 0 | some t ↦ t ]);
    filename = last_text (split found.meta.path 47);
    fingerprint = (root_of found).1;
    properties = set_properties (
        (codes "os", product.operating_system)
        ∷ (codes "release", product.release)
        ∷ (codes "version", product.version)
        ∷ (codes "architecture", product.architecture)
        ∷ (codes "label", version.label)
        ∷ (codes "serial", name)
        ∷ (codes "description", describe product version name)
        ∷ []);
  },
  record {
    path = found.meta.path;
    sha256 = found.meta.hash_sha256;
    kind = codes "meta";
    size = found.meta.size;
  }
      ∷ record {
        path = (root_of found).0.path;
        sha256 = (root_of found).0.hash_sha256;
        kind = codes "root";
        size = (root_of found).0.size;
      }
      ∷ [],
)

-- Are the metadata and a root file there?
abbrev is_complete : Found → Bool
is_complete found =
    not (is_empty found.meta.file_type)
    && (not (is_empty found.root_tar.file_type) || not (is_empty found.root_squash.file_type))

-- An image entry is kept if nothing that it needs is missing.
unfoldable pub keep_entry : Found → Image × List Download → Option (Image × List Download)
keep_entry found entry =
    let is_set =
      not (entry.0.size == 0)
      && not (is_empty entry.0.filename)
      && not (is_empty entry.0.fingerprint) in
    if is_complete found && is_set then some entry else none

-- The body of the loop over versions; `parse_time` is time.Parse of a day without or with dashes.
unfoldable pub version_image :
    (Bool → Bytes → Option ℕ) → Bytes → Product → Bytes × Version → Option (Image × List Download)
unfolding find_items image_entry keep_entry
version_image parse_time arch product (name, version) = do
  created ← if ltb (length name) 8 then none else parse_time false (take 8 name)
  let found =
      find_items version.items
        (record { meta = no_item; root_tar = no_item; root_squash = no_item })
  keep_entry found (image_entry parse_time arch product name version created found)

-- The loop over the versions of a product.
unfoldable pub versions_loop :
    (Bool → Bytes → Option ℕ)
    → Bytes
    → Product
    → List (Bytes × Version)
    → List Image × List (Bytes × List Download)
    → List Image × List (Bytes × List Download)
unfolding version_image
versions_loop parse_time arch product [] acc = acc
versions_loop parse_time arch product (v ∷ versions) (images, downloads) =
    elim (version_image parse_time arch product v) [
      | none ↦ versions_loop parse_time arch product versions (images, downloads)
      | some p ↦
          versions_loop parse_time arch product versions
            (images ++ p.0 ∷ [], put p.0.fingerprint p.1 downloads)
    ]

-- The name of an architecture as the table has it.
abbrev pub known_architecture : Bytes → Option Bytes
known_architecture name = elim (architecture_id name) [
  | none ↦ none
  | some id ↦ architecture_name id
]

-- The body of the loop over products: those of an unknown architecture are skipped.
unfoldable pub add_product :
    (Bool → Bytes → Option ℕ)
    → Option Bytes
    → Product
    → List Image × List (Bytes × List Download)
    → List Image × List (Bytes × List Download)
unfolding versions_loop
add_product parse_time none product acc = acc
add_product parse_time (some arch) product acc =
    versions_loop parse_time arch product product.versions acc

unfoldable pub products_loop :
    (Bool → Bytes → Option ℕ)
    → List (Bytes × Product)
    → List Image × List (Bytes × List Download)
    → List Image × List (Bytes × List Download)
unfolding add_product
products_loop parse_time [] acc = acc
products_loop parse_time ((key, product) ∷ products) acc =
    products_loop parse_time products
      (add_product parse_time (known_architecture product.architecture) product acc)

-- ToAPOLLO
unfoldable pub to_apollo :
    (Bool → Bytes → Option ℕ) → List (Bytes × Product) → List Image × List (Bytes × List Download)
unfolding products_loop
to_apollo parse_time products = products_loop parse_time products ([], [])
