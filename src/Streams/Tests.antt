-- ===== src/Streams/Tests.antt =====
-- A server with one product in two versions.
use mercuryc.Base.{
  ℕ, ◌+◌, Bytes, List, [], ◌∷◌, ◌++◌, Option, none, some, Bool, true, false, not, ◌≡◌, refl, codes,
  length, bytes_eq, if◌then◌else◌,
}
use mercuryc.Base.Dict.{find}
use mercuryc.Streams.{Item, Version, Product, Image, Download, less, to_apollo}
use mercuryc.Streams.Aliases.{apply_aliases, default_os_of}
use mercuryc.Streams.Client.{
  Net, SimpleStreams, refused, whole, get_files, get_image, get_alias, download,
}
use mercuryc.Streams.Proofs.Aliases.{first_offer, AllResolve, apply_aliases_lem}
use mercuryc.Streams.Proofs.Order.{less_lem}
use mercuryc.Streams.Proofs.Files.{has_hash, download_lem}
use mercuryc.Streams.Proofs.Served.{all_served, to_apollo-all_served}

abbrev item : Bytes → Bytes → Bytes → Item
item kind path fingerprint = record {
  path = path;
  file_type = kind;
  hash_sha256 = codes "h" ++ path;
  combined_sha256 = [];
  combined_rootxz_sha256 = fingerprint;
  combined_squashfs_sha256 = [];
  size = 40;
}

abbrev version : Bytes → Version
version fingerprint = record {
  label = codes "release";
  items =
      (codes "a", item (codes "apollo.tar.xz") (codes "x/" ++ fingerprint) fingerprint)
      ∷ (codes "b", item (codes "root.tar.xz") (codes "y/" ++ fingerprint) [])
      ∷ [];
}

abbrev product : Product
product = record {
  aliases = codes "ubuntu/xenial,16.04";
  architecture = codes "amd64";
  operating_system = codes "ubuntu";
  release = codes "xenial";
  release_title = codes "16.04";
  supported_eol = [];
  version = codes "16.04";
  versions =
      (codes "20170101", version (codes "aaa"))
      ∷ (codes "20170103", version (codes "abb"))
      ∷ (codes "bad", version (codes "c"))
      ∷ [];
}

-- The last digit of a day counts the days.
abbrev day : Bool → Bytes → Option ℕ
day dashed [] = none
day dashed (c ∷ []) = some c
day dashed (c ∷ d ∷ s) = day dashed (d ∷ s)

abbrev insert : Image → List Image → List Image
insert a [] = a ∷ []
insert a (b ∷ images) = let rest = insert a images in if less a b then a ∷ b ∷ images else b ∷ rest

abbrev insertion_sort : List Image → List Image
insertion_sort [] = []
insertion_sort (a ∷ images) = insert a (insertion_sort images)

abbrev net : Net
net = record {
  index = some (
      record { data_type = codes "image-downloads"; path = codes "m"; products = codes "p" ∷ [] }
      ∷ []);
  manifest = λ path. some ((codes "p", product) ∷ []);
  fetch = λ url. if bytes_eq url (codes "https://s/x/abb") then whole (codes "x/abb") else refused;
  creates = true;
  sha256 = λ body. codes "h" ++ body;
  parse_time = day;
  sort = insertion_sort;
  local = codes "x86_64";
}

abbrev client : SimpleStreams
client = record {
  url = codes "https://s";
  cached_index = none;
  cached_manifest = [];
  cached_images = none;
}

abbrev images : List Image
images = (to_apollo day ((codes "p", product) ∷ [])).0

two_images : length images ≡ 2
unfolding to_apollo mercuryc.Arch.architecture_id bytes_eq mercuryc.Base.string_in_slice
    mercuryc.Arch.architecture_name mercuryc.Base.split
two_images = refl

-- The newest image has the aliases.
alias_newest : (get_alias net client (codes "16.04")).1 ≡ some (codes "abb")
unfolding get_alias bytes_eq find apply_aliases to_apollo mercuryc.Arch.architecture_id
    mercuryc.Base.string_in_slice mercuryc.Arch.architecture_name mercuryc.Base.split less
    mercuryc.Base.Dict.put mercuryc.Base.has_prefix
alias_newest = refl

-- Of two images that match, GetImage takes none and GetFiles the first.
ambiguous_image : (get_image net client (codes "a")).1 ≡ none
unfolding get_image bytes_eq find apply_aliases to_apollo mercuryc.Arch.architecture_id
    mercuryc.Base.string_in_slice mercuryc.Arch.architecture_name mercuryc.Base.split less
    mercuryc.Base.has_prefix
ambiguous_image = refl

ambiguous_files : (download net client (codes "a") (codes "meta") none).2 ≡ false
unfolding download bytes_eq find to_apollo mercuryc.Arch.architecture_id
    mercuryc.Base.string_in_slice mercuryc.Arch.architecture_name mercuryc.Base.split
    mercuryc.Base.has_prefix mercuryc.Base.Dict.put
ambiguous_files = refl

to_apollo-all_served_example :
    let r = to_apollo day ((codes "p", product) ∷ []) in all_served r.1 r.0 ≡ true
to_apollo-all_served_example = to_apollo-all_served day ((codes "p", product) ∷ [])

abbrev cloud : Bytes
cloud = codes "https://cloud-images.ubuntu.com/releases"

apply_aliases_example :
    let r = apply_aliases insertion_sort (codes "x86_64") cloud images in
    ((n : Bytes)
      → find n r.1 ≡ first_offer (default_os_of cloud) (codes "x86_64") n (insertion_sort images))
    × AllResolve r.0 r.1
apply_aliases_example = apply_aliases_lem insertion_sort (codes "x86_64") cloud images

-- An image of a day.
abbrev of_day : ℕ → Image
of_day n = record {
  aliases = [];
  architecture = codes "x86_64";
  size = 1;
  created_at = n;
  expires_at = 0;
  filename = codes "f";
  fingerprint = codes "e";
  properties = (codes "os", codes "ubuntu") ∷ [];
}

less_example :
    (less (of_day 3) (of_day 1) ≡ true)
    × (less (of_day 2) (of_day 3) ≡ false)
    × (less (of_day 1) (of_day 3) ≡ false)
    × (less (of_day 3) (of_day 3) ≡ false)
unfolding less bytes_eq find
less_example = less_lem (of_day 3) (of_day 2) (of_day 1) refl refl refl refl refl

download_example :
    (files : List (Bytes × Download)) × (file : Download) × ((get_files net client (codes "abb")).1
      ≡ some files)
    × (find (codes "meta") files ≡ some file)
    × (has_hash net file.sha256 (download net client (codes "abb") (codes "meta") none).1 ≡ true)
unfolding download bytes_eq find to_apollo mercuryc.Arch.architecture_id
    mercuryc.Base.string_in_slice mercuryc.Arch.architecture_name mercuryc.Base.split
    mercuryc.Base.has_prefix mercuryc.Base.Dict.put
download_example = download_lem net client (codes "abb") (codes "meta") none refl
