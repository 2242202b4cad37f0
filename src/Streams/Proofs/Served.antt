-- ===== src/Streams/Proofs/Served.antt =====
-- The images that ToAPOLLO lists.
use mercuryc.Base.{
  ℕ, Bytes, List, [], ◌∷◌, ◌++◌, Option, none, some, Bool, true, false, ◌&&◌, not, ltb, ◌==◌, ◌>>=◌,
  ◌≡◌, arith, refl, if◌then◌else◌, bytes_eq, bytes_eq_refl, codes, is_empty, length, take,
}
use mercuryc.Base.Dict.{find, put, find-put}
use mercuryc.Streams.{
  Product, Version, Image, Download, Found, no_item, find_items, known_architecture, image_entry,
  keep_entry, version_image, add_product, versions_loop, products_loop, to_apollo,
}

-- A metadata file and a root file.
abbrev is_split : List Download → Bool
is_split [] = false
is_split (d ∷ []) = false
is_split (d ∷ e ∷ []) = bytes_eq d.kind (codes "meta") && bytes_eq e.kind (codes "root")
is_split (d ∷ e ∷ f ∷ downloads) = false

-- An image is listed with its size, name and fingerprint, and has its two files.
abbrev is_served : List (Bytes × List Download) → Image → Bool
is_served downloads image =
    not (image.size == 0)
    && not (is_empty image.filename)
    && not (is_empty image.fingerprint)
    && elim (find image.fingerprint downloads) [ none ↦ false | some files ↦ is_split files ]

abbrev pub all_served : List (Bytes × List Download) → List Image → Bool
all_served downloads [] = true
all_served downloads (image ∷ images) = is_served downloads image && all_served downloads images

all_served-append :
    (downloads : List (Bytes × List Download)) (images : List Image) (image : Image)
    → all_served downloads (images ++ image ∷ [])
      ≡ all_served downloads images && is_served downloads image
all_served-append downloads [] image = ground arith
all_served-append downloads (i ∷ images) image =
    ground (arith, all_served-append downloads images image)

all_served-put :
    (downloads : List (Bytes × List Download)) (f : Bytes) (files : List Download)
    (images : List Image)
    → is_split files ≡ true
    → all_served downloads images ≡ true
    → all_served (put f files downloads) images ≡ true
all_served-put downloads f files [] p h = refl
all_served-put downloads f files (image ∷ images) p h =
    ground (
      arith,
      find-put f image.fingerprint files downloads,
      all_served-put downloads f files images p,
    )

image_entry-is_split :
    (parse_time : Bool → Bytes → Option ℕ) (arch : Bytes) (product : Product) (name : Bytes)
    (version : Version) (created : ℕ) (found : Found)
    → is_split (image_entry parse_time arch product name version created found).1 ≡ true
unfolding image_entry
image_entry-is_split parse_time arch product name version created found =
    ground (arith, bytes_eq_refl (codes "meta"), bytes_eq_refl (codes "root"))

keep_entry-is_served :
    (found : Found) (entry p : Image × List Download) (downloads : List (Bytes × List Download))
    → is_split entry.1 ≡ true
    → keep_entry found entry ≡ some p
    → (is_split p.1 ≡ true) × (is_served (put p.0.fingerprint p.1 downloads) p.0 ≡ true)
unfolding keep_entry
keep_entry-is_served found entry p downloads k h = ground (
  arith,
  find-put p.0.fingerprint p.0.fingerprint p.1 downloads,
  find-put entry.0.fingerprint entry.0.fingerprint entry.1 downloads,
  bytes_eq_refl p.0.fingerprint,
  bytes_eq_refl entry.0.fingerprint,
)

version_image-is_served :
    (parse_time : Bool → Bytes → Option ℕ) (arch : Bytes) (product : Product) (v : Bytes × Version)
    (p : Image × List Download) (downloads : List (Bytes × List Download))
    → version_image parse_time arch product v ≡ some p
    → (is_split p.1 ≡ true) × (is_served (put p.0.fingerprint p.1 downloads) p.0 ≡ true)
unfolding version_image
version_image-is_served parse_time arch product (name, version) p downloads h =
    by_time (if ltb (length name) 8 then none else parse_time false (take 8 name)) h
  where
    found : Found
    found =
        find_items version.items
          (record { meta = no_item; root_tar = no_item; root_squash = no_item })

    by_time :
        (o : Option ℕ)
        → (o >>= λ created.
            keep_entry found (image_entry parse_time arch product name version created found))
          ≡ some p
        → (is_split p.1 ≡ true) × (is_served (put p.0.fingerprint p.1 downloads) p.0 ≡ true)
    by_time none e = ground arith
    by_time (some created) e =
        keep_entry-is_served found (image_entry parse_time arch product name version created found)
          p downloads (image_entry-is_split parse_time arch product name version created found) e

versions_loop-all_served :
    (parse_time : Bool → Bytes → Option ℕ) (arch : Bytes) (product : Product)
    (versions : List (Bytes × Version)) (acc : List Image × List (Bytes × List Download))
    → all_served acc.1 acc.0 ≡ true
    → let r = versions_loop parse_time arch product versions acc in all_served r.1 r.0 ≡ true
unfolding versions_loop
versions_loop-all_served parse_time arch product [] acc h = h
versions_loop-all_served parse_time arch product (v ∷ versions) (images, downloads) h =
    by_image (version_image parse_time arch product v) refl
      (λ acc. versions_loop-all_served parse_time arch product versions acc)
  where
    by_image :
        (o : Option (Image × List Download))
        → version_image parse_time arch product v ≡ o
        → ((acc : List Image × List (Bytes × List Download))
            → all_served acc.1 acc.0 ≡ true
            → let r = versions_loop parse_time arch product versions acc in
              all_served r.1 r.0 ≡ true)
        → let r = versions_loop parse_time arch product (v ∷ versions) (images, downloads) in
          all_served r.1 r.0 ≡ true
    by_image none e rest = rw (versions_loop, e) (rest (images, downloads) h)
    by_image (some p) e rest =
        let (split, served) = version_image-is_served parse_time arch product v p downloads e in
        let next = put p.0.fingerprint p.1 downloads in
        rw (versions_loop, e)
          (rest (images ++ p.0 ∷ [], next)
            (ground (
              arith,
              all_served-append next images p.0,
              all_served-put downloads p.0.fingerprint p.1 images split h,
            )))

add_product-all_served :
    (parse_time : Bool → Bytes → Option ℕ) (arch : Option Bytes) (product : Product)
    (acc : List Image × List (Bytes × List Download))
    → all_served acc.1 acc.0 ≡ true
    → let r = add_product parse_time arch product acc in all_served r.1 r.0 ≡ true
unfolding add_product
add_product-all_served parse_time none product acc h = h
add_product-all_served parse_time (some arch) product acc h =
    versions_loop-all_served parse_time arch product product.versions acc h

products_loop-all_served :
    (parse_time : Bool → Bytes → Option ℕ) (products : List (Bytes × Product))
    (acc : List Image × List (Bytes × List Download))
    → all_served acc.1 acc.0 ≡ true
    → let r = products_loop parse_time products acc in all_served r.1 r.0 ≡ true
unfolding products_loop
products_loop-all_served parse_time [] acc h = h
products_loop-all_served parse_time ((key, product) ∷ products) acc h =
    products_loop-all_served parse_time products
      (add_product parse_time (known_architecture product.architecture) product acc)
      (add_product-all_served parse_time (known_architecture product.architecture) product acc h)

-- Every image that ToAPOLLO lists has a size, a file name and a fingerprint, and under its fingerprint the
-- downloads have a metadata file and a root file.
pub to_apollo-all_served :
    (parse_time : Bool → Bytes → Option ℕ) (products : List (Bytes × Product))
    → let r = to_apollo parse_time products in all_served r.1 r.0 ≡ true
unfolding to_apollo
to_apollo-all_served parse_time products =
    products_loop-all_served parse_time products ([], []) refl
