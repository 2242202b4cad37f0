-- ===== src/Storage/Proofs/Filling.antt =====
-- What one entry more does to the check of a pool's configuration.
use mercuryc.Base.{
  ℕ, ◌*◌, ◌%◌, ◌^◌, ◌≤◌, Bytes, List, [], ◌∷◌, ◌++◌, Option, some, Bool, true, false, ◌&&◌, not,
  ◌≡◌, ◌⊎◌, inl, inr, arith, refl, codes, is_empty, has_prefix, string_in_slice, bytes_eq, to_lower,
  if◌then◌else◌, >>=-eq-some, Bool-cases,
}
use mercuryc.Base.Dict.{find, put, has, is_some, find-put}
use mercuryc.Base.Word.{int64_mod}
use mercuryc.Strconv.{format_uint}
use mercuryc.Size.{parse_byte_size, byte_multiplicator}
use mercuryc.Size.Proofs.{parse_byte_size-append}
use mercuryc.Config.{is_true}
use mercuryc.Device.{get}
use mercuryc.Storage.Pool.{
  check, fits_driver, valid_entry, entries_loop, thinpool_agrees, validate_config, Disk, default_gb,
  fill_size, fill_thinpool,
}

entries_loop-put :
    (driver k v : Bytes) (config : List (Bytes × Bytes))
    → entries_loop driver config ≡ true
    → valid_entry driver k v ≡ true
    → entries_loop driver (put k v config) ≡ true
unfolding entries_loop put
entries_loop-put driver k v [] h e = ground arith
entries_loop-put driver k v ((j, w) ∷ config) h e =
    ground (arith, entries_loop-put driver k v config)

pub get-put :
    (k j v : Bytes) (config : List (Bytes × Bytes))
    → get j (put k v config) ≡ (if bytes_eq k j then v else get j config)
unfolding get
get-put k j v config = ground (arith, find-put k j v config)

-- An accepted configuration stays accepted with one more valid entry, up to the check of the thin pool.
pub validate_config-put :
    (driver k v : Bytes) (config : List (Bytes × Bytes))
    → validate_config driver config ≡ true
    → valid_entry driver k v ≡ true
    → bytes_eq k (codes "rsync.bwlimit") ≡ false
    → validate_config driver (put k v config)
      ≡ not (bytes_eq driver (codes "lvm") && not (thinpool_agrees (put k v config)))
unfolding validate_config
validate_config-put driver k v config h e b =
    ground (arith, entries_loop-put driver k v config, get-put k (codes "rsync.bwlimit") v config)

default_gb_bounds : (disk : Disk) → (15 ≤ default_gb disk) × (default_gb disk ≤ 100)
unfolding default_gb
default_gb_bounds disk = (ground arith, ground arith)

gb : byte_multiplicator (codes "GB") ≡ some (2 ^ 30)
unfolding byte_multiplicator bytes_eq
gb = refl

pub parse_gb : (n : ℕ) → n ≤ 100 → parse_byte_size (format_uint n ++ codes "GB") ≡ some (n * 2 ^ 30)
parse_gb n h =
    ground (arith, parse_byte_size-append n (2 ^ 30) (codes "GB") (omega arith) gb, small)
  where
    small : (n * 2 ^ 30) % int64_mod ≡ n * 2 ^ 30
    small = omega arith

pub is_empty-eq : (s : Bytes) → is_empty s ≡ true → s ≡ []
is_empty-eq s h = ground arith

-- What is done to the size.
abbrev pub IsFilled : List (Bytes × Bytes) → List (Bytes × Bytes) → Type 0
IsFilled config c =
    ((c ≡ config)
      × (is_empty (get (codes "size") config) ≡ false)
      × (is_some (parse_byte_size (get (codes "size") config)) ≡ true))
    ⊎ ((n : ℕ) × (15 ≤ n)
        × (n ≤ 100)
        × (is_empty (get (codes "size") config) ≡ true)
        × (c ≡ put (codes "size") (format_uint n ++ codes "GB") config))

pub fill_size-IsFilled :
    (disk : Option Disk) (config c : List (Bytes × Bytes))
    → fill_size disk config ≡ some c
    → IsFilled config c
unfolding fill_size
fill_size-IsFilled disk config c h = elim (Bool-cases (is_empty (get (codes "size") config))) [
  | inl t ↦
      let (d, e, f) =
        >>=-eq-some disk
          (λ d. some (put (codes "size") (format_uint (default_gb d) ++ codes "GB") config))
          (rw t at h) in
      inr (default_gb d, (default_gb_bounds d).0, (default_gb_bounds d).1, t, ground arith)
  | inr t ↦
      let (v, e, f) =
        >>=-eq-some (parse_byte_size (get (codes "size") config)) (λ v. some config) (rw t at h) in
      inl (ground arith, t, ground arith)
]

-- The new entries are accepted by their drivers.
pub valid_size :
    (driver : Bytes) (n : ℕ)
    → n ≤ 100
    → bytes_eq driver (codes "dir") ≡ false
    → valid_entry driver (codes "size") (format_uint n ++ codes "GB") ≡ true
unfolding valid_entry fits_driver check find has_prefix bytes_eq
valid_size driver n h d = ground (arith, parse_gb n h)

valid_thinpool :
    valid_entry (codes "lvm") (codes "lvm.thinpool_name") (codes "APOLLOThinpool") ≡ true
unfolding valid_entry fits_driver check find has_prefix bytes_eq
valid_thinpool = refl

-- lvm.use_thinpool is given as the empty text.
abbrev pub has_empty_thinpool : List (Bytes × Bytes) → Bool
has_empty_thinpool config =
    has (codes "lvm.use_thinpool") config && is_empty (get (codes "lvm.use_thinpool") config)

pub thinpool_agrees-put :
    (k v : Bytes) (config : List (Bytes × Bytes))
    → bytes_eq k (codes "lvm.use_thinpool") ≡ false
    → bytes_eq k (codes "lvm.thinpool_name") ≡ false
    → thinpool_agrees (put k v config) ≡ thinpool_agrees config
unfolding thinpool_agrees
thinpool_agrees-put k v config a b = ground (
  arith,
  get-put k (codes "lvm.use_thinpool") v config,
  get-put k (codes "lvm.thinpool_name") v config,
  find-put k (codes "lvm.use_thinpool") v config,
)

is_true-empty : is_true [] ≡ false
unfolding is_true string_in_slice bytes_eq to_lower
is_true-empty = refl

pub keys_differ :
    (bytes_eq (codes "lvm.thinpool_name") (codes "lvm.use_thinpool") ≡ false)
    × (bytes_eq (codes "lvm.thinpool_name") (codes "rsync.bwlimit") ≡ false)
    × (bytes_eq (codes "lvm.thinpool_name") (codes "lvm.thinpool_name") ≡ true)
    × (bytes_eq (codes "lvm") (codes "lvm") ≡ true)
    × (bytes_eq (codes "size") (codes "lvm.use_thinpool") ≡ false)
    × (bytes_eq (codes "size") (codes "lvm.thinpool_name") ≡ false)
    × (bytes_eq (codes "size") (codes "rsync.bwlimit") ≡ false)
    × (bytes_eq (codes "size") (codes "size") ≡ true)
    × (bytes_eq (codes "dir") (codes "lvm") ≡ false)
unfolding bytes_eq
keys_differ = (refl, refl, refl, refl, refl, refl, refl, refl, refl)

-- With a name for the thin pool.
thinpool_agrees-name :
    (config : List (Bytes × Bytes))
    → thinpool_agrees (put (codes "lvm.thinpool_name") (codes "APOLLOThinpool") config)
      ≡ not (
          has (codes "lvm.use_thinpool") config
          && not (is_true (get (codes "lvm.use_thinpool") config)))
unfolding thinpool_agrees
thinpool_agrees-name config = ground (
  arith,
  get-put (codes "lvm.thinpool_name") (codes "lvm.use_thinpool") (codes "APOLLOThinpool") config,
  get-put (codes "lvm.thinpool_name") (codes "lvm.thinpool_name") (codes "APOLLOThinpool") config,
  find-put (codes "lvm.thinpool_name") (codes "lvm.use_thinpool") (codes "APOLLOThinpool") config,
  keys_differ,
)

agrees_of_valid :
    (config : List (Bytes × Bytes))
    → validate_config (codes "lvm") config ≡ true
    → thinpool_agrees config ≡ true
unfolding validate_config
agrees_of_valid config h = ground (arith, keys_differ)

pub validate_config-fill_thinpool :
    (config : List (Bytes × Bytes))
    → validate_config (codes "lvm") config ≡ true
    → validate_config (codes "lvm") (fill_thinpool config) ≡ not (has_empty_thinpool config)
unfolding fill_thinpool thinpool_agrees
validate_config-fill_thinpool config h =
    let agrees = agrees_of_valid config h in
    let named = thinpool_agrees-name config in
    let valid =
      validate_config-put (codes "lvm") (codes "lvm.thinpool_name") (codes "APOLLOThinpool") config
        h valid_thinpool keys_differ.1 in
    ground (arith, keys_differ, is_true-empty, is_empty-eq (get (codes "lvm.use_thinpool") config))
