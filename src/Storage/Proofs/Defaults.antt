-- ===== src/Storage/Proofs/Defaults.antt =====
-- What the defaults of pools and volumes leave.
use mercuryc.Base.{
  ℕ, ◌*◌, ◌^◌, ◌≤◌, Bytes, List, ◌++◌, Option, some, true, false, ◌&&◌, not, ◌≡◌, ◌⊎◌, inl, inr,
  arith, codes, is_empty, bytes_eq, bytes_eq→eq, bytes_eq_sym, if◌then◌else◌, >>=-eq-some,
  Bool-cases,
}
use mercuryc.Base.Dict.{put, is_some, find-put}
use mercuryc.Strconv.{format_uint}
use mercuryc.Size.{parse_byte_size}
use mercuryc.Device.{get}
use mercuryc.Storage.Pool.{validate_config, Disk, fill_size, fill_thinpool, fill_lvm, fill_default}
use mercuryc.Storage.Proofs.Filling.{
  get-put, validate_config-put, parse_gb, IsFilled, fill_size-IsFilled, valid_size,
  has_empty_thinpool, thinpool_agrees-put, keys_differ, validate_config-fill_thinpool,
}

fill_lvm_lem :
    (config c : List (Bytes × Bytes)) → fill_lvm config ≡ some c → c ≡ fill_thinpool config
unfolding fill_lvm
fill_lvm_lem config c h =
    elim (Bool-cases (is_empty (get (codes "volume.size") (fill_thinpool config)))) [
      | inl t ↦ ground arith
      | inr t ↦
          let (v, e, f) =
            >>=-eq-some (parse_byte_size (get (codes "volume.size") (fill_thinpool config)))
              (λ v. some (fill_thinpool config)) (rw t at h) in
          ground arith
    ]

has_empty_thinpool-size :
    (v : Bytes) (config : List (Bytes × Bytes))
    → has_empty_thinpool (put (codes "size") v config) ≡ has_empty_thinpool config
has_empty_thinpool-size v config = ground (
  arith,
  get-put (codes "size") (codes "lvm.use_thinpool") v config,
  find-put (codes "size") (codes "lvm.use_thinpool") v config,
  keys_differ,
)

-- The size that is filled in keeps the configuration accepted.
validate_config-IsFilled :
    (driver : Bytes) (config c : List (Bytes × Bytes))
    → validate_config driver config ≡ true
    → bytes_eq driver (codes "dir") ≡ false
    → IsFilled config c
    → (validate_config driver c ≡ true) × (has_empty_thinpool c ≡ has_empty_thinpool config)
unfolding validate_config
validate_config-IsFilled driver config c h d (inl (e, a, b)) = (ground arith, ground arith)
validate_config-IsFilled driver config c h d (inr (n, a, b, e, q)) =
    let v = format_uint n ++ codes "GB" in
    (
      ground (
        arith,
        validate_config-put driver (codes "size") v config h (valid_size driver n b d)
            keys_differ.6,
        thinpool_agrees-put (codes "size") v config keys_differ.4 keys_differ.5,
      ),
      ground (arith, has_empty_thinpool-size v config),
    )

-- The steps of storagePoolFillDefault.
fill_default_inv :
    (driver : Bytes) (disk : Option Disk) (config c : List (Bytes × Bytes))
    → fill_default driver disk config ≡ some c
    → (filled : List (Bytes × Bytes)) × ((if bytes_eq driver (codes "dir")
          then some config
          else fill_size disk config)
        ≡ some filled)
      × (c ≡ (if bytes_eq driver (codes "lvm") then fill_thinpool filled else filled))
unfolding fill_default
fill_default_inv driver disk config c h =
    let (filled, e, f) =
      >>=-eq-some (if bytes_eq driver (codes "dir") then some config else fill_size disk config)
        (λ filled. if bytes_eq driver (codes "lvm") then fill_lvm filled else some filled) h in
    (filled, e, ground (arith, fill_lvm_lem filled c))

-- An accepted configuration is still accepted after storagePoolFillDefault, except where lvm.use_thinpool is
-- given as the empty text on the driver lvm: then it is accepted before, and refused with the name of the
-- thin pool that is filled in.
pub fill_default-validate_config :
    (driver : Bytes) (disk : Option Disk) (config c : List (Bytes × Bytes))
    → validate_config driver config ≡ true
    → fill_default driver disk config ≡ some c
    → validate_config driver c ≡ not (bytes_eq driver (codes "lvm") && has_empty_thinpool config)
fill_default-validate_config driver disk config c v h =
    let (filled, e, q) = fill_default_inv driver disk config c h in
    elim (Bool-cases (bytes_eq driver (codes "dir"))) [
      | inl t ↦ ground (arith, bytes_eq→eq driver (codes "dir"), keys_differ)
      | inr t ↦
          let (a, b) =
            validate_config-IsFilled driver config filled v t
              (fill_size-IsFilled disk config filled (rw t at e)) in
          ground (arith, bytes_eq→eq driver (codes "lvm"), validate_config-fill_thinpool filled)
    ]

fill_thinpool-size :
    (config : List (Bytes × Bytes))
    → get (codes "size") (fill_thinpool config) ≡ get (codes "size") config
unfolding fill_thinpool
fill_thinpool-size config = ground (
  arith,
  get-put (codes "lvm.thinpool_name") (codes "size") (codes "APOLLOThinpool") config,
  bytes_eq_sym (codes "lvm.thinpool_name") (codes "size"),
  keys_differ,
)

-- What the size is in the end.
fill_default-get :
    (driver : Bytes) (disk : Option Disk) (config c : List (Bytes × Bytes))
    → bytes_eq driver (codes "dir") ≡ false
    → fill_default driver disk config ≡ some c
    → (filled : List (Bytes × Bytes)) × IsFilled config filled
      × (get (codes "size") c ≡ get (codes "size") filled)
fill_default-get driver disk config c d h =
    let (filled, e, q) = fill_default_inv driver disk config c h in
    (
      filled,
      fill_size-IsFilled disk config filled (rw d at e),
      ground (arith, fill_thinpool-size filled),
    )

-- On a pool that is not of the driver dir, storagePoolFillDefault keeps a size that is given, and that can be
-- read; otherwise the size that it fills in is read as a number of GB from 15 to 100.
fill_default-size :
    (driver : Bytes) (disk : Option Disk) (config c : List (Bytes × Bytes))
    → bytes_eq driver (codes "dir") ≡ false
    → fill_default driver disk config ≡ some c
    → ((get (codes "size") c ≡ get (codes "size") config)
        × (is_some (parse_byte_size (get (codes "size") c)) ≡ true))
      ⊎ ((n : ℕ) × (15 ≤ n)
          × (n ≤ 100)
          × (parse_byte_size (get (codes "size") c) ≡ some (n * 2 ^ 30)))
fill_default-size driver disk config c d h = by_size (fill_default-get driver disk config c d h)
  where
    by_size :
        (filled : List (Bytes × Bytes)) × IsFilled config filled
          × (get (codes "size") c ≡ get (codes "size") filled)
        → ((get (codes "size") c ≡ get (codes "size") config)
            × (is_some (parse_byte_size (get (codes "size") c)) ≡ true))
          ⊎ ((n : ℕ) × (15 ≤ n)
              × (n ≤ 100)
              × (parse_byte_size (get (codes "size") c) ≡ some (n * 2 ^ 30)))
    by_size (filled, inl (e, a, b), q) = inl (ground arith, ground arith)
    by_size (filled, inr (n, a, b, t, e), q) = inr (
      n,
      a,
      b,
      ground (
        arith,
        parse_gb n b,
        get-put (codes "size") (codes "size") (format_uint n ++ codes "GB") config,
        keys_differ,
      ),
    )
