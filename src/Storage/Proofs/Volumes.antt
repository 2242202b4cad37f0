-- ===== src/Storage/Proofs/Volumes.antt =====
-- What the defaults of a volume leave, and which volumes a pool accepts.
use mercuryc.Base.{
  Bytes, List, [], some, Bool, true, false, ◌&&◌, ◌||◌, not, ◌≡◌, arith, refl, codes, is_empty,
  bytes_eq, bytes_eq→eq, if◌then◌else◌, inl, inr, Bool-cases,
}
use mercuryc.Device.{get}
use mercuryc.Storage.Volume.{StoragePool, fill, fill_lvm, fill_default}
use mercuryc.Storage.Proofs.Filling.{get-put, is_empty-eq}

abbrev pub or_else : Bool → Bytes → Bytes → Bytes
or_else test a b = if test then a else b

abbrev pub no_size : Bytes → Bool
no_size size = bytes_eq size (codes "0") || is_empty size

-- A value, or if it counts as missing a first default, or if that counts as missing a second.
abbrev pub first_of : (Bytes → Bool) → Bytes → Bytes → Bytes → Bytes
first_of missing v a b = or_else (missing (or_else (missing v) a v)) b (or_else (missing v) a v)

-- The size of a volume after the defaults.
abbrev pub filled_size : StoragePool → Bytes → Bytes
filled_size pool size =
    if bytes_eq pool.driver (codes "dir")
    then []
    else if bytes_eq pool.driver (codes "lvm")
    then first_of no_size size (get (codes "volume.size") pool.config) (codes "10GB")
    else or_else (is_empty size) [] (codes "10GB")

-- Its file system.
abbrev pub filled_filesystem : StoragePool → Bytes → Bytes
filled_filesystem pool filesystem =
    if not (bytes_eq pool.driver (codes "dir")) && bytes_eq pool.driver (codes "lvm")
    then first_of is_empty filesystem (get (codes "volume.block.filesystem") pool.config)
        (codes "ext4")
    else filesystem

get-fill :
    (test : Bool) (k j v : Bytes) (config : List (Bytes × Bytes))
    → get j (fill test k v config) ≡ or_else (bytes_eq k j && test) v (get j config)
get-fill test k j v config = ground (arith, get-put k j v config)

keys_differ :
    (bytes_eq (codes "size") (codes "block.filesystem") ≡ false)
    × (bytes_eq (codes "block.filesystem") (codes "size") ≡ false)
    × (bytes_eq (codes "size") (codes "size") ≡ true)
    × (bytes_eq (codes "block.filesystem") (codes "block.filesystem") ≡ true)
unfolding bytes_eq
keys_differ = (refl, refl, refl, refl)

-- The two defaults of one key.
abbrev fill_twice :
    (Bytes → Bool) → Bytes → Bytes → Bytes → List (Bytes × Bytes) → List (Bytes × Bytes)
fill_twice missing k a b config =
    let c = fill (missing (get k config)) k a config in fill (missing (get k c)) k b c

get-fill_twice :
    (missing : Bytes → Bool) (k j a b : Bytes) (config : List (Bytes × Bytes))
    → get j (fill_twice missing k a b config)
      ≡ (if bytes_eq k j then first_of missing (get k config) a b else get j config)
get-fill_twice missing k j a b config =
    let c = fill (missing (get k config)) k a config in
    ground (
      arith,
      get-fill (missing (get k config)) k j a config,
      get-fill (missing (get k c)) k j b c,
      bytes_eq→eq k j,
    )

fill_lvm_twice :
    (pool : StoragePool) (config : List (Bytes × Bytes))
    → fill_lvm pool config
      ≡ fill_twice no_size (codes "size") (get (codes "volume.size") pool.config) (codes "10GB") (
          fill_twice is_empty
            (codes "block.filesystem")
            (get (codes "volume.block.filesystem") pool.config)
            (codes "ext4")
            config)
unfolding fill_lvm
fill_lvm_twice pool config = refl

fill_lvm-get :
    (pool : StoragePool) (config : List (Bytes × Bytes)) (j : Bytes)
    → get j (fill_lvm pool config) ≡ (
        if bytes_eq (codes "size") j
        then first_of no_size
            (get (codes "size") config)
            (get (codes "volume.size") pool.config)
            (codes "10GB")
        else if bytes_eq (codes "block.filesystem") j
        then first_of is_empty
            (get (codes "block.filesystem") config)
            (get (codes "volume.block.filesystem") pool.config)
            (codes "ext4")
        else get j config)
fill_lvm-get pool config j =
    let fs_a = get (codes "volume.block.filesystem") pool.config in
    let size_a = get (codes "volume.size") pool.config in
    let f = fill_twice is_empty (codes "block.filesystem") fs_a (codes "ext4") config in
    ground (
      arith,
      fill_lvm_twice pool config,
      get-fill_twice no_size (codes "size") j size_a (codes "10GB") f,
      get-fill_twice is_empty (codes "block.filesystem") j fs_a (codes "ext4") config,
      get-fill_twice is_empty (codes "block.filesystem") (codes "size") fs_a (codes "ext4") config,
      keys_differ,
      bytes_eq→eq (codes "size") j,
    )

-- What storageVolumeFillDefault leaves under a key. On the driver dir the size is cleared; on lvm the size and
-- the file system are the given ones, or if they are missing the pool's, or if those are missing 10GB and
-- ext4, a size 0 counting as missing; on every other driver a size that is given is replaced by 10GB.
pub fill_default_lem :
    (config c : List (Bytes × Bytes)) (pool : StoragePool) (j : Bytes)
    → fill_default config pool ≡ some c
    → get j c ≡ (
        if bytes_eq (codes "size") j
        then filled_size pool (get (codes "size") config)
        else if bytes_eq (codes "block.filesystem") j
        then filled_filesystem pool (get (codes "block.filesystem") config)
        else get j config)
unfolding fill_default
fill_default_lem config c pool j h = elim (Bool-cases (is_empty (get (codes "size") config))) [
  | inl t ↦ ground (
    arith,
    get-put (codes "size") j [] config,
    fill_lvm-get pool config j,
    bytes_eq→eq (codes "size") j,
    bytes_eq→eq (codes "block.filesystem") j,
    is_empty-eq (get (codes "size") config),
  )
  | inr t ↦ ground (
    arith,
    get-put (codes "size") j [] config,
    get-put (codes "size") j (codes "10GB") config,
    fill_lvm-get pool config j,
    bytes_eq→eq (codes "size") j,
    bytes_eq→eq (codes "block.filesystem") j,
  )
]
