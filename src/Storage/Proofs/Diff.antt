-- ===== src/Storage/Proofs/Diff.antt =====
-- What storageConfigDiff finds, and what is left of the mount options.
use mercuryc.Base.{
  ℕ, zero, suc, ◌≤◌, Bytes, List, [], ◌∷◌, ◌++◌, Option, none, some, Bool, true, false, ◌&&◌, ◌||◌,
  not, ◌≡◌, arith, refl, codes, is_empty, has_prefix, string_in_slice, bytes_eq, bytes_eq→eq,
  bytes_eq_refl, if◌then◌else◌, distinct, string_in_slice-append, length, append_assoc, append-nil,
  length-append, split, get_elem?-append, take-append, drop-append, get_elem?,
}
use mercuryc.Base.Dict.{find, has}
use mercuryc.Device.{get}
use mercuryc.Storage.{
  diff_loop, config_diff, MountOption, Flags, no_flags, apply_option, mount_options, resolve_loop,
  resolve_mount_options,
}

abbrev pub differs : List (Bytes × Bytes) → List (Bytes × Bytes) → Bytes → Bool
differs old new k = not (bytes_eq (get k old) (get k new))

-- All keys belong to the user.
abbrev pub all_user : List Bytes → Bool
all_user [] = true
all_user (k ∷ keys) = has_prefix k (codes "user.") && all_user keys

all_user-append :
    (keys : List Bytes) (k : Bytes)
    → all_user (keys ++ k ∷ []) ≡ all_user keys && has_prefix k (codes "user.")
all_user-append [] k = ground arith
all_user-append (j ∷ keys) k = ground (arith, all_user-append keys k)

pub all_user-member :
    (keys : List Bytes) (k : Bytes)
    → string_in_slice k keys ≡ true
    → all_user keys ≡ true
    → has_prefix k (codes "user.") ≡ true
unfolding string_in_slice
all_user-member [] k h a = cc
all_user-member (j ∷ keys) k h a = ground (arith, all_user-member keys k, bytes_eq→eq j k)

distinct-append :
    (keys : List Bytes) (k : Bytes)
    → distinct keys ≡ true
    → string_in_slice k keys ≡ false
    → distinct (keys ++ k ∷ []) ≡ true
unfolding string_in_slice
distinct-append [] k d h = refl
distinct-append (j ∷ keys) k d h = ground (
  arith,
  distinct-append keys k,
  string_in_slice-append j keys k,
  bytes_eq→eq j k,
  bytes_eq→eq k j,
  bytes_eq_refl j,
)

-- What one round of the loop makes of the changed keys and of userOnly.
abbrev next_changed : Bool → Bytes → List Bytes → List Bytes
next_changed d key changed =
    if d && not (string_in_slice key changed) then changed ++ key ∷ [] else changed

abbrev next_user : Bool → Bytes → Bool → Bool
next_user d key user_only = if d && not (has_prefix key (codes "user.")) then false else user_only

next_changed-member :
    (d : Bool) (j k : Bytes) (changed : List Bytes)
    → string_in_slice k (next_changed d j changed)
      ≡ string_in_slice k changed || (bytes_eq j k && d)
next_changed-member d j k changed =
    ground (arith, string_in_slice-append k changed j, bytes_eq→eq j k)

next_changed-distinct :
    (d : Bool) (j : Bytes) (changed : List Bytes)
    → distinct changed ≡ true
    → distinct (next_changed d j changed) ≡ true
next_changed-distinct d j changed h = ground (arith, distinct-append changed j)

next_user_lem :
    (d : Bool) (j : Bytes) (changed : List Bytes) (u : Bool)
    → u ≡ all_user changed
    → next_user d j u ≡ all_user (next_changed d j changed)
next_user_lem d j changed u h = ground (arith, all_user-append changed j, all_user-member changed j)

diff_loop-changed :
    (old new rest : List (Bytes × Bytes)) (changed : List Bytes) (user_only : Bool) (k : Bytes)
    → string_in_slice k (diff_loop old new rest changed user_only).0
      ≡ string_in_slice k changed || (has k rest && differs old new k)
unfolding diff_loop find
diff_loop-changed old new [] changed u k = ground arith
diff_loop-changed old new ((j, v) ∷ rest) changed u k =
    let d = differs old new j in
    ground (
      arith,
      diff_loop-changed old new rest (next_changed d j changed) (next_user d j u) k,
      next_changed-member d j k changed,
      bytes_eq→eq j k,
    )

diff_loop-distinct :
    (old new rest : List (Bytes × Bytes)) (changed : List Bytes) (user_only : Bool)
    → distinct changed ≡ true
    → distinct (diff_loop old new rest changed user_only).0 ≡ true
unfolding diff_loop
diff_loop-distinct old new [] changed u h = h
diff_loop-distinct old new ((j, v) ∷ rest) changed u h =
    let d = differs old new j in
    diff_loop-distinct old new rest (next_changed d j changed) (next_user d j u)
      (next_changed-distinct d j changed h)

diff_loop-user :
    (old new rest : List (Bytes × Bytes)) (changed : List Bytes) (user_only : Bool)
    → user_only ≡ all_user changed
    → (diff_loop old new rest changed user_only).1
      ≡ all_user (diff_loop old new rest changed user_only).0
unfolding diff_loop
diff_loop-user old new [] changed u h = h
diff_loop-user old new ((j, v) ∷ rest) changed u h =
    let d = differs old new j in
    diff_loop-user old new rest (next_changed d j changed) (next_user d j u)
      (next_user_lem d j changed u h)

differs-has :
    (old new : List (Bytes × Bytes)) (k : Bytes)
    → differs old new k ≡ true
    → has k old || has k new ≡ true
unfolding get
differs-has old new k h = ground (arith, bytes_eq_refl [])

-- storageConfigDiff lists a key exactly if its value differs, a missing key counting as the empty text,
-- lists no key twice, and says that only the user's keys changed exactly if there are changed keys and all
-- of them begin with user.
pub config_diff_lem :
    (old new : List (Bytes × Bytes)) (k : Bytes)
    → (string_in_slice k (config_diff old new).0 ≡ not (bytes_eq (get k old) (get k new)))
      × (distinct (config_diff old new).0 ≡ true)
      × ((config_diff old new).1
          ≡ not (is_empty (config_diff old new).0) && all_user (config_diff old new).0)
unfolding config_diff string_in_slice
config_diff_lem old new k =
    let first = diff_loop old new old [] true in
    let listed = diff_loop-changed old new old [] true k in
    let listed' = diff_loop-changed old new new first.0 first.1 k in
    let once =
      diff_loop-distinct old new new first.0 first.1
        (diff_loop-distinct old new old [] true refl) in
    let user =
      diff_loop-user old new new first.0 first.1 (diff_loop-user old new old [] true refl) in
    let known = differs-has old new k in ground arith

-- The options that are known, applied in their order, and those that are left.
abbrev pub known_flags : List Bytes → Flags → Flags
known_flags [] flags = flags
known_flags (opt ∷ opts) flags = elim (find opt mount_options) [
  | none ↦ known_flags opts flags
  | some o ↦ known_flags opts (apply_option o flags)
]

abbrev pub unknown : List Bytes → List Bytes
unknown [] = []
unknown (opt ∷ opts) = elim (find opt mount_options) [
  | none ↦ opt ∷ unknown opts
  | some o ↦ unknown opts
]

-- What the loop makes of the options behind `pre`.
abbrev Resolves : ℕ → List Bytes → List Bytes → Flags → Type 0
Resolves fuel pre opts flags =
    resolve_loop fuel (length pre) (pre ++ opts) flags
    ≡ some (known_flags opts flags, pre ++ unknown opts)

-- One round, from what the rest of the loop does.
resolve_loop_step :
    (fuel : ℕ) (pre opts : List Bytes) (opt : Bytes) (flags : Flags) (r : Option MountOption)
    → find opt mount_options ≡ r
    → ((p : List Bytes) (g : Flags) → Resolves fuel p opts g)
    → Resolves (suc fuel) pre (opt ∷ opts) flags
unfolding resolve_loop
resolve_loop_step fuel pre opts opt flags none e rest =
    let found : get_elem? (pre ++ opt ∷ opts) (length pre) ≡ some opt =
      get_elem?-append pre (opt ∷ opts) in
    let next : suc (length pre) ≡ length (pre ++ opt ∷ []) =
      omega (arith, length-append pre (opt ∷ [])) in
    let after = rest (pre ++ opt ∷ []) flags in
    ground (arith, append_assoc pre (opt ∷ []) opts, append_assoc pre (opt ∷ []) (unknown opts))
resolve_loop_step fuel pre opts opt flags (some o) e rest =
    let found : get_elem? (pre ++ opt ∷ opts) (length pre) ≡ some opt =
      get_elem?-append pre (opt ∷ opts) in
    let after = rest pre (apply_option o flags) in
    ground (arith, take-append pre (opt ∷ opts), drop-append pre opts opt)

-- With as much fuel as there are options left.
resolve_loop_lem :
    (fuel : ℕ) (pre opts : List Bytes) (flags : Flags)
    → length opts ≤ fuel
    → Resolves fuel pre opts flags
unfolding resolve_loop
resolve_loop_lem zero pre [] flags h = ground (arith, append-nil pre)
resolve_loop_lem zero pre (opt ∷ opts) flags h = ground arith
resolve_loop_lem (suc fuel) pre [] flags h = ground (arith, append-nil pre, get_elem?-append pre [])
resolve_loop_lem (suc fuel) pre (opt ∷ opts) flags h =
    resolve_loop_step fuel pre opts opt flags (find opt mount_options) refl
      (λ p g. resolve_loop_lem fuel p opts g (omega arith))

-- apolloResolveMountoptions ends within as many rounds as there are options, although it takes options
-- out of the list that it walks: it applies every option that it knows, in their order, and leaves all
-- others, in their order.
pub resolve_mount_options_lem :
    (options : Bytes)
    → resolve_mount_options options
      ≡ some (known_flags (split options b',') no_flags, unknown (split options b','))
unfolding resolve_mount_options
resolve_mount_options_lem options =
    resolve_loop_lem (length (split options b',')) [] (split options b',') no_flags (omega arith)
