-- ===== src/Base/Dict.antt =====
-- A Go map with string keys: the list of its entries, in one of the orders that `range` may give.
use mathlib.Core.Path.{◌≡◌, refl}
use mathlib.Core.Bool.{Bool, true, false, ◌&&◌, not}
use mathlib.Core.Option.{Option, none, some}
use mathlib.Core.List.{List, [], ◌∷◌}
use native.Mathlib.Omega.{arith}
use package.mercuryc.Base.Tests.{if◌then◌else◌}
use package.mercuryc.Base.Texts.{Bytes, bytes_eq, bytes_eq→eq, eq→bytes_eq}

module _ {V : Type 0} where
  unfoldable pub find : Bytes → List (Bytes × V) → Option V
  find k [] = none
  find k ((j, v) ∷ m) = if bytes_eq j k then some v else find k m

  abbrev pub is_some : Option V → Bool
  is_some none = false
  is_some (some v) = true

  abbrev pub has : Bytes → List (Bytes × V) → Bool
  has k m = is_some (find k m)

  unfoldable pub delete : Bytes → List (Bytes × V) → List (Bytes × V)
  delete k [] = []
  delete k ((j, v) ∷ m) = let rest = delete k m in if bytes_eq j k then rest else (j, v) ∷ rest

  unfoldable pub put : Bytes → V → List (Bytes × V) → List (Bytes × V)
  put k v [] = (k, v) ∷ []
  put k v ((j, w) ∷ m) = if bytes_eq j k then (k, v) ∷ m else (j, w) ∷ put k v m

  -- No key stands twice.
  abbrev pub unique : List (Bytes × V) → Bool
  unique [] = true
  unique ((j, v) ∷ m) = not (has j m) && unique m

  pub find-delete :
      (k j : Bytes) (m : List (Bytes × V))
      → find j (delete k m) ≡ (if bytes_eq k j then none else find j m)
  unfolding find delete
  find-delete k j [] = ground arith
  find-delete k j ((i, v) ∷ m) = ground (
    arith,
    find-delete k j m,
    bytes_eq→eq i k,
    bytes_eq→eq i j,
    bytes_eq→eq k j,
    eq→bytes_eq k j,
    eq→bytes_eq i j,
    eq→bytes_eq i k,
  )

  pub find-put :
      (k j : Bytes) (v : V) (m : List (Bytes × V))
      → find j (put k v m) ≡ (if bytes_eq k j then some v else find j m)
  unfolding find put
  find-put k j v [] = ground arith
  find-put k j v ((i, w) ∷ m) = ground (
    arith,
    find-put k j v m,
    bytes_eq→eq i k,
    bytes_eq→eq i j,
    bytes_eq→eq k j,
    eq→bytes_eq k j,
    eq→bytes_eq i j,
    eq→bytes_eq i k,
  )

  pub put-unique :
      (k : Bytes) (v : V) (m : List (Bytes × V)) → unique m ≡ true → unique (put k v m) ≡ true
  unfolding put find
  put-unique k v [] u = refl
  put-unique k v ((j, w) ∷ m) u =
      ground (arith, put-unique k v m, find-put k j v m, bytes_eq→eq j k, bytes_eq→eq k j)

  -- The entries that a test selects.
  unfoldable pub select : (Bytes → V → Bool) → List (Bytes × V) → List (Bytes × V)
  select test [] = []
  select test ((j, v) ∷ m) = let rest = select test m in if test j v then (j, v) ∷ rest else rest

  find-select-none :
      (test : Bytes → V → Bool) (k : Bytes) (m : List (Bytes × V))
      → has k m ≡ false
      → find k (select test m) ≡ none
  unfolding find select
  find-select-none test k [] h = refl
  find-select-none test k ((j, v) ∷ m) h = ground (arith, find-select-none test k m)

  pub select-unique :
      (test : Bytes → V → Bool) (m : List (Bytes × V))
      → unique m ≡ true
      → unique (select test m) ≡ true
  unfolding select
  select-unique test [] u = refl
  select-unique test ((j, v) ∷ m) u =
      ground (arith, select-unique test m, find-select-none test j m)

  pub find-select :
      (test : Bytes → V → Bool) (k : Bytes) (m : List (Bytes × V))
      → unique m ≡ true
      → find k (select test m)
        ≡ elim (find k m) [ none ↦ none | some v ↦ if test k v then some v else none ]
  unfolding find select
  find-select test k [] u = refl
  find-select test k ((j, v) ∷ m) u =
      ground (arith, find-select test k m, find-select-none test k m, bytes_eq→eq j k)
