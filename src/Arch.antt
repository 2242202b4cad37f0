-- ===== src/Arch.antt =====
-- shared/osarch/architectures.go: the tables of the architectures and what is looked up in them.
use mercuryc.Base.{
  ℕ, Bytes, List, [], ◌∷◌, Option, none, some, ◌==◌, if◌then◌else◌, ◌≡◌, codes, bytes_eq,
  string_in_slice, arith,
}

-- A Go map with numbers as its keys.
module _ {V : Type 0} where
  unfoldable lookup : ℕ → List (ℕ × V) → Option V
  lookup k [] = none
  lookup k ((j, v) ∷ m) = if j == k then some v else lookup k m

abbrev architecture_names : List (ℕ × Bytes)
architecture_names =
    (1, codes "i686")
    ∷ (2, codes "x86_64")
    ∷ (3, codes "armv7l")
    ∷ (4, codes "aarch64")
    ∷ (5, codes "ppc")
    ∷ (6, codes "ppc64")
    ∷ (7, codes "ppc64le")
    ∷ (8, codes "s390x")
    ∷ []

abbrev architecture_aliases : List (ℕ × List Bytes)
architecture_aliases =
    (1, codes "i386" ∷ [])
    ∷ (2, codes "amd64" ∷ [])
    ∷ (3, codes "armel" ∷ codes "armhf" ∷ [])
    ∷ (4, codes "arm64" ∷ [])
    ∷ (5, codes "powerpc" ∷ [])
    ∷ (6, codes "powerpc64" ∷ [])
    ∷ (7, codes "ppc64el" ∷ [])
    ∷ []

abbrev architecture_personalities : List (ℕ × Bytes)
architecture_personalities =
    (1, codes "linux32")
    ∷ (2, codes "linux64")
    ∷ (3, codes "linux32")
    ∷ (4, codes "linux64")
    ∷ (5, codes "linux32")
    ∷ (6, codes "linux64")
    ∷ (7, codes "linux64")
    ∷ (8, codes "linux64")
    ∷ []

abbrev architecture_supported_personalities : List (ℕ × List ℕ)
architecture_supported_personalities =
    (1, []) ∷ (2, 1 ∷ []) ∷ (3, []) ∷ (4, 3 ∷ []) ∷ (5, []) ∷ (6, 5 ∷ []) ∷ (7, []) ∷ (8, []) ∷ []

-- ArchitectureName
unfoldable pub architecture_name : ℕ → Option Bytes
unfolding lookup
architecture_name arch = lookup arch architecture_names

-- The two loops of ArchitectureId; no name stands twice, so the order does not matter.
unfoldable name_loop : Bytes → List (ℕ × Bytes) → Option ℕ
name_loop arch [] = none
name_loop arch ((id, name) ∷ names) = if bytes_eq name arch then some id else name_loop arch names

unfoldable alias_loop : Bytes → List (ℕ × List Bytes) → Option ℕ
alias_loop arch [] = none
alias_loop arch ((id, names) ∷ aliases) =
    if string_in_slice arch names then some id else alias_loop arch aliases

-- ArchitectureId
unfoldable pub architecture_id : Bytes → Option ℕ
unfolding name_loop alias_loop
architecture_id arch = elim (name_loop arch architecture_names) [
  | none ↦ alias_loop arch architecture_aliases
  | some id ↦ some id
]

-- ArchitecturePersonality and ArchitecturePersonalities
unfoldable pub architecture_personality : ℕ → Option Bytes
unfolding lookup
architecture_personality arch = lookup arch architecture_personalities

unfoldable pub architecture_personalities_of : ℕ → Option (List ℕ)
unfolding lookup
architecture_personalities_of arch = lookup arch architecture_supported_personalities

-- The name of an architecture is read as the architecture.
pub architecture_id-architecture_name :
    (arch : ℕ) (name : Bytes)
    → architecture_name arch ≡ some name
    → architecture_id name ≡ some arch
unfolding architecture_name lookup architecture_id name_loop bytes_eq
architecture_id-architecture_name arch name h = ground arith
