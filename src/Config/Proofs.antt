-- ===== src/Config/Proofs.antt =====
-- Which keys and values the configuration accepts.
use mercuryc.Base.{
  ℕ, Bytes, [], ◌∷◌, Option, none, some, true, ◌<◌, ◌≤◌, ◌↔◌, ◌⊎◌, ◌≡◌, is_empty, arith, refl, inl,
  inr, Bool-cases,
}
use mercuryc.Base.Word.{int64_mod, lt}
use mercuryc.Strconv.{parse_int64}
use mercuryc.Config.{is_priority}

pub parse_int64-lt : (s : Bytes) (v : ℕ) → parse_int64 s ≡ some v → v < int64_mod
unfolding parse_int64
parse_int64-lt [] v h = cc
parse_int64-lt (c ∷ s) v h = ground arith

-- A priority is the empty text, or a text that is read as an integer from 0 to 10.
pub is_priority_iff :
    (value : Bytes)
    → (is_priority value ≡ true)
      ↔ ((value ≡ []) ⊎ ((v : ℕ) × (parse_int64 value ≡ some v) × (v ≤ 10)))
unfolding is_priority lt
is_priority_iff value = (λ h. by_value (parse_int64 value) refl h, λ h. accepted h)
  where
    by_value :
        (r : Option ℕ)
        → parse_int64 value ≡ r
        → is_priority value ≡ true
        → (value ≡ []) ⊎ ((v : ℕ) × (parse_int64 value ≡ some v) × (v ≤ 10))
    by_value none e h = inl (ground arith)
    by_value (some v) e h = elim (Bool-cases (is_empty value)) [
      | inl t ↦ inl (ground arith)
      | inr t ↦ inr (v, e, ground (arith, parse_int64-lt value v e))
    ]

    accepted :
        (value ≡ []) ⊎ ((v : ℕ) × (parse_int64 value ≡ some v) × (v ≤ 10))
        → is_priority value ≡ true
    accepted (inl e) = ground arith
    accepted (inr (v, e, l)) = ground arith
