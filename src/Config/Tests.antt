-- ===== src/Config/Tests.antt =====
-- The theorem on priorities at a concrete text.
use mercuryc.Base.{ℕ, [], ◌≡◌, ◌⊎◌, ◌↔◌, some, true, codes, ◌≤◌}
use mercuryc.Strconv.{parse_int64}
use mercuryc.Config.{is_priority}
use mercuryc.Config.Proofs.{is_priority_iff}

is_priority_iff_example :
    (is_priority (codes "7") ≡ true)
    ↔ ((codes "7" ≡ []) ⊎ ((v : ℕ) × (parse_int64 (codes "7") ≡ some v) × (v ≤ 10)))
is_priority_iff_example = is_priority_iff (codes "7")
