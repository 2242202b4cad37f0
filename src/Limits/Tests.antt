-- ===== src/Limits/Tests.antt =====
-- The theorems on limits at concrete values.
use mercuryc.Base.{List, [], ◌∷◌, some, ◌≡◌, inl, inr, refl, codes, arith, ℕ}
use mercuryc.Limits.{TaskCpu, balance, parse_disk_limit}
use mercuryc.Limits.Proofs.Values.{write_limit_dropped}
use mercuryc.Limits.Proofs.Balance.{IsLevel, balance-IsLevel}

write_limit_dropped_example : parse_disk_limit [] (codes "10MB") ≡ some (0, 0, 0, 0)
write_limit_dropped_example = write_limit_dropped (codes "10MB")

-- Two processors, one of them with a container.
abbrev two_cpus : List TaskCpu
two_cpus = record { id = 0; count = 1 } ∷ record { id = 1; count = 0 } ∷ []

balance-IsLevel_example : (k : ℕ) × IsLevel k (balance (1 ∷ 2 ∷ 1 ∷ []) two_cpus).1
balance-IsLevel_example =
    balance-IsLevel 0 (1 ∷ 2 ∷ 1 ∷ []) two_cpus (inr (omega arith), (inl refl, tt))
