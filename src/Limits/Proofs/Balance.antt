-- ===== src/Limits/Proofs/Balance.antt =====
-- How the containers are spread over the processors.
use mercuryc.Base.{
  ℕ, zero, suc, ◌+◌, ◌≤◌, List, [], ◌∷◌, ltb, ◌≡◌, ◌⊎◌, inl, inr, arith, All, Bool-cases,
}
use mercuryc.Limits.{TaskCpu, insert_sorted, sort, take_cpus, balance_one, balance}

-- The usage of every processor is `m` or one more.
abbrev LevelAt : ℕ → TaskCpu → Type 0
LevelAt m c = (c.count ≡ m) ⊎ (c.count ≡ m + 1)

abbrev pub IsLevel : ℕ → List TaskCpu → Type 0
IsLevel m = All (LevelAt m)

-- The usage rises.
abbrev IsSorted : List TaskCpu → Type 0
IsSorted [] = Unit
IsSorted (c ∷ cs) = All (λ x. c.count ≤ x.count) cs × IsSorted cs

All-insert_sorted :
    (P : TaskCpu → Type 0) (c : TaskCpu) (cs : List TaskCpu)
    → P c
    → All P cs
    → All P (insert_sorted c cs)
unfolding insert_sorted
All-insert_sorted P c [] p h = (p, tt)
All-insert_sorted P c (x ∷ cs) p (q, h) = elim (Bool-cases (ltb x.count c.count)) [
  | inl t ↦ rw t (q, All-insert_sorted P c cs p h)
  | inr f ↦ rw f (p, (q, h))
]

All-sort : (P : TaskCpu → Type 0) (cs : List TaskCpu) → All P cs → All P (sort cs)
unfolding sort
All-sort P [] h = h
All-sort P (c ∷ cs) (p, h) = All-insert_sorted P c (sort cs) p (All-sort P cs h)

All-le :
    (m n : ℕ) (cs : List TaskCpu) → m ≤ n → All (λ x. n ≤ x.count) cs → All (λ x. m ≤ x.count) cs
All-le m n [] h a = tt
All-le m n (c ∷ cs) h (p, a) = (omega arith, All-le m n cs h a)

insert_sorted-IsSorted :
    (c : TaskCpu) (cs : List TaskCpu) → IsSorted cs → IsSorted (insert_sorted c cs)
unfolding insert_sorted
insert_sorted-IsSorted c [] s = (tt, tt)
insert_sorted-IsSorted c (x ∷ cs) (a, s) = elim (Bool-cases (ltb x.count c.count)) [
  | inl t ↦ rw t (
    All-insert_sorted (λ y. x.count ≤ y.count) c cs (ground arith) a,
    insert_sorted-IsSorted c cs s,
  )
  | inr f ↦
      let le : c.count ≤ x.count = ground arith in
      rw f ((le, All-le c.count x.count cs le a), (a, s))
]

sort-IsSorted : (cs : List TaskCpu) → IsSorted (sort cs)
unfolding sort
sort-IsSorted [] = tt
sort-IsSorted (c ∷ cs) = insert_sorted-IsSorted c (sort cs) (sort-IsSorted cs)

-- Where the usage is level, its lower part ends at the first processor that is used `m + 1` times.
rest_flat :
    (m : ℕ) (c : TaskCpu) (cs : List TaskCpu)
    → c.count ≡ m + 1
    → All (λ x. c.count ≤ x.count) cs
    → IsLevel m cs
    → All (λ x. x.count ≡ m + 1) cs
rest_flat m c [] p a h = tt
rest_flat m c (x ∷ cs) p (q, a) (h, hs) = (ground arith, rest_flat m c cs p a hs)

IsLevel-upper : (m : ℕ) (cs : List TaskCpu) → All (λ x. x.count ≡ m + 1) cs → IsLevel m cs
IsLevel-upper m [] h = tt
IsLevel-upper m (c ∷ cs) (p, h) = (inr p, IsLevel-upper m cs h)

IsLevel-lower : (m : ℕ) (cs : List TaskCpu) → All (λ x. x.count ≡ m) cs → IsLevel m cs
IsLevel-lower m [] h = tt
IsLevel-lower m (c ∷ cs) (p, h) = (inl p, IsLevel-lower m cs h)

-- Where all are used `m` times, some are used once more.
take_cpus_flat :
    (m count : ℕ) (cs : List TaskCpu) → All (λ c. c.count ≡ m) cs → IsLevel m (take_cpus count cs).1
unfolding take_cpus
take_cpus_flat m zero cs h = IsLevel-lower m cs h
take_cpus_flat m (suc count) [] h = tt
take_cpus_flat m (suc count) (c ∷ cs) (p, h) = (inr (omega arith), take_cpus_flat m count cs h)

-- One container more keeps the usage level, a step higher where the lower part was used up.
take_cpus-IsLevel :
    (m count : ℕ) (cs : List TaskCpu)
    → IsSorted cs
    → IsLevel m cs
    → IsLevel m (take_cpus count cs).1 ⊎ IsLevel (m + 1) (take_cpus count cs).1
unfolding take_cpus
take_cpus-IsLevel m zero cs s h = inl h
take_cpus-IsLevel m (suc count) [] s h = inl tt
take_cpus-IsLevel m (suc count) (c ∷ cs) (a, s) (inl p, h) =
    elim (take_cpus-IsLevel m count cs s h) [
      | inl t ↦ inl (inr (omega arith), t)
      | inr t ↦ inr (inl (omega arith), t)
    ]
take_cpus-IsLevel m (suc count) (c ∷ cs) (a, s) (inr p, h) =
    inr (inr (omega arith), take_cpus_flat (m + 1) count cs (rest_flat m c cs p a h))

balance_one-IsLevel :
    (m count : ℕ) (usage : List TaskCpu)
    → IsLevel m usage
    → IsLevel m (balance_one count usage).1 ⊎ IsLevel (m + 1) (balance_one count usage).1
unfolding balance_one
balance_one-IsLevel m count usage h =
    take_cpus-IsLevel m count (sort usage) (sort-IsSorted usage) (All-sort (LevelAt m) usage h)

-- However many containers are spread, and however many processors each is to get: if no two
-- processors' numbers of containers differ by more than one before, they do not after.
pub balance-IsLevel :
    (m : ℕ) (counts : List ℕ) (usage : List TaskCpu)
    → IsLevel m usage
    → (k : ℕ) × IsLevel k (balance counts usage).1
unfolding balance
balance-IsLevel m [] usage h = (m, h)
balance-IsLevel m (count ∷ counts) usage h = elim (balance_one-IsLevel m count usage h) [
  | inl t ↦ balance-IsLevel m counts (balance_one count usage).1 t
  | inr t ↦ balance-IsLevel (m + 1) counts (balance_one count usage).1 t
]
