-- ===== src/Limits.antt =====
-- The limits of apollo/devices.go: parseCpuset, the balancing of deviceTaskBalance, deviceParseCPU and
-- deviceParseDiskLimit. int is an int64; an error is `none`.
pub mod Proofs
mod Tests
use mercuryc.Base.{
  ℕ, zero, suc, ◌+◌, ◌-◌, Bytes, List, [], ◌∷◌, ◌++◌, Option, none, some, Bool, true, false, ◌&&◌,
  ◌||◌, not, ◌==◌, ltb, leb, if◌then◌else◌, ◌>>=◌, ◌≡◌, refl, codes, is_empty, has_suffix,
  trim_suffix, split, split_two, contains_text, length,
}
use mercuryc.Base.Word.{Int64, add, sub, mul, lt, le, minus_one}
use mercuryc.Strconv.{atoi, parse_int64, format_int64}
use mercuryc.Size.{parse_byte_size}

-- The ids from `low` on, `count` of them.
unfoldable pub count_up : ℕ → Int64 → List Int64
count_up zero low = []
count_up (suc count) low = low ∷ count_up count (add low 1)

-- The loop over a range. It ends where `high` is below the greatest int.
unfoldable pub range : Int64 → Int64 → List Int64
unfolding count_up
range low high = if le low high then count_up (suc (sub high low)) low else []

unfoldable pub parse_chunk : Bytes → Option (List Int64)
unfolding range
parse_chunk chunk =
    if contains_text chunk (codes "-")
    then (let (first, second) = split_two b'-' chunk in
        elim second [
          | none ↦ none
          | some s ↦ do low ← atoi first; high ← atoi s; some (range low high)
        ])
    else (do nr ← atoi chunk; some (nr ∷ []))

unfoldable pub parse_chunks : List Bytes → Option (List Int64)
unfolding parse_chunk
parse_chunks [] = some []
parse_chunks (chunk ∷ chunks) = do
  cpus ← parse_chunk chunk
  rest ← parse_chunks chunks
  some (cpus ++ rest)

unfoldable pub parse_cpuset : Bytes → Option (List Int64)
unfolding parse_chunks
parse_cpuset cpu = parse_chunks (split cpu b',')

-- shared.IntInSlice and shared.Int64InSlice
unfoldable pub int_in_slice : Int64 → List Int64 → Bool
int_in_slice key [] = false
int_in_slice key (entry ∷ list) = entry == key || int_in_slice key list

-- deviceTaskCPU: a processor and the number of containers on it.
pub record TaskCpu : Type 0 where
  pub id : Int64
  pub count : ℕ

-- sort.Sort by Less: on short slices the package's sort keeps the order of equal elements, as this does.
unfoldable pub insert_sorted : TaskCpu → List TaskCpu → List TaskCpu
insert_sorted c [] = c ∷ []
insert_sorted c (x ∷ xs) = if ltb x.count c.count then x ∷ insert_sorted c xs else c ∷ x ∷ xs

unfoldable pub sort : List TaskCpu → List TaskCpu
unfolding insert_sorted
sort [] = []
sort (c ∷ cs) = insert_sorted c (sort cs)

-- The loop over the sorted processors for one container that is to get `count` of them: the
-- processors it gets, and the new usage.
unfoldable pub take_cpus : ℕ → List TaskCpu → List Int64 × List TaskCpu
take_cpus zero usage = ([], usage)
take_cpus (suc count) [] = ([], [])
take_cpus (suc count) (c ∷ usage) =
    let (pinned, rest) = take_cpus count usage in
    (c.id ∷ pinned, record c { count = c.count + 1 } ∷ rest)

unfoldable pub balance_one : ℕ → List TaskCpu → List Int64 × List TaskCpu
unfolding take_cpus sort
balance_one count usage = take_cpus count (sort usage)

-- The loop over the containers to balance, given by their numbers of processors. A number that is
-- negative never reaches 0, so that container takes every processor, as one whose number is the
-- number of processors does.
unfoldable pub balance : List ℕ → List TaskCpu → List (List Int64) × List TaskCpu
unfolding balance_one
balance [] usage = ([], usage)
balance (count ∷ counts) usage =
    let (pinned, usage') = balance_one count usage in
    let (others, final) = balance counts usage' in (pinned ∷ others, final)

-- The priority's part of the shares: 10 - priority is taken off.
unfoldable pub priority_shares : Bytes → Option Int64
priority_shares priority =
    if is_empty priority then some 0 else (do p ← atoi priority; some (sub 0 (sub 10 p)))

-- The allowance's part: the shares that it adds, the quota and the period.
unfoldable pub parse_allowance : Bytes → Option (Int64 × Bytes × Bytes)
parse_allowance allowance =
    if is_empty allowance
    then some (1024, codes "-1", codes "100000")
    else if has_suffix allowance (codes "%")
    then (do
      percent ← atoi (trim_suffix allowance (codes "%"))
      some (add (mul 10 percent) 24, codes "-1", codes "100000"))
    else (let (first, second) = split_two b'/' allowance in
        elim second [
          | none ↦ none
          | some s ↦ do
            quota ← atoi (trim_suffix first (codes "ms"))
            period ← atoi (trim_suffix s (codes "ms"))
            some (1024, format_int64 (mul quota 1000), format_int64 (mul period 1000))
        ])

-- deviceParseCPU
unfoldable pub parse_cpu : Bytes → Bytes → Option (Bytes × Bytes × Bytes)
unfolding priority_shares parse_allowance
parse_cpu allowance priority = do
  base ← priority_shares priority
  (extra, quota, period) ← parse_allowance allowance
  let shares = add base extra
  some (format_int64 (if lt shares 0 then 0 else shares), quota, period)

-- The function parseValue of deviceParseDiskLimit, which reads the outer variable readSpeed.
unfoldable pub parse_speed : Bytes → Bytes → Option (Int64 × Int64)
parse_speed read_speed value =
    if is_empty read_speed
    then some (0, 0)
    else if has_suffix value (codes "iops")
    then (do iops ← parse_int64 (trim_suffix value (codes "iops")); some (0, iops))
    else (do bps ← parse_byte_size value; some (bps, 0))

-- deviceParseDiskLimit
unfoldable pub parse_disk_limit : Bytes → Bytes → Option (Int64 × Int64 × Int64 × Int64)
unfolding parse_speed
parse_disk_limit read_speed write_speed = do
  (read_bps, read_iops) ← parse_speed read_speed read_speed
  (write_bps, write_iops) ← parse_speed read_speed write_speed
  some (read_bps, read_iops, write_bps, write_iops)
