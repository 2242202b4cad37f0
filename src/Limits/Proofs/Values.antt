-- ===== src/Limits/Proofs/Values.antt =====
-- Sets of processors, shares, and speeds.
use mercuryc.Base.{
  ℕ, zero, suc, ◌+◌, ◌-◌, ◌<◌, Bytes, [], some, true, ◌&&◌, ltb, leb, ◌≡◌, refl, arith,
}
use mercuryc.Base.Dict.{is_some}
use mercuryc.Base.Word.{int64_sign, add, sub, le}
use mercuryc.Config.{is_priority, is_allowance, check, Checker}
use mercuryc.Limits.{
  count_up, range, int_in_slice, priority_shares, parse_allowance, parse_cpu, parse_disk_limit,
}

int_in_slice-count_up :
    (n low count : ℕ)
    → low + count < int64_sign
    → int_in_slice n (count_up count low) ≡ leb low n && ltb n (low + count)
unfolding int_in_slice count_up add
int_in_slice-count_up n low zero h = ground arith
int_in_slice-count_up n low (suc count) h =
    ground (arith, int_in_slice-count_up n (add low 1) count)

-- The range between two numbers of processors that are not negative, the last of them below the
-- greatest int, holds exactly those from the first to the last, and none if they are the wrong way
-- round.
int_in_slice-range :
    (n low high : ℕ)
    → low < int64_sign
    → high + 1 < int64_sign
    → int_in_slice n (range low high) ≡ leb low n && leb n high
unfolding range le sub int_in_slice
int_in_slice-range n low high hl hh = ground (arith, int_in_slice-count_up n low (suc (high - low)))

priority_shares_total : (p : Bytes) → is_priority p ≡ true → is_some (priority_shares p) ≡ true
unfolding is_priority priority_shares
priority_shares_total p h = ground arith

parse_allowance_total : (a : Bytes) → is_allowance a ≡ true → is_some (parse_allowance a) ≡ true
unfolding is_allowance parse_allowance
parse_allowance_total a h = ground arith

-- An allowance and a priority that the checkers of the configuration accept are never refused when
-- the container's shares, quota and period are worked out.
pub parse_cpu_total :
    (allowance priority : Bytes)
    → check Checker.allowance allowance ≡ true
    → check Checker.priority priority ≡ true
    → is_some (parse_cpu allowance priority) ≡ true
unfolding check parse_cpu
parse_cpu_total allowance priority ha hp =
    ground (arith, priority_shares_total priority hp, parse_allowance_total allowance ha)

-- With no limit on reading, a limit on writing is dropped, whatever it says: the result is no limit
-- at all, and never an error.
pub write_limit_dropped :
    (write_speed : Bytes) → parse_disk_limit [] write_speed ≡ some (0, 0, 0, 0)
unfolding parse_disk_limit
write_limit_dropped write_speed = refl
