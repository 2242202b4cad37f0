-- ===== src/Idmap/Proofs/Entry.antt =====
-- Shifting an id by one entry of an idmap.
use mercuryc.Base.{
  ℕ, ◌+◌, ◌-◌, ◌<◌, ◌≤◌, ◌↔◌, none, some, ◌≡◌, arith, ltb, leb, ◌&&◌, if◌then◌else◌, Bool,
}
use mercuryc.Base.Word.{Int64, u32_mod, int64_mod, add, sub, lt, le}
use mercuryc.Idmap.{IdmapEntry, shift_into_ns, shift_from_ns}

-- The numbers of an entry as `parse` and the kernel's files give them.
abbrev pub IsU32 : IdmapEntry → Type 0
IsU32 e = (e.hostid < u32_mod) × (e.nsid < u32_mod) × (e.maprange < u32_mod)

-- `id` lies in the `range` ids from `start` on.
abbrev pub Within : ℕ → ℕ → ℕ → Type 0
Within id start range = (start ≤ id) × (id < start + range)

abbrev pub within : ℕ → ℕ → ℕ → Bool
within id start range = leb start id && ltb id (start + range)

-- For an entry of 32-bit numbers and any 64-bit id: an id in the namespace's range is moved by the
-- distance of the two ranges, exactly, and any other, a negative one included, is refused.
pub shift_into_ns_lem :
    (e : IdmapEntry) (id : Int64)
    → IsU32 e
    → id < int64_mod
    → shift_into_ns e id
      ≡ (if within id e.nsid e.maprange then some (id - e.nsid + e.hostid) else none)
unfolding shift_into_ns lt le add sub
shift_into_ns_lem e id u s = ground arith

shift_from_ns_lem :
    (e : IdmapEntry) (id : Int64)
    → IsU32 e
    → id < int64_mod
    → shift_from_ns e id
      ≡ (if within id e.hostid e.maprange then some (id - e.hostid + e.nsid) else none)
unfolding shift_from_ns lt le add sub
shift_from_ns_lem e id u s = ground arith

-- For an entry of 32-bit numbers, one shift takes `id` to `host` exactly when the other takes
-- `host` back to `id`.
pub shift_into_ns-shift_from_ns :
    (e : IdmapEntry) (id host : Int64)
    → IsU32 e
    → id < int64_mod
    → host < int64_mod
    → (shift_into_ns e id ≡ some host) ↔ (shift_from_ns e host ≡ some id)
unfolding shift_into_ns shift_from_ns lt le add sub
shift_into_ns-shift_from_ns e id host u s t = (λ h. ground arith, λ h. ground arith)
