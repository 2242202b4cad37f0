-- ===== src/Idmap/Proofs/Cross.antt =====
-- What the two intersection tests of an entry say.
use mercuryc.Base.{ℕ, ◌+◌, ◌<◌, ◌≤◌, ◌↔◌, ◌≡◌, true, false, arith, ◌⊎◌}
use mercuryc.Base.Word.{u32_mod, add, sub, lt, le}
use mercuryc.Idmap.{IdmapEntry, ranges_cross, intersects, hostids_intersect, shares_kind}
use mercuryc.Idmap.Proofs.Entry.{IsU32}

-- The test misses the overlap of a single id with the last id of the other range.
abbrev pub IsMissed : ℕ → ℕ → ℕ → ℕ → Type 0
IsMissed a m b n = ((m ≡ 1) × (a + 1 ≡ b + n)) ⊎ ((n ≡ 1) × (b + 1 ≡ a + m))

ranges_cross_sound :
    (a m b n : ℕ)
    → a < u32_mod
    → m < u32_mod
    → b < u32_mod
    → n < u32_mod
    → 0 < m
    → 0 < n
    → ranges_cross a m b n ≡ true
    → (a < b + n) × (b < a + m) × (IsMissed a m b n → ⊥)
unfolding ranges_cross lt le add sub
ranges_cross_sound a m b n ha hm hb hn pm pn h = ground arith

ranges_cross_complete :
    (a m b n : ℕ)
    → a < u32_mod
    → m < u32_mod
    → b < u32_mod
    → n < u32_mod
    → 0 < m
    → 0 < n
    → a < b + n
    → b < a + m
    → (IsMissed a m b n → ⊥)
    → ranges_cross a m b n ≡ true
unfolding ranges_cross lt le add sub
ranges_cross_complete a m b n ha hm hb hn pm pn h k missed = ground arith

-- The ids that the two ranges share are noticed.
abbrev pub IsNoticed : ℕ → ℕ → ℕ → ℕ → Type 0
IsNoticed a m b n = (a < b + n) × (b < a + m) × (IsMissed a m b n → ⊥)

-- Both map uids, or both map gids.
abbrev pub KindsMeet : IdmapEntry → IdmapEntry → Type 0
KindsMeet e i = ((e.isuid ≡ true) × (i.isuid ≡ true)) ⊎ ((e.isgid ≡ true) × (i.isgid ≡ true))

-- The range is not empty.
abbrev pub IsRange : IdmapEntry → Type 0
IsRange e = IsU32 e × (0 < e.maprange)

shares_kind_iff : (e i : IdmapEntry) → (shares_kind e i ≡ true) ↔ KindsMeet e i
unfolding shares_kind
shares_kind_iff e i = (λ h. ground arith, λ h. ground arith)

-- Two entries with ranges that are not empty intersect, by the code's test, exactly when they map
-- a common kind of id and their host ranges or their namespace ranges overlap otherwise than in a
-- single-id range at the other's last id.
pub intersects_iff :
    (e i : IdmapEntry)
    → IsRange e
    → IsRange i
    → (intersects e i ≡ true) ↔ (
        KindsMeet e i
        × (IsNoticed e.hostid e.maprange i.hostid i.maprange
            ⊎ IsNoticed e.nsid e.maprange i.nsid i.maprange))
unfolding intersects
intersects_iff e i re ri = (
  λ h. ground (
    arith,
    shares_kind_iff e i,
    ranges_cross_sound e.hostid e.maprange i.hostid i.maprange,
    ranges_cross_sound e.nsid e.maprange i.nsid i.maprange,
  ),
  λ (kinds, overlap). ground (
    arith,
    shares_kind_iff e i,
    ranges_cross_complete e.hostid e.maprange i.hostid i.maprange,
    ranges_cross_complete e.nsid e.maprange i.nsid i.maprange,
  ),
)

-- The host ranges of two entries with ranges that are not empty intersect, by the code's test,
-- exactly when they map a common kind of id and the ranges overlap or one ends where the other starts.
pub hostids_intersect_iff :
    (e i : IdmapEntry)
    → IsRange e
    → IsRange i
    → (hostids_intersect e i ≡ true)
      ↔ (KindsMeet e i × (e.hostid ≤ i.hostid + i.maprange) × (i.hostid ≤ e.hostid + e.maprange))
unfolding hostids_intersect lt le add
hostids_intersect_iff e i re ri = (λ h. ground arith, λ h. ground arith)

-- Two entries of one id each never intersect by the code's test, whatever ids they map, so a second
-- mapping of an id that is mapped already passes it.
pub intersects_single :
    (e i : IdmapEntry)
    → IsU32 e
    → IsU32 i
    → e.maprange ≡ 1
    → i.maprange ≡ 1
    → intersects e i ≡ false
unfolding intersects ranges_cross lt le add sub
intersects_single e i ue ui re ri = rw (re, ri) (ground arith)
