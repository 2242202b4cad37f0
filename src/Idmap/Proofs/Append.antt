-- ===== src/Idmap/Proofs/Append.antt =====
-- Sets that are built by Append, as raw.idmap is read line by line.
use mercuryc.Base.{
  ◌<◌, none, some, ◌≡◌, false, arith, Bytes, [], ◌∷◌, refl, Option, All, All-append, subst,
}
use mercuryc.Idmap.{IdmapEntry, intersects, parse}
use mercuryc.Idmap.Set.{IdmapSet, set_intersects, extend, append_entry}
use mercuryc.Idmap.Proofs.Entry.{IsU32}
use mercuryc.Idmap.Proofs.Parse.{parse_sound}
use mercuryc.Idmap.Proofs.Cross.{intersects_iff}
use mercuryc.Idmap.Proofs.Shift.{Separate, IsSeparate}

-- The entry maps two ids at least.
abbrev pub IsWide : IdmapEntry → Type 0
IsWide e = 1 < e.maprange

Separate-intersects :
    (e i : IdmapEntry)
    → IsU32 e
    → IsU32 i
    → IsWide e
    → IsWide i
    → intersects i e ≡ false
    → Separate e i
Separate-intersects e i ue ui we wi h k = ground (arith, intersects_iff i e)

set_intersects-Separate :
    (m : IdmapSet) (i : IdmapEntry)
    → All IsU32 m
    → IsU32 i
    → All IsWide m
    → IsWide i
    → set_intersects m i ≡ false
    → All (λ e. Separate e i) m
unfolding set_intersects
set_intersects-Separate [] i u ui w wi h = tt
set_intersects-Separate (e ∷ m) i (u, us) ui (w, ws) wi h = (
  Separate-intersects e i u ui w wi (ground arith),
  set_intersects-Separate m i us ui ws wi (ground arith),
)

extend-IsSeparate :
    (m : IdmapSet) (i : IdmapEntry)
    → IsSeparate m
    → All (λ e. Separate e i) m
    → IsSeparate (extend m i)
unfolding extend
extend-IsSeparate [] i s h = (tt, tt)
extend-IsSeparate (e ∷ m) i (s, ss) (h, hs) =
    (All-append (Separate e) m (i ∷ []) s (h, tt), extend-IsSeparate m i ss hs)

extend-split :
    (P : IdmapEntry → Type 0) (m : IdmapSet) (i : IdmapEntry) → All P (extend m i) → All P m × P i
unfolding extend
extend-split P [] i h = (tt, h.0)
extend-split P (e ∷ m) i (h, hs) = let (a, b) = extend-split P m i hs in ((h, a), b)

-- A text that Append accepts.
append_entry-parse :
    (m : IdmapSet) (s : Bytes) (m' : IdmapSet)
    → append_entry m s ≡ some m'
    → (e : IdmapEntry) × (parse s ≡ some e) × (set_intersects m e ≡ false) × (m' ≡ extend m e)
unfolding append_entry
append_entry-parse m s m' h = split (parse s) refl
  where
    split :
        (r : Option IdmapEntry)
        → parse s ≡ r
        → (e : IdmapEntry) × (parse s ≡ some e) × (set_intersects m e ≡ false) × (m' ≡ extend m e)
    split none q = absurd (ground arith)
    split (some e) q = (e, q, ground arith, ground arith)

-- A set of 32-bit entries that are pairwise separate stays one under every Append that succeeds,
-- if every entry of the result maps two ids at least.
pub append_entry-IsSeparate :
    (m : IdmapSet) (s : Bytes) (m' : IdmapSet)
    → All IsU32 m
    → IsSeparate m
    → append_entry m s ≡ some m'
    → All IsWide m'
    → All IsU32 m' × IsSeparate m'
append_entry-IsSeparate m s m' u p h w =
    let (e, parsed, free, result) = append_entry-parse m s m' h in
    let ue = (parse_sound s parsed).0 in
    let wide = extend-split IsWide m e (subst (All IsWide) result w) in
    rw result (
      unfold extend in All-append IsU32 m (e ∷ []) u (ue, tt),
      extend-IsSeparate m e p (set_intersects-Separate m e u ue wide.0 wide.1 free),
    )
