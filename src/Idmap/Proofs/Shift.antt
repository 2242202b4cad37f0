-- ===== src/Idmap/Proofs/Shift.antt =====
-- Shifting ids by a set of entries.
use mercuryc.Base.{
  ℕ, ◌+◌, ◌*◌, ◌^◌, ◌<◌, ◌≤◌, none, some, ◌≡◌, ◌≢◌, sym, true, arith, ◌⊎◌, inl, inr, [], ◌∷◌, refl,
  Bool, All, if◌then◌else◌,
}
use mercuryc.Base.Word.{Int64, int64_mod, minus_one, add, lt, le, sub}
use mercuryc.Idmap.{IdmapEntry, shift_into_ns, shift_from_ns}
use mercuryc.Idmap.Set.{IdmapSet, Direction, into, out, shift, shift_one, shift_loop, do_shift}
use mercuryc.Idmap.Proofs.Entry.{IsU32, Within, shift_into_ns-shift_from_ns}
use mercuryc.Idmap.Proofs.Cross.{KindsMeet}

-- The first entry that maps ids of a kind and applies decides; -1 if there is none.
abbrev pub first_shift : (IdmapEntry → Bool) → Direction → IdmapSet → Int64 → Int64
first_shift kind how [] id = minus_one
first_shift kind how (e ∷ m) id =
    let rest = first_shift kind how m id in
    if kind e then elim (shift how e id) [ none ↦ rest | some t ↦ t ] else rest

-- Numbers whose sums do not reach the sign bit; those of 32 bits, and what AddSafe makes of them.
abbrev pub small : ℕ
small = 2 ^ 40

abbrev pub IsSmall : IdmapEntry → Type 0
IsSmall e = (e.hostid < small) × (e.nsid < small) × (e.maprange < small)

IsU32-IsSmall : (m : IdmapSet) → All IsU32 m → All IsSmall m
IsU32-IsSmall [] u = tt
IsU32-IsSmall (e ∷ m) (u, us) = (omega arith, IsU32-IsSmall m us)

shift_bound :
    (how : Direction) (e : IdmapEntry) (id t : Int64)
    → IsSmall e
    → id < int64_mod
    → shift how e id ≡ some t
    → t < 2 * small
unfolding shift shift_into_ns shift_from_ns add lt le sub
shift_bound into e id t u s h = ground arith
shift_bound out e id t u s h = ground arith

-- One component of the loop.
loop_one : (IdmapEntry → Bool) → Direction → IdmapSet → Int64 → Int64 → Int64
loop_one kind how [] id found = found
loop_one kind how (e ∷ m) id found = loop_one kind how m id (shift_one how (kind e) e id found)

shift_loop-loop_one :
    (how : Direction) (uid gid : Int64) (m : IdmapSet) (u g : Int64)
    → shift_loop how uid gid m u g
      ≡ (loop_one (λ e. e.isuid) how m uid u, loop_one (λ e. e.isgid) how m gid g)
unfolding shift_loop loop_one
shift_loop-loop_one how uid gid [] u g = refl
shift_loop-loop_one how uid gid (e ∷ m) u g = shift_loop-loop_one how uid gid m _ _

loop_one_found :
    (kind : IdmapEntry → Bool) (how : Direction) (m : IdmapSet) (id found : Int64)
    → found ≢ minus_one
    → loop_one kind how m id found ≡ found
unfolding loop_one shift_one
loop_one_found kind how [] id found h = refl
loop_one_found kind how (e ∷ m) id found h = ground (arith, loop_one_found kind how m id found h)

loop_one-first_shift :
    (kind : IdmapEntry → Bool) (how : Direction) (m : IdmapSet) (id : Int64)
    → All IsSmall m
    → id < int64_mod
    → loop_one kind how m id minus_one ≡ first_shift kind how m id
unfolding loop_one shift_one
loop_one-first_shift kind how [] id u s = refl
loop_one-first_shift kind how (e ∷ m) id (u, us) s = grind (
  arith,
  loop_one-first_shift kind how m id us s,
  shift_bound how e id,
  loop_one_found kind how m id,
)

-- The loop over a set of entries whose numbers are below 2 ^ 40 gives, for the uid and for the gid apart, what the first
-- entry that maps that kind and applies gives, and -1 if there is none.
pub do_shift-first_shift :
    (how : Direction) (m : IdmapSet) (uid gid : Int64)
    → All IsSmall m
    → uid < int64_mod
    → gid < int64_mod
    → do_shift how m uid gid
      ≡ (first_shift (λ e. e.isuid) how m uid, first_shift (λ e. e.isgid) how m gid)
unfolding do_shift
do_shift-first_shift how m uid gid u hu hg = ground (
  arith,
  shift_loop-loop_one how uid gid m minus_one minus_one,
  loop_one-first_shift (λ e. e.isuid) how m uid u hu,
  loop_one-first_shift (λ e. e.isgid) how m gid u hg,
)

-- Two ranges have no id in common.
abbrev pub Apart : ℕ → ℕ → ℕ → ℕ → Type 0
Apart a m b n = (a + m ≤ b) ⊎ (b + n ≤ a)

-- Entries that map a common kind of id share no id, on either side.
abbrev pub Separate : IdmapEntry → IdmapEntry → Type 0
Separate e i =
    KindsMeet e i
    → Apart e.hostid e.maprange i.hostid i.maprange × Apart e.nsid e.maprange i.nsid i.maprange

-- Every two entries of the set are separate.
abbrev pub IsSeparate : IdmapSet → Type 0
IsSeparate [] = Unit
IsSeparate (e ∷ m) = All (Separate e) m × IsSeparate m

abbrev pub opposite : Direction → Direction
opposite into = out
opposite out = into

-- The first id of the range that a shift leads to.
abbrev target : Direction → IdmapEntry → Int64
target into e = e.hostid
target out e = e.nsid

shift-opposite :
    (how : Direction) (e : IdmapEntry) (a b : Int64)
    → IsU32 e
    → a < int64_mod
    → b < int64_mod
    → shift how e a ≡ some b
    → shift (opposite how) e b ≡ some a
unfolding shift
shift-opposite into e a b u ha hb h = (shift_into_ns-shift_from_ns e a b u ha hb).0 h
shift-opposite out e a b u ha hb h = (shift_into_ns-shift_from_ns e b a u hb ha).1 h

shift-Within :
    (how : Direction) (e : IdmapEntry) (a b : Int64)
    → IsU32 e
    → a < int64_mod
    → shift how e a ≡ some b
    → Within b (target how e) e.maprange
unfolding shift shift_into_ns shift_from_ns add lt le sub
shift-Within into e a b u ha h = ground arith
shift-Within out e a b u ha h = ground arith

shift_outside :
    (how : Direction) (e : IdmapEntry) (b : Int64)
    → IsU32 e
    → b < 2 * small
    → (Within b (target how e) e.maprange → ⊥)
    → shift (opposite how) e b ≡ none
unfolding shift shift_into_ns shift_from_ns add lt le sub
shift_outside into e b u hb h = ground arith
shift_outside out e b u hb h = ground arith

Separate-not_both :
    (how : Direction) (e i : IdmapEntry) (b : Int64)
    → Separate e i
    → KindsMeet e i
    → Within b (target how i) i.maprange
    → Within b (target how e) e.maprange
    → ⊥
Separate-not_both into e i b s k = λ wi we. ground (arith, s k)
Separate-not_both out e i b s k = λ wi we. ground (arith, s k)

-- The entries that map one kind of id, given as a test that both kinds satisfy.
module _ (kind : IdmapEntry → Bool)
    (meets : (e i : IdmapEntry) → kind e ≡ true → kind i ≡ true → KindsMeet e i)
    (how : Direction) where
  -- What a set maps to lies outside an entry that is separate from all of it.
  first_shift_outside :
      (e : IdmapEntry) (m : IdmapSet) (a b : Int64)
      → kind e ≡ true
      → All IsU32 m
      → All (Separate e) m
      → a < int64_mod
      → first_shift kind how m a ≡ b
      → b ≢ minus_one
      → (b < 2 * small) × (Within b (target how e) e.maprange → ⊥)
  first_shift_outside e [] a b ke u s ha h hb = absurd (hb (sym h))
  first_shift_outside e (i ∷ m) a b ke (u, us) (s, ss) ha h hb = ground (
    arith,
    first_shift_outside e m a b ke us ss ha,
    shift_bound how i a b (omega arith) ha,
    Separate-not_both how e i b s,
    meets e i ke,
    shift-Within how i a b u ha,
  )

  first_shift-opposite :
      (m : IdmapSet) (a b : Int64)
      → All IsU32 m
      → IsSeparate m
      → a < int64_mod
      → first_shift kind how m a ≡ b
      → b ≢ minus_one
      → first_shift kind (opposite how) m b ≡ a
  first_shift-opposite [] a b u s ha h hb = absurd (hb (sym h))
  first_shift-opposite (e ∷ m) a b (u, us) (s, ss) ha h hb = ground (
    arith,
    first_shift-opposite m a b us ss ha,
    first_shift_outside e m a b,
    shift-opposite how e a b u ha,
    shift_bound how e a b (omega arith) ha,
    shift_outside how e b u,
  )

pub isuid_meets : (e i : IdmapEntry) → e.isuid ≡ true → i.isuid ≡ true → KindsMeet e i
isuid_meets e i h k = inl (h, k)

pub isgid_meets : (e i : IdmapEntry) → e.isgid ≡ true → i.isgid ≡ true → KindsMeet e i
isgid_meets e i h k = inr (h, k)

-- Over a set of 32-bit entries that are pairwise separate, a uid and a gid that are mapped, in
-- either direction, are shifted back to themselves by the other direction.
pub do_shift-opposite :
    (how : Direction) (m : IdmapSet) (uid gid u g : Int64)
    → All IsU32 m
    → IsSeparate m
    → uid < int64_mod
    → gid < int64_mod
    → u < int64_mod
    → g < int64_mod
    → do_shift how m uid gid ≡ (u, g)
    → u ≢ minus_one
    → g ≢ minus_one
    → do_shift (opposite how) m u g ≡ (uid, gid)
do_shift-opposite how m uid gid u g us ss huid hgid hu hg h nu ng = ground (
  arith,
  do_shift-first_shift how m uid gid (IsU32-IsSmall m us) huid hgid,
  do_shift-first_shift (opposite how) m u g (IsU32-IsSmall m us) hu hg,
  first_shift-opposite (λ e. e.isuid) isuid_meets how m uid u us ss huid,
  first_shift-opposite (λ e. e.isgid) isgid_meets how m gid g us ss hgid,
)
