-- ===== src/Idmap/Proofs/Parse.antt =====
-- What `parse` accepts, and what it returns.
use mercuryc.Base.{
  ℕ, ◌<◌, some, ◌≡◌, true, false, arith, ◌⊎◌, inl, inr, Bytes, List, [], ◌∷◌, ◌++◌, refl, Bool,
  split_from, split_from-append, split_from-sep, split, codes, Lacks, bytes_eq→eq, append-nil,
}
use mercuryc.Base.Word.{u32_mod, add, lt}
use mercuryc.Strconv.{format_uint, is_digit}
use mercuryc.Strconv.Laws.{parse_uint-format_uint, format_uint-Lacks, parse_uint-lt}
use mercuryc.Idmap.{IdmapEntry, check_wraparound, parse_kind, parse_numbers, parse_parts, parse}
use mercuryc.Idmap.Proofs.Entry.{IsU32}

-- With 32-bit numbers the sums of the wraparound check do not wrap.
check_wraparound_lem : (e : IdmapEntry) → IsU32 e → check_wraparound e ≡ some e
unfolding check_wraparound lt add
check_wraparound_lem e u = ground arith

-- The text `kind:nsid:hostid:maprange`.
abbrev pub entry_text : Bytes → ℕ → ℕ → ℕ → Bytes
entry_text kind nsid hostid maprange =
    kind
    ++ (b':' ∷ (format_uint nsid ++ (b':' ∷ (format_uint hostid ++ (b':' ∷ format_uint maprange)))))

colon : is_digit b':' ≡ false
unfolding is_digit
colon = refl

split-field : (cur s : Bytes) → Lacks b':' cur → split (cur ++ (b':' ∷ s)) b':' ≡ cur ∷ split s b':'
unfolding split
split-field cur s h = rw (split_from-append b':' [] cur (b':' ∷ s) h) (split_from-sep b':' cur s)

split_last : (cur : Bytes) → Lacks b':' cur → split cur b':' ≡ cur ∷ []
unfolding split split_from
split_last cur h = rw append-nil at (split_from-append b':' [] cur [] h)

split-entry_text :
    (kind : Bytes) (a b c : ℕ)
    → Lacks b':' kind
    → split (entry_text kind a b c) b':' ≡ kind ∷ format_uint a ∷ format_uint b ∷ format_uint c ∷ []
split-entry_text kind a b c h =
    rw
      (
        split-field kind _ h,
        split-field (format_uint a) _ (format_uint-Lacks b':' a colon),
        split-field (format_uint b) _ (format_uint-Lacks b':' b colon),
      )
      (rw (split_last (format_uint c) (format_uint-Lacks b':' c colon)))

parse_kind_cases :
    (kind : Bytes) {k : Bool × Bool}
    → parse_kind kind ≡ some k
    → (kind ≡ codes "u") ⊎ ((kind ≡ codes "g") ⊎ (kind ≡ codes "b"))
unfolding parse_kind
parse_kind_cases kind h = ground (
  arith,
  bytes_eq→eq kind (codes "u"),
  bytes_eq→eq kind (codes "g"),
  bytes_eq→eq kind (codes "b"),
)

parse_kind-Lacks : (kind : Bytes) {k : Bool × Bool} → parse_kind kind ≡ some k → Lacks b':' kind
parse_kind-Lacks kind h = elim (parse_kind_cases kind h) [
  | inl e ↦ rw e (omega arith)
  | inr (inl e) ↦ rw e (omega arith)
  | inr (inr e) ↦ rw e (omega arith)
]

-- An entry printed as `kind:nsid:hostid:maprange`, with 32-bit numbers and a kind letter that the
-- code knows, is read back whole; the wraparound check never stops it.
pub parse-entry_text :
    (kind : Bytes) (k : Bool × Bool) (nsid hostid maprange : ℕ)
    → parse_kind kind ≡ some k
    → nsid < u32_mod
    → hostid < u32_mod
    → maprange < u32_mod
    → parse (entry_text kind nsid hostid maprange)
      ≡ some
          (record { isuid = k.0; isgid = k.1; hostid = hostid; nsid = nsid; maprange = maprange })
unfolding parse parse_parts parse_numbers
parse-entry_text kind k nsid hostid maprange hk hn hh hm =
    rw (split-entry_text kind nsid hostid maprange (parse_kind-Lacks kind hk), hk)
      (rw
        (
          parse_uint-format_uint _ nsid hn,
          parse_uint-format_uint _ hostid hh,
          parse_uint-format_uint _ maprange hm,
        )
        (check_wraparound_lem _ (hh, hn, hm)))

parse_kind-some :
    (kind : Bytes) (k : Bool × Bool) → parse_kind kind ≡ some k → (k.0 ≡ true) ⊎ (k.1 ≡ true)
unfolding parse_kind
parse_kind-some kind k h = ground arith

parse_parts_sound :
    (parts : List Bytes) {e : IdmapEntry}
    → parse_parts parts ≡ some e
    → IsU32 e × ((e.isuid ≡ true) ⊎ (e.isgid ≡ true))
unfolding parse_parts parse_numbers check_wraparound
parse_parts_sound [] h = cc
parse_parts_sound (_ ∷ []) h = cc
parse_parts_sound (_ ∷ _ ∷ []) h = cc
parse_parts_sound (_ ∷ _ ∷ _ ∷ []) h = cc
parse_parts_sound (_ ∷ _ ∷ _ ∷ _ ∷ _ ∷ _) h = cc
parse_parts_sound (kind ∷ ns ∷ host ∷ range ∷ []) h = grind (arith, parse_kind-some, parse_uint-lt)

-- An entry that is read has 32-bit numbers, and maps uids or gids.
pub parse_sound :
    (s : Bytes) {e : IdmapEntry}
    → parse s ≡ some e
    → IsU32 e × ((e.isuid ≡ true) ⊎ (e.isgid ≡ true))
unfolding parse
parse_sound s h = parse_parts_sound (split s b':') h
