-- ===== src/Idmap/Proofs/Lines.antt =====
-- The lines of ToLxcString: what they read back as, and which of them a set gives.
use mercuryc.Base.{
  ℕ, ◌+◌, ◌<◌, some, ◌≡◌, true, false, arith, List, [], ◌∷◌, ◌++◌, refl, Bool, ◌||◌, All,
  Bool-cases, inl, inr, Bytes, append_assoc, append-nil, string_in_slice, string_in_slice-append,
  distinct, bytes_eq, bytes_eq→eq, eq→bytes_eq, is_empty, leb, ap, ◌∙◌,
}
use mercuryc.Base.Word.{u32_mod, int64_sign}
use mercuryc.Strconv.{format_int64}
use mercuryc.Strconv.Laws.{format_uint-All, format_uint-ne-nil, parse_uint-format_uint}
use mercuryc.Idmap.{IdmapEntry, lxc_line, to_lxc_string}
use mercuryc.Idmap.Set.{IdmapSet, add_lines, lxc_lines, set_to_lxc_string}
use mercuryc.Idmap.Kernel.{is_space, fields_from, fields, proc_fields}
use mercuryc.Idmap.Proofs.Entry.{IsU32}

abbrev IsSolid : Bytes → Type 0
IsSolid = All (λ c. is_space c ≡ false)

fields_from-append :
    (cur p s : Bytes) → IsSolid p → fields_from cur (p ++ s) ≡ fields_from (cur ++ p) s
unfolding fields_from
fields_from-append cur [] s h = ground (arith, append-nil cur)
fields_from-append cur (c ∷ p) s (hc, hp) =
    rw (hc, fields_from)
      (ground (arith, fields_from-append (cur ++ c ∷ []) p s hp, append_assoc cur (c ∷ []) p))

fields_from-space :
    (cur s : Bytes) → is_empty cur ≡ false → fields_from cur (b' ' ∷ s) ≡ cur ∷ fields_from [] s
unfolding fields_from
fields_from-space cur s h = ground arith

fields-word :
    (p s : Bytes) → IsSolid p → is_empty p ≡ false → fields (p ++ (b' ' ∷ s)) ≡ p ∷ fields s
unfolding fields
fields-word p s h e = rw (fields_from-append [] p (b' ' ∷ s) h) (fields_from-space p s e)

fields_last : (p : Bytes) → IsSolid p → is_empty p ≡ false → fields p ≡ p ∷ []
unfolding fields fields_from
fields_last p h e = ground (arith, append-nil p, fields_from-append [] p [] h)

digit_solid : (d : ℕ) → d < 10 → is_space (48 + d) ≡ false
unfolding is_space
digit_solid d h = ground arith

small : (n : ℕ) → n < u32_mod → leb int64_sign n ≡ false
small n h = ground arith

number-IsSolid : (n : ℕ) → n < u32_mod → IsSolid (format_int64 n)
unfolding format_int64
number-IsSolid n h = rw (small n h) (format_uint-All _ n digit_solid)

number_nonempty : (n : ℕ) → n < u32_mod → is_empty (format_int64 n) ≡ false
unfolding format_int64
number_nonempty n h = rw (small n h) (ground (arith, format_uint-ne-nil n))

read_numbers :
    (a b c : ℕ)
    → a < u32_mod
    → b < u32_mod
    → c < u32_mod
    → proc_fields (format_int64 a ∷ format_int64 b ∷ format_int64 c ∷ []) ≡ some (some (a, b, c))
unfolding proc_fields format_int64
read_numbers a b c ha hb hc = rw (
  small a ha,
  small b hb,
  small c hc,
  parse_uint-format_uint _ a ha,
  parse_uint-format_uint _ b hb,
  parse_uint-format_uint _ c hc,
)

-- The fields of the line of a 32-bit entry, behind its letter, are read by the reader of the
-- kernel's map files as the numbers of the entry, in the order of those files.
proc_fields-lxc_line :
    (kind : ℕ) (e : IdmapEntry)
    → IsU32 e
    → is_space kind ≡ false
    → (numbers : List Bytes) × (fields (lxc_line kind e) ≡ (kind ∷ []) ∷ numbers)
      × (proc_fields numbers ≡ some (some (e.nsid, e.hostid, e.maprange)))
unfolding lxc_line
proc_fields-lxc_line kind e (uh, un, um) k = (
  format_int64 e.nsid ∷ format_int64 e.hostid ∷ format_int64 e.maprange ∷ [],
  fields-word (kind ∷ []) _ (k, tt) refl
      ∙ ap (λ t. (kind ∷ []) ∷ t)
          (fields-word (format_int64 e.nsid) _ (number-IsSolid e.nsid un)
              (number_nonempty e.nsid un)
            ∙ ap (λ t. format_int64 e.nsid ∷ t)
                (fields-word (format_int64 e.hostid) _ (number-IsSolid e.hostid uh)
                    (number_nonempty e.hostid uh)
                  ∙ ap (λ t. format_int64 e.hostid ∷ t)
                      (fields_last (format_int64 e.maprange) (number-IsSolid e.maprange um)
                        (number_nonempty e.maprange um)))),
  read_numbers e.nsid e.hostid e.maprange un uh um,
)

-- Every line of one text stands in the other.
module _ (l : Bytes) where
  -- The line, with its newline, is one of an entry of the set.
  abbrev pub has_line : List Bytes → Bool
  has_line [] = false
  has_line (x ∷ xs) = bytes_eq (x ++ (b'\n' ∷ [])) l || has_line xs

  abbrev pub set_has_line : IdmapSet → Bool
  set_has_line [] = false
  set_has_line (e ∷ m) = has_line (to_lxc_string e) || set_has_line m

  slice_present :
      (x : Bytes) (xs : List Bytes)
      → string_in_slice x xs ≡ true
      → string_in_slice l xs ≡ string_in_slice l xs || bytes_eq x l
  slice_present x xs h = elim (Bool-cases (bytes_eq x l)) [
    | inl e ↦ ground (arith, bytes_eq→eq x l e)
    | inr e ↦ ground arith
  ]

  add_lines_lem :
      (ls lines : List Bytes)
      → string_in_slice l (add_lines ls lines) ≡ string_in_slice l lines || has_line ls
  unfolding add_lines
  add_lines_lem [] lines = ground arith
  add_lines_lem (x ∷ ls) lines =
      let line = x ++ (b'\n' ∷ []) in
      elim (Bool-cases (string_in_slice line lines)) [
        | inl old ↦ rw old (ground (arith, add_lines_lem ls lines, slice_present line lines old))
        | inr new ↦ rw new (
            ground
              (arith, add_lines_lem ls (lines ++ line ∷ []), string_in_slice-append l lines line))
      ]

  lxc_lines_lem :
      (m : IdmapSet) (lines : List Bytes)
      → string_in_slice l (lxc_lines m lines) ≡ string_in_slice l lines || set_has_line m
  unfolding lxc_lines
  lxc_lines_lem [] lines = ground arith
  lxc_lines_lem (e ∷ m) lines = ground (
    arith,
    lxc_lines_lem m (add_lines (to_lxc_string e) lines),
    add_lines_lem (to_lxc_string e) lines,
  )

distinct-append :
    (xs : List Bytes) (x : Bytes)
    → distinct xs ≡ true
    → string_in_slice x xs ≡ false
    → distinct (xs ++ x ∷ []) ≡ true
unfolding string_in_slice
distinct-append [] x d h = refl
distinct-append (y ∷ xs) x d h =
    ground
      (arith, distinct-append xs x, string_in_slice-append y xs x, bytes_eq→eq x y, eq→bytes_eq y x)

add_lines-distinct :
    (ls lines : List Bytes) → distinct lines ≡ true → distinct (add_lines ls lines) ≡ true
unfolding add_lines
add_lines-distinct [] lines d = d
add_lines-distinct (x ∷ ls) lines d =
    let line = x ++ (b'\n' ∷ []) in
    elim (Bool-cases (string_in_slice line lines)) [
      | inl old ↦ rw old (add_lines-distinct ls lines d)
      | inr new ↦
          rw new (add_lines-distinct ls (lines ++ line ∷ []) (distinct-append lines line d new))
    ]

lxc_lines-distinct :
    (m : IdmapSet) (lines : List Bytes)
    → distinct lines ≡ true
    → distinct (lxc_lines m lines) ≡ true
unfolding lxc_lines
lxc_lines-distinct [] lines d = d
lxc_lines-distinct (e ∷ m) lines d =
    lxc_lines-distinct m (add_lines (to_lxc_string e) lines)
      (add_lines-distinct (to_lxc_string e) lines d)

-- The text of a set holds exactly the lines of its entries, each with a newline, and none twice.
set_to_lxc_string_lem :
    (m : IdmapSet)
    → (distinct (set_to_lxc_string m) ≡ true)
      × ((l : Bytes) → string_in_slice l (set_to_lxc_string m) ≡ set_has_line l m)
unfolding set_to_lxc_string
set_to_lxc_string_lem m =
    (lxc_lines-distinct m [] refl, λ l. lxc_lines_lem l m [] ∙ unfold string_in_slice in refl)
