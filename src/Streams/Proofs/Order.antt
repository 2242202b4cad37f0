-- ===== src/Streams/Proofs/Order.antt =====
-- The order of the images.
use mercuryc.Base.{
  Bytes, [], ◌∷◌, Bool, true, false, ◌||◌, not, ◌==◌, ◌≡◌, arith, refl, if◌then◌else◌, bytes_eq,
  bytes_eq→eq, eq→bytes_eq, codes,
}
use mercuryc.Streams.{Image, property, text_ltb, name_before, newer, less}

text_ltb_irrefl : (s : Bytes) → text_ltb s s ≡ false
unfolding text_ltb
text_ltb_irrefl [] = refl
text_ltb_irrefl (a ∷ s) = ground (arith, text_ltb_irrefl s)

text_ltb_trans : (s t u : Bytes) → text_ltb s t ≡ true → text_ltb t u ≡ true → text_ltb s u ≡ true
unfolding text_ltb
text_ltb_trans s t [] p q = ground arith
text_ltb_trans s [] (c ∷ u) p q = ground arith
text_ltb_trans [] (b ∷ t) (c ∷ u) p q = refl
text_ltb_trans (a ∷ s) (b ∷ t) (c ∷ u) p q = ground (arith, text_ltb_trans s t u)

-- Of two different texts one is before the other.
text_ltb_total : (s t : Bytes) → bytes_eq s t ≡ false → text_ltb s t || text_ltb t s ≡ true
unfolding text_ltb bytes_eq
text_ltb_total [] [] h = ground arith
text_ltb_total [] (b ∷ t) h = refl
text_ltb_total (a ∷ s) [] h = ground arith
text_ltb_total (a ∷ s) (b ∷ t) h = ground (arith, text_ltb_total s t)

name_before_irrefl : (s : Bytes) → name_before s s ≡ false
unfolding name_before
name_before_irrefl s = ground (arith, text_ltb_irrefl s)

name_before_trans :
    (s t u : Bytes) → name_before s t ≡ true → name_before t u ≡ true → name_before s u ≡ true
unfolding name_before
name_before_trans s t u p q = ground (arith, text_ltb_trans s t u)

-- Different names in both orders.
name_before_asym : (s t : Bytes) → name_before s t ≡ true → name_before t s ≡ false
name_before_asym s t p = ground (arith, name_before_trans s t s p, name_before_irrefl s)

-- An image with a time.
abbrev pub is_dated : Image → Bool
is_dated image = not (image.created_at == 0)

newer_irrefl : (a : Image) → is_dated a ≡ true → newer a a ≡ false
unfolding newer
newer_irrefl a h = ground (arith, text_ltb_irrefl (property a (codes "serial")))

newer_trans :
    (a b c : Image)
    → is_dated a ≡ true
    → is_dated b ≡ true
    → is_dated c ≡ true
    → newer a b ≡ true
    → newer b c ≡ true
    → newer a c ≡ true
unfolding newer
newer_trans a b c ha hb hc p q = ground (
  arith,
  text_ltb_trans (property c (codes "serial")) (property b (codes "serial"))
      (property a (codes "serial")),
)

newer_self : (a : Image) → newer a a ≡ not (is_dated a)
unfolding newer
newer_self a = ground (arith, text_ltb_irrefl (property a (codes "serial")))

less_self : (a : Image) → less a a ≡ not (is_dated a)
unfolding less
less_self a = ground (
  arith,
  newer_self a,
  eq→bytes_eq (property a (codes "os")) (property a (codes "os")) refl,
  eq→bytes_eq (property a (codes "release")) (property a (codes "release")) refl,
)

-- A key and, where it is the same, another order.
abbrev by_name : Bytes → Bytes → Bool → Bool
by_name s t rest = if bytes_eq s t then rest else name_before s t

by_name_trans :
    (s t u : Bytes) (p q r : Bool)
    → (p ≡ true → q ≡ true → r ≡ true)
    → by_name s t p ≡ true
    → by_name t u q ≡ true
    → by_name s u r ≡ true
by_name_trans s t u p q r h a b = ground (
  arith,
  h,
  name_before_trans s t u,
  name_before_asym s t,
  bytes_eq→eq s t,
  bytes_eq→eq t u,
  bytes_eq→eq s u,
  eq→bytes_eq s u,
)

less_trans :
    (a b c : Image)
    → is_dated a ≡ true
    → is_dated b ≡ true
    → is_dated c ≡ true
    → less a b ≡ true
    → less b c ≡ true
    → less a c ≡ true
unfolding less
less_trans a b c ha hb hc =
    by_name_trans (property a (codes "os")) (property b (codes "os")) (property c (codes "os"))
      (release a b) (release b c) (release a c)
      (by_name_trans (property a (codes "release")) (property b (codes "release"))
        (property c (codes "release")) (newer a b) (newer b c) (newer a c)
        (newer_trans a b c ha hb hc))
  where
    release : Image → Image → Bool
    release x y = by_name (property x (codes "release")) (property y (codes "release")) (newer x y)

-- On images that have a time, Less is a strict order, so that a sort by it is possible: an image before a
-- second that is before a third is before the third, and none of these holds the other way round or of an
-- image and itself.
pub less_lem :
    (a b c : Image)
    → is_dated a ≡ true
    → is_dated b ≡ true
    → is_dated c ≡ true
    → less a b ≡ true
    → less b c ≡ true
    → (less a c ≡ true) × (less b a ≡ false) × (less c a ≡ false) × (less a a ≡ false)
less_lem a b c ha hb hc p q =
    let ac = less_trans a b c ha hb hc p q in
    (
      ac,
      ground (arith, less_trans a b a ha hb ha, less_self a),
      ground (arith, less_trans a c a ha hc ha, less_self a),
      ground (arith, less_self a),
    )

-- An image without a time is before itself.
pub less_undated : (a : Image) → is_dated a ≡ false → less a a ≡ true
less_undated a h = ground (arith, less_self a)
