-- ===== src/Device/Proofs/Equality.antt =====
-- When two devices are equal.
use mercuryc.Base.{
  Bytes, [], ◌∷◌, true, false, ◌↔◌, arith, refl, ◌≡◌, bytes_eq→eq, bytes_eq_sym, eq→bytes_eq, sym,
}
use mercuryc.Base.Dict.{find, has}
use mercuryc.Device.{Device, get, agree, device_equals}

agree_sound :
    (rest d old : Device) (k : Bytes)
    → agree rest d old ≡ true
    → has k rest ≡ true
    → get k d ≡ get k old
unfolding agree find
agree_sound [] d old k a h = cc
agree_sound ((j, v) ∷ rest) d old k a h =
    ground (arith, agree_sound rest d old k, bytes_eq→eq j k, bytes_eq→eq (get j d) (get j old))

agree_complete :
    (rest d old : Device) → ((k : Bytes) → get k d ≡ get k old) → agree rest d old ≡ true
unfolding agree
agree_complete [] d old e = refl
agree_complete ((j, v) ∷ rest) d old e =
    ground (arith, agree_complete rest d old e, eq→bytes_eq (get j d) (get j old) (e j))

get_missing : (k : Bytes) (d : Device) → has k d ≡ false → get k d ≡ []
unfolding get
get_missing k d h = ground arith

-- Two devices are equal, by the code's test, exactly when every property has the same value in both,
-- a missing property and an empty one being the same.
pub device_equals_iff :
    (old d : Device) → (device_equals old d ≡ true) ↔ ((k : Bytes) → get k old ≡ get k d)
unfolding device_equals
device_equals_iff old d = (
  λ h k.
      grind
        (arith, agree_sound d d old k, agree_sound old d old k, get_missing k d, get_missing k old),
  λ e.
      ground
        (arith, agree_complete d d old (λ k. sym (e k)), agree_complete old d old (λ k. sym (e k))),
)

agree_sym : (rest d old : Device) → agree rest d old ≡ agree rest old d
unfolding agree
agree_sym [] d old = refl
agree_sym ((k, v) ∷ rest) d old =
    ground (arith, agree_sym rest d old, bytes_eq_sym (get k d) (get k old))

pub device_equals_sym : (a b : Device) → device_equals a b ≡ device_equals b a
unfolding device_equals
device_equals_sym a b = ground (arith, agree_sym a a b, agree_sym b b a)
