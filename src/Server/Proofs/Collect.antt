-- ===== src/Server/Proofs/Collect.antt =====
-- What a request changes: the hidden keys, and the two loops that collect the changes.
use mercuryc.Base.{
  Bytes, List, [], ◌∷◌, none, some, Bool, true, false, ◌&&◌, ◌||◌, not, ◌≡◌, arith, refl,
  bytes_eq→eq, if◌then◌else◌,
}
use mercuryc.Base.Dict.{find, put, has, unique, find-put, put-unique}
use mercuryc.Device.{get}
use mercuryc.Server.{Key, daemon_config}
use mercuryc.Server.Request.{
  Value, null, string, boolean, other, value_eq, get_request, is_hidden, restore_hidden,
  changed_old, changed_new, text_of,
}
use mercuryc.Server.Proofs.Values.{is_password}

-- Every key of the table whose setter is the password's is hidden.
abbrev hides_passwords : List (Bytes × Key) → Bool
hides_passwords [] = true
hides_passwords ((j, key) ∷ keys) =
    (not (is_password key.setter) || key.hidden_value) && hides_passwords keys

find-hides :
    (name : Bytes) (key : Key) (keys : List (Bytes × Key))
    → hides_passwords keys ≡ true
    → find name keys ≡ some key
    → is_password key.setter ≡ true
    → key.hidden_value ≡ true
unfolding find
find-hides name key [] h f p = cc
find-hides name key ((j, k) ∷ keys) h f p = ground (arith, find-hides name key keys)

pub visible-not_password :
    (name : Bytes) (key : Key)
    → find name daemon_config ≡ some key
    → is_hidden name ≡ false
    → is_password key.setter ≡ false
visible-not_password name key f h = ground (arith, find-hides name key daemon_config refl f)

pub find-restore_hidden :
    (old : List (Bytes × Bytes)) (name : Bytes) (req : List (Bytes × Value))
    → is_hidden name ≡ false
    → find name (restore_hidden old req) ≡ find name req
unfolding restore_hidden find
find-restore_hidden old name [] h = refl
find-restore_hidden old name ((j, v) ∷ req) h =
    ground (arith, find-restore_hidden old name req h, bytes_eq→eq j name)

has-restore_hidden :
    (old : List (Bytes × Bytes)) (name : Bytes) (req : List (Bytes × Value))
    → has name (restore_hidden old req) ≡ has name req
unfolding restore_hidden find
has-restore_hidden old name [] = refl
has-restore_hidden old name ((j, v) ∷ req) = ground (arith, has-restore_hidden old name req)

pub restore_hidden-unique :
    (old : List (Bytes × Bytes)) (req : List (Bytes × Value))
    → unique req ≡ true
    → unique (restore_hidden old req) ≡ true
unfolding restore_hidden
restore_hidden-unique old [] u = refl
restore_hidden-unique old ((j, v) ∷ req) u =
    ground (arith, restore_hidden-unique old req, has-restore_hidden old j req)

-- One round of the loops that collect the changes.
abbrev pub collect : Bool → Bytes → Value → List (Bytes × Value) → List (Bytes × Value)
collect equal name v changed = if equal then changed else put name v changed

collect-unique :
    (equal : Bool) (name : Bytes) (v : Value) (changed : List (Bytes × Value))
    → unique changed ≡ true
    → unique (collect equal name v changed) ≡ true
collect-unique equal name v changed u = ground (arith, put-unique name v changed)

pub changed_old-unique :
    (req : List (Bytes × Value)) (old : List (Bytes × Bytes)) (changed : List (Bytes × Value))
    → unique changed ≡ true
    → unique (changed_old req old changed) ≡ true
unfolding changed_old
changed_old-unique req [] changed u = u
changed_old-unique req ((j, t) ∷ old) changed u =
    let eq = value_eq (get_request j req) t in
    changed_old-unique req old (collect eq j (get_request j req) changed)
      (collect-unique eq j (get_request j req) changed u)

pub changed_new-unique :
    (old : List (Bytes × Bytes)) (req changed : List (Bytes × Value))
    → unique changed ≡ true
    → unique (changed_new old req changed) ≡ true
unfolding changed_new
changed_new-unique old [] changed u = u
changed_new-unique old ((j, v) ∷ req) changed u =
    let eq = value_eq v (get j old) in
    changed_new-unique old req (collect eq j v changed) (collect-unique eq j v changed u)

pub find-changed_old :
    (name : Bytes) (req : List (Bytes × Value)) (old : List (Bytes × Bytes))
    (changed : List (Bytes × Value))
    → unique old ≡ true
    → find name (changed_old req old changed) ≡ elim (find name old) [
      | none ↦ find name changed
      | some t ↦
          if value_eq (get_request name req) t
          then find name changed
          else some (get_request name req)
    ]
unfolding changed_old find
find-changed_old name req [] changed u = refl
find-changed_old name req ((j, t) ∷ old) changed u = ground (
  arith,
  find-changed_old name req old
      (collect (value_eq (get_request j req) t) j (get_request j req) changed),
  find-put j name (get_request j req) changed,
  bytes_eq→eq j name,
)

pub find-changed_new :
    (name : Bytes) (old : List (Bytes × Bytes)) (req changed : List (Bytes × Value))
    → unique req ≡ true
    → find name (changed_new old req changed) ≡ elim (find name req) [
      | none ↦ find name changed
      | some v ↦ if value_eq v (get name old) then find name changed else some v
    ]
unfolding changed_new find
find-changed_new name old [] changed u = refl
find-changed_new name old ((j, v) ∷ req) changed u = ground (
  arith,
  find-changed_new name old req (collect (value_eq v (get j old)) j v changed),
  find-put j name v changed,
  bytes_eq→eq j name,
)

-- The text that a request asks for; a missing key asks for the empty text.
abbrev pub asked : Value → Bytes
asked v = elim (text_of v) [ none ↦ [] | some t ↦ t ]

pub value_eq-asked : (v : Value) (t : Bytes) → value_eq v t ≡ true → asked v ≡ t
unfolding value_eq text_of
value_eq-asked null t h = cc
value_eq-asked (string s) t h = ground (arith, bytes_eq→eq s t)
value_eq-asked (boolean b) t h = cc
value_eq-asked other t h = cc
