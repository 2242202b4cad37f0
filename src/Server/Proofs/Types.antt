-- ===== src/Server/Proofs/Types.antt =====
-- The types of the values of the daemon's configuration.
use mercuryc.Base.{
  Bytes, List, [], ◌∷◌, Option, none, some, Bool, true, false, ◌&&◌, ◌||◌, not, ◌≡◌, ◌∙◌, arith,
  refl, ap, sym, is_empty, bytes_eq, bytes_eq→eq, if◌then◌else◌, Bool-cases, inl, inr,
}
use mercuryc.Base.Dict.{find}
use mercuryc.Device.{get}
use mercuryc.Server.{
  Key, ValueType, text, bool, int, Setter, System, Server, daemon_config, get_value, valid_type,
  validate, run_setter, set_value,
}
use mercuryc.Server.Proofs.Values.{apply_value_lem, set_value_lem}

-- A value is empty or has the type of its key.
abbrev pub typed : ValueType → Bytes → Bool
typed t value = is_empty value || valid_type t value

-- A key with a setter is a text.
abbrev text_or_plain : Option Setter → ValueType → Bool
text_or_plain none t = true
text_or_plain (some setter) text = true
text_or_plain (some setter) bool = false
text_or_plain (some setter) int = false

abbrev set_as_text : Key → Bool
set_as_text key = text_or_plain key.setter key.value_type

abbrev default_typed : Key → Bool
default_typed key = typed key.value_type key.default_value

abbrev all_keys : (Key → Bool) → List (Bytes × Key) → Bool
all_keys test [] = true
all_keys test ((name, key) ∷ table) = test key && all_keys test table

all_keys-find :
    (test : Key → Bool) (table : List (Bytes × Key)) (name : Bytes) (key : Key)
    → all_keys test table ≡ true
    → find name table ≡ some key
    → test key ≡ true
unfolding find
all_keys-find test [] name key h f = ground arith
all_keys-find test ((n, k) ∷ table) name key h f = elim (Bool-cases (bytes_eq n name)) [
  | inl t ↦ ground arith
  | inr t ↦ ground (arith, all_keys-find test table name key)
]

typed_text : (value : Bytes) → typed text value ≡ true
unfolding valid_type
typed_text value = ground arith

validate-typed :
    (sys : System) (key : Key) (value : Bytes)
    → validate sys key value ≡ true
    → typed key.value_type value ≡ true
unfolding validate
validate-typed sys key value h = ground arith

-- Set of a key with the setter o, of type t.
set_value-typed :
    (sys : System) (s : Server) (name : Bytes) (key : Key) (value : Bytes) (o : Option Setter)
    (t : ValueType)
    → key.setter ≡ o
    → key.value_type ≡ t
    → text_or_plain o t ≡ true
    → typed t (get name s.current) ≡ true
    → typed t (get name (set_value sys s name key value).0.current) ≡ true
unfolding set_value run_setter
set_value-typed sys s name key value none t e f p h =
    ground (arith, validate-typed sys key value, apply_value_lem sys s name value name)
set_value-typed sys s name key value (some setter) text e f p h = typed_text _
set_value-typed sys s name key value (some setter) bool e f p h = ground arith
set_value-typed sys s name key value (some setter) int e f p h = ground arith

-- Sets of keys of the table, one after the other, as the requests make them.
abbrev set_one : System → Server → Bytes → Bytes → Option Key → Server
set_one sys s name value none = s
set_one sys s name value (some key) = (set_value sys s name key value).0

unfoldable pub set_each : Server → List (System × Bytes × Bytes) → Server
unfolding find
set_each s [] = s
set_each s ((sys, name, value) ∷ sets) =
    set_each (set_one sys s name value (find name daemon_config)) sets

some-inj : (x y : Key) → some x ≡ some y → x ≡ y
some-inj x y h = cc

set_one-typed :
    (sys : System) (s : Server) (name value j : Bytes) (k : Key) (o : Option Key)
    → find name daemon_config ≡ o
    → find j daemon_config ≡ some k
    → typed k.value_type (get j s.current) ≡ true
    → typed k.value_type (get j (set_one sys s name value o).current) ≡ true
set_one-typed sys s name value j k none e f h = h
set_one-typed sys s name value j k (some key) e f h = elim (Bool-cases (bytes_eq name j)) [
  | inl t ↦
      let n = bytes_eq→eq name j t in
      let q : some key ≡ some k = sym e ∙ ap (λ m. find m daemon_config) n ∙ f in
      rw (n, some-inj key k q)
        (set_value-typed sys s j k value k.setter k.value_type refl refl
          (all_keys-find set_as_text daemon_config j k refl f) h)
  | inr t ↦ rw (((set_value_lem sys s name key value j).1 t).1) h
]

set_each-typed :
    (s : Server) (sets : List (System × Bytes × Bytes)) (j : Bytes) (k : Key)
    → find j daemon_config ≡ some k
    → typed k.value_type (get j s.current) ≡ true
    → typed k.value_type (get j (set_each s sets).current) ≡ true
unfolding set_each
set_each-typed s [] j k f h = h
set_each-typed s ((sys, name, value) ∷ sets) j k f h =
    set_each-typed (set_one sys s name value (find name daemon_config)) sets j k f
      (set_one-typed sys s name value j k (find name daemon_config) refl f h)

defaults_typed : all_keys default_typed daemon_config ≡ true
unfolding valid_type mercuryc.Base.string_in_slice bytes_eq mercuryc.Base.to_lower
    mercuryc.Base.lower_byte mercuryc.Strconv.parse_int64
defaults_typed = refl

-- If the cached value of a key of the table is empty or of the key's type, then after any sequence of Set,
-- whatever they set and wherever they fail, what is read of the key, its default included, is empty or of
-- its type: a number is one for GetInt64, and a Boolean is one of the eight words.
pub get_value-typed :
    (s : Server) (sets : List (System × Bytes × Bytes)) (j : Bytes) (k : Key)
    → find j daemon_config ≡ some k
    → typed k.value_type (get j s.current) ≡ true
    → typed k.value_type (get_value (set_each s sets) j k) ≡ true
unfolding get_value
get_value-typed s sets j k f h = ground (
  arith,
  set_each-typed s sets j k f h,
  all_keys-find default_typed daemon_config j k defaults_typed f,
)
