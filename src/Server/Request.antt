-- ===== src/Server/Request.antt =====
-- daemonConfigRender of apollo/daemon_config.go, and the update of the configuration by a request,
-- doApi10Update of apollo/api_1.0.go.
use mercuryc.Base.{
  Bytes, List, [], ◌∷◌, Option, none, some, Bool, true, false, ◌&&◌, if◌then◌else◌, bytes_eq,
}
use mercuryc.Base.Dict.{find, put}
use mercuryc.Device.{get}
use mercuryc.Server.{Key, System, Server, daemon_config, get_value, set_value}

-- What a request gives for a key: null, a text, a truth value, or something else.
pub data Value : Type 0 where
  null : Value
  string : Bytes → Value
  boolean : Bool → Value
  other : Value

-- Whether an interface{} is equal to a text.
unfoldable pub value_eq : Value → Bytes → Bool
value_eq null t = false
value_eq (string s) t = bytes_eq s t
value_eq (boolean b) t = false
value_eq other t = false

unfoldable pub get_request : Bytes → List (Bytes × Value) → Value
unfolding find
get_request name req = elim (find name req) [ none ↦ null | some v ↦ v ]

-- daemonConfigRender
unfoldable pub render_loop : Server → List (Bytes × Key) → List (Bytes × Value)
unfolding get_value
render_loop s [] = []
render_loop s ((name, key) ∷ keys) =
    let rest = render_loop s keys in
    let value = get_value s name key in
    if bytes_eq value key.default_value
    then rest
    else (name, if key.hidden_value then boolean true else string value) ∷ rest

unfoldable pub daemon_config_render : Server → List (Bytes × Value)
unfolding render_loop
daemon_config_render s = render_loop s daemon_config

abbrev pub is_hidden : Bytes → Bool
is_hidden name = elim (find name daemon_config) [ none ↦ false | some key ↦ key.hidden_value ]

abbrev pub is_true_value : Value → Bool
is_true_value (boolean b) = b
is_true_value _ = false

-- A hidden value that the client sends back as true stands for the old one.
unfoldable pub restore_hidden : List (Bytes × Bytes) → List (Bytes × Value) → List (Bytes × Value)
unfolding find get
restore_hidden old [] = []
restore_hidden old ((name, v) ∷ req) =
    (name, if is_hidden name && is_true_value v then string (get name old) else v)
    ∷ restore_hidden old req

-- The two loops that collect the keys that change.
unfoldable pub changed_old :
    List (Bytes × Value) → List (Bytes × Bytes) → List (Bytes × Value) → List (Bytes × Value)
unfolding value_eq get_request put
changed_old req [] changed = changed
changed_old req ((name, value) ∷ old) changed = changed_old req old (
    if value_eq (get_request name req) value
    then changed
    else put name (get_request name req) changed)

unfoldable pub changed_new :
    List (Bytes × Bytes) → List (Bytes × Value) → List (Bytes × Value) → List (Bytes × Value)
unfolding value_eq put find get
changed_new old [] changed = changed
changed_new old ((name, v) ∷ req) changed =
    changed_new old req (if value_eq v (get name old) then changed else put name v changed)

-- The text that is set; none is a value of another type.
unfoldable pub text_of : Value → Option Bytes
text_of null = some []
text_of (string s) = some s
text_of (boolean b) = none
text_of other = none

-- The loop that sets the changed keys, up to the first error.
unfoldable pub set_loop : System → Server → List (Bytes × Value) → Server × Bool
unfolding text_of find set_value
set_loop sys s [] = (s, true)
set_loop sys s ((name, v) ∷ changed) = elim (text_of v) [
  | none ↦ (s, false)
  | some value ↦ elim (find name daemon_config) [
    | none ↦ (s, false)
    | some key ↦
        let done = set_value sys s name key value in
        let rest = set_loop sys done.0 changed in if done.1 then rest else done
  ]
]

-- doApi10Update, with the table config as the old configuration.
unfoldable pub do_api10_update : System → Server → List (Bytes × Value) → Server × Bool
unfolding restore_hidden changed_old changed_new set_loop
do_api10_update sys s req =
    let restored = restore_hidden s.stored req in
    set_loop sys s (changed_new s.stored restored (changed_old restored s.stored []))
