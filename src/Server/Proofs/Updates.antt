-- ===== src/Server/Proofs/Updates.antt =====
-- A request that changes the configuration, and the start of the daemon.
use mercuryc.Base.{
  Bytes, List, [], ◌∷◌, Option, none, some, true, false, ◌||◌, ◌≡◌, ◌↔◌, arith, refl, bytes_eq,
  bytes_eq→eq, bytes_eq_refl, if◌then◌else◌,
}
use mercuryc.Base.Dict.{find, put, has, is_some, unique}
use mercuryc.Device.{get}
use mercuryc.Server.{Key, System, Server, daemon_config, set_value, init_loop, daemon_config_init}
use mercuryc.Server.Request.{
  Value, null, value_eq, get_request, is_hidden, restore_hidden, changed_old, changed_new, text_of,
  set_loop, do_api10_update,
}
use mercuryc.Server.Proofs.Values.{set_value_lem}
use mercuryc.Server.Proofs.Collect.{
  visible-not_password, find-restore_hidden, restore_hidden-unique, changed_old-unique,
  changed_new-unique, find-changed_old, find-changed_new, asked, value_eq-asked,
}

-- The first round of a loop that sets all changes.
set_loop_inv :
    (sys : System) (s : Server) (name : Bytes) (w : Value) (changed : List (Bytes × Value))
    (t : Option Bytes) (o : Option Key)
    → text_of w ≡ t
    → find name daemon_config ≡ o
    → (set_loop sys s ((name, w) ∷ changed)).1 ≡ true
    → (value : Bytes) × (key : Key) × (asked w ≡ value)
      × (find name daemon_config ≡ some key)
      × ((set_value sys s name key value).1 ≡ true)
      × (set_loop sys s ((name, w) ∷ changed)
          ≡ set_loop sys (set_value sys s name key value).0 changed)
unfolding set_loop
set_loop_inv sys s name w changed none o e f h = ground arith
set_loop_inv sys s name w changed (some value) none e f h = ground arith
set_loop_inv sys s name w changed (some value) (some key) e f h =
    (value, key, ground arith, f, ground arith, ground arith)

set_loop_lem :
    (sys : System) (s : Server) (changed : List (Bytes × Value)) (j : Bytes)
    → unique changed ≡ true
    → (set_loop sys s changed).1 ≡ true
    → is_hidden j ≡ false
    → get j s.current ≡ get j s.stored
    → (get j (set_loop sys s changed).0.current ≡ get j (set_loop sys s changed).0.stored)
      × (get j (set_loop sys s changed).0.stored
          ≡ elim (find j changed) [ none ↦ get j s.stored | some v ↦ asked v ])
unfolding set_loop find
set_loop_lem sys s [] j u h v a = (a, refl)
set_loop_lem sys s ((name, w) ∷ changed) j u h v a =
    let (value, key, e, f, ok, r) =
      set_loop_inv sys s name w changed (text_of w) (find name daemon_config) refl refl h in
    let done = (set_value sys s name key value).0 in
    let (m, n, o, q) = set_value_lem sys s name key value j in
    let rest = set_loop_lem sys done changed j (ground arith) (ground arith) v (ground arith) in
    let visible = visible-not_password name key f in
    (ground (arith, bytes_eq→eq name j), ground (arith, bytes_eq→eq name j))

abbrev or_null : Option Value → Value
or_null r = elim r [ none ↦ null | some v ↦ v ]

abbrev or_empty : Option Bytes → Bytes
or_empty t = elim t [ none ↦ [] | some x ↦ x ]

-- What is asked for is what is collected or what is there already: `r` is the request, `t` the stored text,
-- `c` and `a` what the two loops collect.
collected :
    (r : Option Value) (t : Option Bytes) (c a : Option Value)
    → c
      ≡ elim t [ none ↦ none | some x ↦ if value_eq (or_null r) x then none else some (or_null r) ]
    → a ≡ elim r [ none ↦ c | some v ↦ if value_eq v (or_empty t) then c else some v ]
    → elim a [ none ↦ or_empty t | some v ↦ asked v ] ≡ asked (or_null r)
unfolding text_of value_eq
collected none none c a e f = ground arith
collected none (some x) c a e f = ground arith
collected (some v) none c a e f = ground (arith, value_eq-asked v [])
collected (some v) (some x) c a e f = ground (arith, value_eq-asked v x)

-- A request without an error leaves, under every key but the hidden ones, what it asks for, both in the cache
-- and in the data base: the text that it gives, or the empty text for a key that it leaves out; if cache and
-- data base agreed before.
pub do_api10_update_lem :
    (sys : System) (s : Server) (req : List (Bytes × Value)) (j : Bytes)
    → unique s.stored ≡ true
    → unique req ≡ true
    → (do_api10_update sys s req).1 ≡ true
    → is_hidden j ≡ false
    → get j s.current ≡ get j s.stored
    → (get j (do_api10_update sys s req).0.current ≡ asked (get_request j req))
      × (get j (do_api10_update sys s req).0.stored ≡ asked (get_request j req))
unfolding do_api10_update get_request get value_eq text_of
do_api10_update_lem sys s req j us ur h v a =
    let restored = restore_hidden s.stored req in
    let changed = changed_old restored s.stored [] in
    let all = changed_new s.stored restored changed in
    let (c, d) =
      set_loop_lem sys s all j
        (changed_new-unique s.stored restored changed
          (changed_old-unique restored s.stored [] refl))
        h v a in
    let e = find-restore_hidden s.stored j req v in
    let f = find-changed_old j restored s.stored [] us in
    let g = find-changed_new j s.stored restored changed (restore_hidden-unique s.stored req ur) in
    let asked_for =
      collected (find j req) (find j s.stored) (find j changed) (find j all) (ground arith)
        (ground arith) in
    (ground arith, ground arith)

has-cons :
    (name j v : Bytes) (m : List (Bytes × Bytes))
    → has name ((j, v) ∷ m) ≡ bytes_eq j name || has name m
unfolding find
has-cons name j v m = ground arith

init_loop_known :
    (values current : List (Bytes × Bytes)) (name : Bytes)
    → is_some (init_loop values current) ≡ true
    → has name values ≡ true
    → has name daemon_config ≡ true
unfolding init_loop
init_loop_known [] current name h f = ground (arith, has_nil name)
  where
    has_nil : (name : Bytes) → has {V = Bytes} name [] ≡ false
    has_nil name = ground arith
init_loop_known ((j, v) ∷ values) current name h f =
    let first : (is_some (find j daemon_config) ≡ true)
        × (is_some (init_loop values (put j v current)) ≡ true) =
      ground arith in
    ground (
      arith,
      has-cons name j v values,
      init_loop_known values (put j v current) name,
      bytes_eq→eq j name,
    )

init_loop_started :
    (values current : List (Bytes × Bytes))
    → ((name : Bytes) → has name values ≡ true → has name daemon_config ≡ true)
    → is_some (init_loop values current) ≡ true
unfolding init_loop
init_loop_started [] current h = refl
init_loop_started ((j, v) ∷ values) current h =
    let rest =
      init_loop_started values (put j v current)
        (λ name f. h name (ground (arith, has-cons name j v values))) in
    let first = h j (ground (arith, has-cons j j v values, bytes_eq_refl j)) in ground arith

-- The daemon starts exactly if the data base holds no key that the table does not have: an unknown key, of which
-- the code only logs that it is invalid, makes daemonConfigInit panic.
daemon_config_init_iff :
    (values : List (Bytes × Bytes))
    → (is_some (daemon_config_init values) ≡ true)
      ↔ ((name : Bytes) → has name values ≡ true → has name daemon_config ≡ true)
unfolding daemon_config_init
daemon_config_init_iff values =
    (λ h name. init_loop_known values [] name h, λ h. init_loop_started values [] h)
