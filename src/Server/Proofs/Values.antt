-- ===== src/Server/Proofs/Values.antt =====
-- What Set does to the cache and to the data base.
use mercuryc.Base.{
  Bytes, List, [], ◌∷◌, Option, none, some, Bool, true, false, ◌&&◌, ◌≡◌, arith, refl, codes,
  is_empty, bytes_eq, bytes_eq→eq, bytes_eq_refl, if◌then◌else◌,
}
use mercuryc.Base.Dict.{put, delete, find-put, find-delete}
use mercuryc.Device.{get}
use mercuryc.Server.{
  Key, Setter, address, proxy, password, System, Server, get_named, validate, update_https_port,
  run_setter, store_value, apply_value, set_value,
}

-- The cache and the data base give every key the same value; a missing one is the empty text.
abbrev pub Agrees : Server → Type 0
Agrees s = (j : Bytes) → get j s.current ≡ get j s.stored

abbrev pub is_password : Option Setter → Bool
is_password none = false
is_password (some address) = false
is_password (some proxy) = false
is_password (some password) = true

get-put :
    (k j v : Bytes) (m : List (Bytes × Bytes))
    → get j (put k v m) ≡ (if bytes_eq k j then v else get j m)
unfolding get
get-put k j v m = ground (arith, find-put k j v m)

get-store_value :
    (k j v : Bytes) (m : List (Bytes × Bytes))
    → get j (store_value k v m) ≡ (if bytes_eq k j then v else get j m)
unfolding get store_value
get-store_value k j [] m = ground (arith, find-delete k j m)
get-store_value k j (c ∷ v) m = ground (arith, find-delete k j m, find-put k j (c ∷ v) (delete k m))

-- A setter touches neither the cache nor the data base, and only the password's changes the value.
pub run_setter_keeps :
    (sys : System) (s : Server) (name : Bytes) (setter : Option Setter) (value : Bytes)
    → ((run_setter sys s name setter value).0.current ≡ s.current)
      × ((run_setter sys s name setter value).0.stored ≡ s.stored)
unfolding run_setter update_https_port
run_setter_keeps sys s name none value = (refl, refl)
run_setter_keeps sys s name (some address) value = (ground arith, ground arith)
run_setter_keeps sys s name (some proxy) value = (refl, refl)
run_setter_keeps sys s name (some password) value = (refl, refl)

pub run_setter_value :
    (sys : System) (s : Server) (name : Bytes) (setter : Option Setter) (value v : Bytes)
    → is_password setter ≡ false
    → (run_setter sys s name setter value).1 ≡ some v
    → v ≡ value
unfolding run_setter
run_setter_value sys s name none value v p h = ground arith
run_setter_value sys s name (some address) value v p h = ground arith
run_setter_value sys s name (some proxy) value v p h = ground arith
run_setter_value sys s name (some password) value v p h = cc

pub apply_value_lem :
    (sys : System) (s : Server) (name value j : Bytes)
    → (get j (apply_value sys s name value).0.current
        ≡ (if bytes_eq name j then value else get j s.current))
      × (get j (apply_value sys s name value).0.stored
          ≡ (if sys.write && bytes_eq name j then value else get j s.stored))
      × ((apply_value sys s name value).1 ≡ sys.write)
unfolding apply_value
apply_value_lem sys s name value j =
    ground (arith, get-put name j value s.current, get-store_value name j value s.stored)

-- What Set leaves under a key j.
abbrev Sets : Server → Bytes → Key → Bytes → Bytes → Server × Bool → Type 0
Sets s name key value j r =
    (r.1 ≡ false → get j r.0.stored ≡ get j s.stored)
    × (bytes_eq name j ≡ false
        → (get j r.0.stored ≡ get j s.stored) × (get j r.0.current ≡ get j s.current))
    × (r.1 ≡ true → get j s.current ≡ get j s.stored → get j r.0.current ≡ get j r.0.stored)
    × (r.1 ≡ true
        → is_password key.setter ≡ false
        → get j s.current ≡ get j s.stored
        → bytes_eq name j ≡ true
        → get j r.0.stored ≡ value)

set_value-Sets :
    (sys : System) (s : Server) (name : Bytes) (key : Key) (value j : Bytes) (o : Option Bytes)
    → (run_setter sys s name key.setter value).1 ≡ o
    → Sets s name key value j (set_value sys s name key value)
unfolding set_value
set_value-Sets sys s name key value j none e =
    let (a, b) = run_setter_keeps sys s name key.setter value in
    (
      λ h. ground arith,
      λ h. (ground arith, ground arith),
      λ h c. ground arith,
      λ h p c n. ground (arith, bytes_eq→eq (get name s.current) value, bytes_eq→eq name j),
    )
set_value-Sets sys s name key value j (some v) e =
    let (a, b) = run_setter_keeps sys s name key.setter value in
    let (c, d, w) = apply_value_lem sys (run_setter sys s name key.setter value).0 name v j in
    (
      λ h. ground arith,
      λ h. (ground arith, ground arith),
      λ h q. ground arith,
      λ h p q n. ground (
        arith,
        bytes_eq→eq (get name s.current) value,
        bytes_eq→eq name j,
        run_setter_value sys s name key.setter value v p e,
      ),
    )

-- Set of a key: an error leaves the data base as it was; no other key changes; without an error, cache and
-- data base agree after it where they agreed before, and, except for the password, what is stored is the
-- value.
pub set_value_lem :
    (sys : System) (s : Server) (name : Bytes) (key : Key) (value j : Bytes)
    → ((set_value sys s name key value).1 ≡ false
        → get j (set_value sys s name key value).0.stored ≡ get j s.stored)
      × (bytes_eq name j ≡ false
          → (get j (set_value sys s name key value).0.stored ≡ get j s.stored)
            × (get j (set_value sys s name key value).0.current ≡ get j s.current))
      × ((set_value sys s name key value).1 ≡ true
          → get j s.current ≡ get j s.stored
          → get j (set_value sys s name key value).0.current
            ≡ get j (set_value sys s name key value).0.stored)
      × ((set_value sys s name key value).1 ≡ true
          → is_password key.setter ≡ false
          → get j s.current ≡ get j s.stored
          → bytes_eq name j ≡ true
          → get j (set_value sys s name key value).0.stored ≡ value)
set_value_lem sys s name key value j =
    set_value-Sets sys s name key value j (run_setter sys s name key.setter value).1 refl

-- When the data base refuses the write of a valid new value for a key without a setter, Set fails, but the
-- cache holds the value: Set of the same value then succeeds at once, on any later day, and the data base
-- never gets it.
pub set_value_lost :
    (sys later : System) (s : Server) (name : Bytes) (key : Key) (value : Bytes)
    → sys.write ≡ false
    → key.setter ≡ none
    → validate sys key value ≡ true
    → bytes_eq (get name s.current) value ≡ false
    → ((set_value sys s name key value).1 ≡ false)
      × (set_value later (set_value sys s name key value).0 name key value
          ≡ ((set_value sys s name key value).0, true))
      × ((set_value sys s name key value).0.stored ≡ s.stored)
unfolding set_value run_setter apply_value
set_value_lost sys later s name key value w e v d =
    let there = get-put name name value s.current in
    ground (arith, bytes_eq_refl name, bytes_eq_refl value)

-- When the daemon cannot listen at a new address, the change of core.https_address fails, and the daemon
-- listens nowhere, although its configuration still has the old address.
set_address_deaf :
    (sys : System) (s : Server) (key : Key) (value : Bytes)
    → key.setter ≡ some address
    → validate sys key value ≡ true
    → sys.listen value ≡ false
    → is_empty value ≡ false
    → bytes_eq (get (codes "core.https_address") s.current) value ≡ false
    → bytes_eq (get_named s (codes "core.https_address")) value ≡ false
    → ((set_value sys s (codes "core.https_address") key value).1 ≡ false)
      × ((set_value sys s (codes "core.https_address") key value).0 ≡ record s { socket = [] })
unfolding set_value run_setter update_https_port
set_address_deaf sys s key value e v l n d g = (ground arith, ground arith)
