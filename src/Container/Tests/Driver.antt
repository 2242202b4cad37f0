-- ===== src/Container/Tests/Driver.antt =====
-- The container driver's operations, settings and names at which the theorems are applied.
use mercuryc.Base.{
  ℕ, suc, ◌<◌, ◌≤◌, Bytes, List, [], ◌∷◌, ◌++◌, Option, none, some, Bool, true, false, ◌≡◌, refl,
  codes, bytes_eq, string_in_slice, has_prefix, split, to_lower, length, if◌then◌else◌, arith,
}
use mercuryc.Device.{Device}
use mercuryc.Container.Lock.{
  unlocked, holds, Event, look, insert, finish, is_done_at, steps, Call, create_operation,
  done_call,
}
use mercuryc.Container.Raw.{blacklist, valid_fields, mercury_valid_config}
use mercuryc.Container.Expand.{eth, taken_names, next_interface_name}
use mercuryc.Container.Proofs.Lock.{IsSound, steps-IsSound, race, create_race}
use mercuryc.Container.Proofs.Raw.{raw_safe}
use mercuryc.Container.Proofs.Expand.{next_interface_name_lem}

steps-IsSound_example :
    IsSound (steps (look 0 false ∷ insert 0 (codes "stop") false ∷ finish 0 none ∷ []) unlocked)
steps-IsSound_example =
    steps-IsSound (look 0 false ∷ insert 0 (codes "stop") false ∷ finish 0 none ∷ [])

-- Both operations time out, as far as they can.
abbrev timeouts : List Event
timeouts = finish 0 (some (codes "timed out")) ∷ finish 1 (some (codes "timed out")) ∷ []

create_race_example :
    ((steps (race 3 4 (codes "start") (codes "stop")) unlocked).places 3 ≡ holds 0)
    × ((steps (race 3 4 (codes "start") (codes "stop")) unlocked).places 4 ≡ holds (suc 0))
    × (is_done_at 0 (steps timeouts (steps (race 3 4 (codes "start") (codes "stop")) unlocked)).ops
        ≡ false)
create_race_example = create_race 3 4 (codes "start") (codes "stop") unlocked timeouts refl refl

abbrev two_calls : List Call
two_calls =
    create_operation 0 (codes "start") false false
    ∷ done_call 0 none
    ∷ create_operation 1 (codes "stop") false false
    ∷ []

abbrev raw : Bytes
raw = codes "# limits" ++ 10 ∷ codes " Mercury.net.0.IPv4 = 10.0.0.1"

raw_safe_example :
    (string_in_slice (to_lower (codes "Mercury.net.0.IPv4")) blacklist ≡ false)
    × (has_prefix
            (to_lower (codes "Mercury.net.0.IPv4"))
            (if true then codes "mercury.net." else codes "mercury.network.")
          ≡ true
        → valid_fields (split (to_lower (codes "Mercury.net.0.IPv4")) b'.') ≡ true)
unfolding mercury_valid_config split has_prefix mercuryc.Base.split_two string_in_slice bytes_eq
    to_lower mercuryc.Base.lower_byte
raw_safe_example =
    raw_safe true raw (codes " ") (codes "Mercury.net.0.IPv4") (codes " ") (codes " 10.0.0.1") refl
      refl refl refl refl refl

abbrev own : List (Bytes × Bytes)
own = (codes "boot.autostart", codes "1") ∷ []

abbrev nics : List (Bytes × Device)
nics = (codes "net", (codes "name", codes "eth0") ∷ []) ∷ []

next_interface_name_example :
    (k : ℕ) × (next_interface_name nics own (codes "lo" ∷ []) ≡ some (eth k))
    × (k ≤ length (taken_names nics own (codes "lo" ∷ [])))
    × (string_in_slice (eth k) (taken_names nics own (codes "lo" ∷ [])) ≡ false)
    × ((j : ℕ) → j < k → string_in_slice (eth j) (taken_names nics own (codes "lo" ∷ [])) ≡ true)
next_interface_name_example = next_interface_name_lem nics own (codes "lo" ∷ [])
