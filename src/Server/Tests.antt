-- ===== src/Server/Tests.antt =====
-- A daemon at which the theorems are applied.
use mercuryc.Base.{
  Bytes, List, [], ◌∷◌, Option, none, some, Bool, true, false, ◌≡◌, ◌↔◌, refl, codes, is_empty,
  bytes_eq,
}
use mercuryc.Base.Dict.{has, is_some}
use mercuryc.Device.{get}
use mercuryc.Server.{
  Key, int, text, plain, get_value, address, System, Server, daemon_config, set_value, get_named,
  daemon_config_init,
}
use mercuryc.Server.Request.{Value, string, boolean, get_request, do_api10_update}
use mercuryc.Server.Proofs.Values.{is_password, set_value_lem}
use mercuryc.Server.Proofs.Collect.{asked}
use mercuryc.Server.Proofs.Types.{typed, set_each, get_value-typed}
use mercuryc.Server.Proofs.Updates.{do_api10_update_lem}

abbrev sys : System
sys = record {
  look_path = λ s. bytes_eq s (codes "gzip");
  hash = λ s. some (codes "ab");
  listen = λ s. bytes_eq s (codes "10.0.0.1:8443");
  write = true;
}

-- Its data base is full.
abbrev full : System
full = record sys { write = false }

abbrev table : List (Bytes × Bytes)
table =
    (codes "core.https_address", codes "10.0.0.1:8443")
    ∷ (codes "images.auto_update_interval", codes "3")
    ∷ []

abbrev server : Server
server = record {
  current = table;
  stored = table;
  socket = codes "10.0.0.1:8443";
  proxy_config = [];
  streams = [];
}

abbrev interval : Bytes
interval = codes "images.auto_update_interval"

abbrev interval_key : Key
interval_key = plain int (codes "6")

set_value_lem_example :
    ((set_value sys server interval interval_key (codes "9")).1 ≡ false
      → get interval (set_value sys server interval interval_key (codes "9")).0.stored
        ≡ get interval table)
    × (bytes_eq interval interval ≡ false
        → (get interval (set_value sys server interval interval_key (codes "9")).0.stored
            ≡ get interval table)
          × (get interval (set_value sys server interval interval_key (codes "9")).0.current
              ≡ get interval table))
    × ((set_value sys server interval interval_key (codes "9")).1 ≡ true
        → get interval table ≡ get interval table
        → get interval (set_value sys server interval interval_key (codes "9")).0.current
          ≡ get interval (set_value sys server interval interval_key (codes "9")).0.stored)
    × ((set_value sys server interval interval_key (codes "9")).1 ≡ true
        → is_password interval_key.setter ≡ false
        → get interval table ≡ get interval table
        → bytes_eq interval interval ≡ true
        → get interval (set_value sys server interval interval_key (codes "9")).0.stored
          ≡ codes "9")
set_value_lem_example = set_value_lem sys server interval interval_key (codes "9") interval

abbrev req : List (Bytes × Value)
req =
    (interval, string (codes "12"))
    ∷ (codes "core.https_address", string (codes "10.0.0.1:8443"))
    ∷ (codes "core.trust_password", boolean true)
    ∷ []

do_api10_update_example :
    (get interval (do_api10_update sys server req).0.current ≡ asked (get_request interval req))
    × (get interval (do_api10_update sys server req).0.stored ≡ asked (get_request interval req))
unfolding mercuryc.Base.Dict.find bytes_eq do_api10_update mercuryc.Strconv.parse_int64
do_api10_update_example = do_api10_update_lem sys server req interval refl refl refl refl refl

-- A number that is none and one that the full data base refuses, then a good one.
abbrev three_sets : List (System × Bytes × Bytes)
three_sets =
    (sys, interval, codes "x") ∷ (full, interval, codes "7") ∷ (sys, interval, codes "8") ∷ []

get_value-typed_example :
    typed int (get_value (set_each server three_sets) interval interval_key) ≡ true
unfolding mercuryc.Base.Dict.find bytes_eq get mercuryc.Server.valid_type
    mercuryc.Strconv.parse_int64
get_value-typed_example = get_value-typed server three_sets interval interval_key refl refl
