-- ===== src/Trust/Tests.antt =====
-- A daemon that trusts one certificate, and has a password.
use mercuryc.Base.{
  Bytes, List, [], ◌∷◌, ◌++◌, Option, none, some, true, false, ◌≡◌, refl, codes, bytes_eq, take,
  length, drop, ap, sym, some_inj, arith,
}
use mercuryc.Trust.{
  Cert, CertRow, Library, Store, Request, Response, done, forbidden, bad_request, get,
  CertificatesPost, check_trust_state,
}
use mercuryc.Trust.Requests.{Call, add, remove, change, certificate_delete, handle, handle_all}
use mercuryc.Trust.Proofs.Outsiders.{insiders, handle_all-insiders}
use mercuryc.Trust.Proofs.Table.{ReadsBack, is_consistent}
use mercuryc.Trust.Proofs.Parsed.{ConnectionsParsed}
use mercuryc.Trust.Proofs.Steps.{handle_all-is_consistent}
use mercuryc.Trust.Proofs.Revoked.{certificate_delete-check_trust_state}

-- A certificate's raw text begins with its two dates.
abbrev parse : Bytes → Option Cert
parse [] = none
parse (x ∷ []) = none
parse (x ∷ y ∷ s) = some (record { raw = x ∷ y ∷ s; not_before = x; not_after = y })

-- PEM puts a mark in front.
abbrev pem_read : Bytes → Option Bytes
pem_read [] = none
pem_read (x ∷ s) = some s

-- A fingerprint is the raw text without the dates, and a salt is put behind a password.
abbrev lib : Library
lib = record {
  fingerprint = drop 2;
  encode = λ raw. b'-' ∷ raw;
  decode = pem_read;
  parse = parse;
  base64 = λ s. some s;
  remote_host = λ s. some (take 8 s);
  like = λ pattern s. bytes_eq (take 1 pattern) (take 1 s);
  hex_decode = λ s. some s;
  scrypt = λ password salt. some (password ++ salt);
}

abbrev alice : Cert
alice = record { raw = 2 ∷ 8 ∷ codes "alice"; not_before = 2; not_after = 8 }

abbrev row : CertRow
row = record {
  fingerprint = codes "alice";
  cert_type = 1;
  name = codes "a";
  certificate = b'-' ∷ 2 ∷ 8 ∷ codes "alice";
}

abbrev salt : Bytes
salt = codes "0123456789abcdef0123456789abcdef"

abbrev store : Store
store = record {
  table = row ∷ [];
  client_certs = alice ∷ [];
  server = record {
    current = (codes "core.trust_password", salt ++ codes "secret" ++ salt) ∷ [];
    stored = [];
    socket = [];
    proxy_config = [];
    streams = [];
  };
}

-- A request over TLS with the certificate.
abbrev over : Cert → Request
over cert = record {
  method = get;
  remote_addr = codes "10.0.0.2:99";
  tls = some (cert ∷ []);
  now = 5;
  readable = true;
  writable = true;
}

abbrev bob : Cert
bob = record { raw = 0 ∷ 9 ∷ codes "bob"; not_before = 0; not_after = 9 }

abbrev mallory : Cert
mallory = record { raw = 0 ∷ 9 ∷ codes "mallory"; not_before = 0; not_after = 9 }

abbrev post_with : Bytes → CertificatesPost
post_with password = record {
  post_type = codes "client";
  certificate = [];
  name = codes "x";
  password = password;
}

-- Mallory tries to come in and to remove alice; bob comes in with the password; alice removes bob.
abbrev calls : List (Request × Call)
calls =
    (over mallory, add (post_with (codes "guess")))
    ∷ (over mallory, remove (codes "a") true)
    ∷ (over bob, add (post_with (codes "secret")))
    ∷ (over alice, change (codes "b") true (codes "robert") (codes "client"))
    ∷ (over bob, remove (codes "a") true)
    ∷ []

-- Mallory's requests are left out.
insiders-calls : length (insiders lib store calls) ≡ 3
unfolding insiders mercuryc.Trust.is_trusted_client bytes_eq mercuryc.Trust.password_check
    mercuryc.Device.get handle
insiders-calls = refl

-- Alice is out at the end, and bob stays.
calls-alice : check_trust_state (handle_all lib store calls) 5 alice ≡ false
unfolding check_trust_state handle_all bytes_eq mercuryc.Device.get
calls-alice = refl

calls-bob : check_trust_state (handle_all lib store calls) 5 bob ≡ true
unfolding check_trust_state handle_all bytes_eq mercuryc.Device.get
calls-bob = refl

-- A certificate that is trusted already is refused.
add_again : (handle lib store (over alice, add (post_with []))).1 ≡ bad_request
unfolding handle bytes_eq
add_again = refl

handle_all-insiders_example :
    handle_all lib store calls ≡ handle_all lib store (insiders lib store calls)
handle_all-insiders_example = handle_all-insiders lib store calls

lib-ReadsBack : ReadsBack lib
lib-ReadsBack [] cert h = ground arith
lib-ReadsBack (x ∷ []) cert h = ground arith
lib-ReadsBack (x ∷ y ∷ s) cert h = (ap (λ c. c.raw) (sym (some_inj h)), refl)

calls-ConnectionsParsed : ConnectionsParsed lib calls
calls-ConnectionsParsed = ((refl, tt), ((refl, tt), ((refl, tt), ((refl, tt), ((refl, tt), tt)))))

handle_all-is_consistent_example : is_consistent lib (handle_all lib store calls) ≡ true
unfolding mercuryc.Trust.read_rows bytes_eq
handle_all-is_consistent_example =
    handle_all-is_consistent lib store calls lib-ReadsBack calls-ConnectionsParsed refl

certificate_delete-check_trust_state_example :
    check_trust_state (certificate_delete lib store (over alice) (codes "a") true).0 5 alice ≡ false
unfolding mercuryc.Trust.Requests.cert_get bytes_eq certificate_delete
certificate_delete-check_trust_state_example =
    certificate_delete-check_trust_state lib store (over alice) (codes "a") true row 5 alice refl
      refl refl refl
