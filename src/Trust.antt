-- ===== src/Trust.antt =====
-- Who the daemon trusts: apollo/certificates.go, apollo/db_certificates.go, and of apollo/daemon.go
-- isTrustedClient, CheckTrustState, PasswordCheck and the access check of createCmd.
pub mod Requests
pub mod Proofs
mod Tests
use mercuryc.Base.{
  ℕ, ◌+◌, Bytes, List, [], ◌∷◌, ◌++◌, Option, none, some, Bool, true, false, ◌&&◌, ◌||◌, not, ltb,
  ◌>>=◌, if◌then◌else◌, codes, bytes_eq, is_empty, length, take, drop,
}
use mercuryc.Server.{Server, get_named}

-- What the code reads of an x509 certificate.
pub record Cert : Type 0 where
  pub raw : Bytes
  pub not_before : ℕ
  pub not_after : ℕ

-- dbCertInfo; the certificate is its PEM text.
pub record CertRow : Type 0 where
  pub fingerprint : Bytes
  pub cert_type : ℕ
  pub name : Bytes
  pub certificate : Bytes

-- What is called of libraries: CertFingerprint's hash of the raw bytes, the two directions of PEM on raw
-- bytes, x509.ParseCertificate, the reading of a base64 text, SplitHostPort, SQL's LIKE, hex.DecodeString,
-- and scrypt with a salt.
pub record Library : Type 0 where
  pub fingerprint : Bytes → Bytes
  pub encode : Bytes → Bytes
  pub decode : Bytes → Option Bytes
  pub parse : Bytes → Option Cert
  pub base64 : Bytes → Option Bytes
  pub remote_host : Bytes → Option Bytes
  pub like : Bytes → Bytes → Bool
  pub hex_decode : Bytes → Option Bytes
  pub scrypt : Bytes → Bytes → Option Bytes

-- The table certificates, clientCerts, and the configuration with the trust password.
pub record Store : Type 0 where
  pub table : List CertRow
  pub client_certs : List Cert
  pub server : Server

pub data Method : Type 0 where
  get put post delete patch : Method

-- What the code reads of a request and its connection, the time, and whether the data base can be read
-- and written during the request.
pub record Request : Type 0 where
  pub method : Method
  pub remote_addr : Bytes
  pub tls : Option (List Cert)
  pub now : ℕ
  pub readable : Bool
  pub writable : Bool

pub data Response : Type 0 where
  done forbidden bad_request precondition_failed failure not_found : Response

abbrev pub has_raw : Cert → List Cert → Bool
has_raw cert [] = false
has_raw cert (v ∷ certs) = bytes_eq cert.raw v.raw || has_raw cert certs

-- CheckTrustState
unfoldable pub check_trust_state : Store → ℕ → Cert → Bool
check_trust_state s now cert =
    not (ltb now cert.not_before || ltb cert.not_after now) && has_raw cert s.client_certs

unfoldable pub some_trusted : Store → ℕ → List Cert → Bool
unfolding check_trust_state
some_trusted s now [] = false
some_trusted s now (cert ∷ certs) = check_trust_state s now cert || some_trusted s now certs

-- isTrustedClient
unfoldable pub is_trusted_client : Store → Request → Bool
unfolding some_trusted
is_trusted_client s r =
    bytes_eq r.remote_addr (codes "@")
    || elim r.tls [ none ↦ false | some certs ↦ some_trusted s r.now certs ]

-- PasswordCheck; it panics on a stored text of fewer than 32 bytes, which is no success either.
unfoldable pub password_check : Library → Store → Bytes → Bool
unfolding get_named
password_check lib s password =
    let value = get_named s.server (codes "core.trust_password") in
    if is_empty value then false else elim (lib.hex_decode value) [
      | none ↦ false
      | some buff ↦
          if ltb (length buff) 32 then false else elim (lib.scrypt password (take 32 buff)) [
            | none ↦ false
            | some hash ↦ bytes_eq hash (drop 32 buff)
          ]
    ]

-- The access check of createCmd, for a command that lets everyone POST, or not, and lets nobody GET.
unfoldable pub is_allowed : Store → Request → Bool → Bool
unfolding is_trusted_client
is_allowed s r untrusted_post = is_trusted_client s r || elim r.method [
  | post ↦ untrusted_post
  | get ↦ false
  | put ↦ false
  | delete ↦ false
  | patch ↦ false
]

-- The certificate of a row, from its PEM text.
abbrev pub read_pem : Library → Bytes → Option Cert
read_pem lib text = lib.decode text >>= lib.parse

-- readSavedClientCAList: the rows that cannot be read are left out.
unfoldable pub read_rows : Library → List CertRow → List Cert
read_rows lib [] = []
read_rows lib (row ∷ rows) =
    let rest = read_rows lib rows in
    elim (read_pem lib row.certificate) [ none ↦ rest | some cert ↦ cert ∷ rest ]

unfoldable pub read_saved_client_ca_list : Library → Bool → Store → Store
unfolding read_rows
read_saved_client_ca_list lib readable s = record s {
  client_certs = if readable then read_rows lib s.table else [];
}

abbrev pub has_fingerprint : Bytes → List CertRow → Bool
has_fingerprint f [] = false
has_fingerprint f (row ∷ rows) = bytes_eq row.fingerprint f || has_fingerprint f rows

-- saveCert and dbCertSave; the column fingerprint is unique.
unfoldable pub save_cert : Library → Bool → Store → Bytes → Cert → Option Store
save_cert lib writable s host cert =
    let f = lib.fingerprint cert.raw in
    if not writable || has_fingerprint f s.table
    then none
    else some (record s {
      table =
          s.table
          ++ record {
            fingerprint = f;
            cert_type = 1;
            name = host;
            certificate = lib.encode cert.raw;
          }
            ∷ [];
    })

-- api.CertificatesPost, as it is read from the body; a body that is not read is refused before.
pub record CertificatesPost : Type 0 where
  pub post_type : Bytes
  pub certificate : Bytes
  pub name : Bytes
  pub password : Bytes

abbrev pub last_cert : List Cert → Option Cert
last_cert [] = none
last_cert (cert ∷ []) = some cert
last_cert (cert ∷ next ∷ certs) = last_cert (next ∷ certs)

pub data PostCert : Type 0 where
  refused : Response → PostCert
  found : Bytes → Cert → PostCert

-- The certificate in the body of a request.
abbrev pub parse_body : Library → Bytes → Option Cert
parse_body lib text = lib.base64 text >>= lib.parse

-- The certificate of a request and its name: the one in the body, or the last of the connection.
unfoldable pub post_cert : Library → Request → CertificatesPost → PostCert
post_cert lib r req =
    if not (is_empty req.certificate)
    then elim (parse_body lib req.certificate) [
      | none ↦ refused bad_request
      | some cert ↦ found req.name cert
    ]
    else elim r.tls [
      | none ↦ refused bad_request
      | some certs ↦ elim (last_cert certs) [
        | none ↦ refused bad_request
        | some cert ↦ elim (lib.remote_host r.remote_addr) [
          | none ↦ refused failure
          | some host ↦ found host cert
        ]
      ]
    ]

abbrev pub has_cert : Library → Bytes → List Cert → Bool
has_cert lib f [] = false
has_cert lib f (cert ∷ certs) = bytes_eq f (lib.fingerprint cert.raw) || has_cert lib f certs

-- The end of certificatesPost.
unfoldable pub add_cert : Library → Bool → Store → Bytes → Cert → Store × Response
unfolding save_cert
add_cert lib writable s name cert =
    if has_cert lib (lib.fingerprint cert.raw) s.client_certs
    then (s, bad_request)
    else elim (save_cert lib writable s name cert) [
      | none ↦ (s, failure)
      | some s' ↦ (record s' { client_certs = s'.client_certs ++ cert ∷ [] }, done)
    ]

-- certificatesPost
unfoldable pub certificates_post : Library → Store → Request → CertificatesPost → Store × Response
unfolding is_trusted_client password_check post_cert add_cert
certificates_post lib s r req =
    if not (is_trusted_client s r) && not (password_check lib s req.password)
    then (s, forbidden)
    else if not (bytes_eq req.post_type (codes "client"))
    then (s, bad_request)
    else elim (post_cert lib r req) [
      | refused response ↦ (s, response)
      | found name cert ↦ add_cert lib r.writable s name cert
    ]
