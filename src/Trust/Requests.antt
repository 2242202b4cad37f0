-- ===== src/Trust/Requests.antt =====
-- The requests that remove and change certificates, and all of them behind the access check:
-- apollo/certificates.go, apollo/db_certificates.go, and createCmd of apollo/daemon.go.
use mercuryc.Base.{
  Bytes, List, [], ◌∷◌, ◌++◌, Option, none, some, Bool, true, false, not, if◌then◌else◌, codes,
  bytes_eq,
}
use mercuryc.Trust.{
  CertRow, Library, Store, Request, Response, is_allowed, read_saved_client_ca_list,
  CertificatesPost, certificates_post, put, post, delete, done, forbidden, bad_request,
  precondition_failed, failure, not_found,
}

-- dbCertGet: the first row whose fingerprint is like the prefix.
unfoldable pub cert_get : Library → Bytes → List CertRow → Option CertRow
cert_get lib prefix [] = none
cert_get lib prefix (row ∷ rows) =
    let rest = cert_get lib prefix rows in
    if lib.like (prefix ++ codes "%") row.fingerprint then some row else rest

-- dbCertDelete
unfoldable pub delete_rows : Bytes → List CertRow → List CertRow
delete_rows f [] = []
delete_rows f (row ∷ rows) =
    let rest = delete_rows f rows in if bytes_eq row.fingerprint f then rest else row ∷ rest

-- dbCertUpdate
unfoldable pub update_rows : Bytes → Bytes → List CertRow → List CertRow
update_rows f name [] = []
update_rows f name (row ∷ rows) =
    (if bytes_eq row.fingerprint f then record row { name = name; cert_type = 1 } else row)
    ∷ update_rows f name rows

-- certificateFingerprintDelete; `read_again` is whether the table can be read after the row is gone.
unfoldable pub certificate_delete : Library → Store → Request → Bytes → Bool → Store × Response
unfolding cert_get delete_rows read_saved_client_ca_list
certificate_delete lib s r prefix read_again =
    elim (if r.readable then cert_get lib prefix s.table else none) [
      | none ↦ (s, not_found)
      | some row ↦
          if r.writable
          then (
            read_saved_client_ca_list lib read_again
                (record s { table = delete_rows row.fingerprint s.table }),
            done,
          )
          else (s, failure)
    ]

-- certificateFingerprintPut, and certificateFingerprintPatch with the values it takes from the old entry;
-- `etag` is whether etagCheck accepts the request.
unfoldable pub certificate_update :
    Library → Store → Request → Bytes → Bool → Bytes → Bytes → Store × Response
unfolding cert_get update_rows
certificate_update lib s r prefix etag name new_type =
    elim (if r.readable then cert_get lib prefix s.table else none) [
      | none ↦ (s, failure)
      | some row ↦
          if not etag
          then (s, precondition_failed)
          else if not (bytes_eq new_type (codes "client"))
          then (s, bad_request)
          else if r.writable
          then (record s { table = update_rows row.fingerprint name s.table }, done)
          else (s, failure)
    ]

-- The requests on certificates, as they come to createCmd. A request that only reads is left out.
pub data Call : Type 0 where
  add : CertificatesPost → Call
  remove : Bytes → Bool → Call
  change : Bytes → Bool → Bytes → Bytes → Call

-- The handler of certificatesCmd or certificateFingerprintCmd behind the access check.
unfoldable pub handle : Library → Store → Request × Call → Store × Response
unfolding is_allowed certificates_post certificate_delete certificate_update
handle lib s (r, add req) =
    let q = record r { method = post } in
    if is_allowed s q true then certificates_post lib s q req else (s, forbidden)
handle lib s (r, remove prefix read_again) =
    let q = record r { method = delete } in
    if is_allowed s q false then certificate_delete lib s q prefix read_again else (s, forbidden)
handle lib s (r, change prefix etag name new_type) =
    let q = record r { method = put } in
    if is_allowed s q false
    then certificate_update lib s q prefix etag name new_type
    else (s, forbidden)

unfoldable pub handle_all : Library → Store → List (Request × Call) → Store
unfolding handle
handle_all lib s [] = s
handle_all lib s (c ∷ cs) = handle_all lib (handle lib s c).0 cs
