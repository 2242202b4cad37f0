-- ===== src/Trust/Proofs/Steps.antt =====
-- What a request on certificates can do to the store, and what every sequence of requests keeps.
use mercuryc.Base.{
  Bytes, List, [], ◌∷◌, Option, none, some, Bool, true, false, ◌&&◌, not, ◌≡◌, arith, if◌then◌else◌,
  bytes_eq, codes,
}
use mercuryc.Trust.{
  Cert, CertRow, Library, Store, Request, Response, done, bad_request, failure, not_found,
  precondition_failed, post, delete, put, CertificatesPost, PostCert, refused, found, read_rows,
  read_saved_client_ca_list, is_trusted_client, password_check, add_cert, post_cert,
  certificates_post, is_allowed,
}
use mercuryc.Trust.Requests.{
  Call, add, remove, change, cert_get, delete_rows, update_rows, certificate_delete,
  certificate_update, handle, handle_all,
}
use mercuryc.Trust.Proofs.Table.{
  ReadsBack, IsParsed, is_consistent, add_cert-is_consistent, all_raw_self, is_labelled-delete_rows,
  is_labelled-update_rows, read_rows-update_rows,
}
use mercuryc.Trust.Proofs.Parsed.{
  ConnectionParsed, ConnectionsParsed, FoundParsed, post_cert-FoundParsed,
}

data Step (lib : Library) (s : Store) : Store → Type 0 where
  kept : Step lib s s
  added :
      (writable : Bool) (name : Bytes) (cert : Cert)
      → IsParsed lib cert
      → Step lib s (add_cert lib writable s name cert).0
  removed :
      (again : Bool) (f : Bytes)
      → Step lib s
          (read_saved_client_ca_list lib again (record s { table = delete_rows f s.table }))
  changed : (f name : Bytes) → Step lib s (record s { table = update_rows f name s.table })

if-Step :
    {lib : Library} {s : Store} (b : Bool) (x y : Store × Response)
    → Step lib s x.0
    → Step lib s y.0
    → Step lib s (if b then x else y).0
if-Step true x y p q = p
if-Step false x y p q = q

-- The end of certificatesPost once the certificate is looked for.
abbrev answer_post : Library → Store → Bool → PostCert → Store × Response
answer_post lib s writable (refused response) = (s, response)
answer_post lib s writable (found name cert) = add_cert lib writable s name cert

answer_post-Step :
    (lib : Library) (s : Store) (writable : Bool) (p : PostCert)
    → FoundParsed lib p
    → Step lib s (answer_post lib s writable p).0
answer_post-Step lib s writable (refused response) f = kept
answer_post-Step lib s writable (found name cert) f = added writable name cert f

certificates_post-Step :
    (lib : Library) (s : Store) (r : Request) (req : CertificatesPost)
    → ReadsBack lib
    → ConnectionParsed lib r.tls
    → Step lib s (certificates_post lib s r req).0
unfolding certificates_post
certificates_post-Step lib s r req law p =
    if-Step (not (is_trusted_client s r) && not (password_check lib s req.password)) _ _ kept (
      if-Step (not (bytes_eq req.post_type (codes "client"))) _ _ kept (
        answer_post-Step lib s r.writable (post_cert lib r req)
          (post_cert-FoundParsed lib r req law p)))

-- certificateFingerprintDelete once the row is looked for.
abbrev answer_delete : Library → Store → Bool → Bool → Option CertRow → Store × Response
answer_delete lib s writable again none = (s, not_found)
answer_delete lib s writable again (some row) =
    if writable
    then (
      read_saved_client_ca_list lib again
          (record s { table = delete_rows row.fingerprint s.table }),
      done,
    )
    else (s, failure)

answer_delete-Step :
    (lib : Library) (s : Store) (writable again : Bool) (o : Option CertRow)
    → Step lib s (answer_delete lib s writable again o).0
answer_delete-Step lib s writable again none = kept
answer_delete-Step lib s writable again (some row) =
    if-Step writable _ _ (removed again row.fingerprint) kept

-- certificateFingerprintPut once the row is looked for.
abbrev answer_update : Store → Bool → Bool → Bytes → Bytes → Option CertRow → Store × Response
answer_update s writable etag name new_type none = (s, failure)
answer_update s writable etag name new_type (some row) =
    if not etag
    then (s, precondition_failed)
    else if not (bytes_eq new_type (codes "client"))
    then (s, bad_request)
    else if writable
    then (record s { table = update_rows row.fingerprint name s.table }, done)
    else (s, failure)

answer_update-Step :
    (lib : Library) (s : Store) (writable etag : Bool) (name new_type : Bytes) (o : Option CertRow)
    → Step lib s (answer_update s writable etag name new_type o).0
answer_update-Step lib s writable etag name new_type none = kept
answer_update-Step lib s writable etag name new_type (some row) = if-Step (not etag) _ _ kept (
    if-Step (not (bytes_eq new_type (codes "client"))) _ _ kept
      (if-Step writable _ _ (changed row.fingerprint name) kept))

handle-Step :
    (lib : Library) (s : Store) (c : Request × Call)
    → ReadsBack lib
    → ConnectionParsed lib c.0.tls
    → Step lib s (handle lib s c).0
unfolding handle certificate_delete certificate_update
handle-Step lib s (r, add req) law p =
    let q : Request = record r { method = post } in
    if-Step (is_allowed s q true) _ _ (certificates_post-Step lib s q req law p) kept
handle-Step lib s (r, remove prefix read_again) law p =
    if-Step (is_allowed s (record r { method = delete }) false) _ _
      (answer_delete-Step lib s r.writable read_again
        (if r.readable then cert_get lib prefix s.table else none))
      kept
handle-Step lib s (r, change prefix etag name new_type) law p =
    if-Step (is_allowed s (record r { method = put }) false) _ _
      (answer_update-Step lib s r.writable etag name new_type
        (if r.readable then cert_get lib prefix s.table else none))
      kept

Step-is_consistent :
    (lib : Library) (s s' : Store)
    → ReadsBack lib
    → Step lib s s'
    → is_consistent lib s ≡ true
    → is_consistent lib s' ≡ true
unfolding read_saved_client_ca_list
Step-is_consistent lib s s' law kept h = h
Step-is_consistent lib s s' law (added writable name cert p) h =
    add_cert-is_consistent lib writable s name cert law p h
Step-is_consistent lib s s' law (removed again f) h = ground (
  arith,
  is_labelled-delete_rows lib f s.table,
  all_raw_self (read_rows lib (delete_rows f s.table)),
)
Step-is_consistent lib s s' law (changed f name) h =
    ground
      (arith, read_rows-update_rows lib f name s.table, is_labelled-update_rows lib f name s.table)

-- Suppose that a certificate which ParseCertificate makes holds the bytes it is made from as Raw, that PEM
-- reads back what it writes of them, and that ParseCertificate has made the certificates of every connection.
-- Then every sequence of requests on certificates keeps this: every certificate that is trusted stands in the
-- table, and each row that can be read holds the certificate of its fingerprint.
pub handle_all-is_consistent :
    (lib : Library) (s : Store) (cs : List (Request × Call))
    → ReadsBack lib
    → ConnectionsParsed lib cs
    → is_consistent lib s ≡ true
    → is_consistent lib (handle_all lib s cs) ≡ true
unfolding handle_all
handle_all-is_consistent lib s [] law ps h = h
handle_all-is_consistent lib s (c ∷ cs) law (p, ps) h =
    handle_all-is_consistent lib (handle lib s c).0 cs law ps
      (Step-is_consistent lib s (handle lib s c).0 law (handle-Step lib s c law p) h)
