-- ===== src/Trust/Proofs/Revoked.antt =====
-- What the removal of a certificate does to the trust in it.
use mercuryc.Base.{
  ℕ, Bytes, List, [], ◌∷◌, Option, none, some, Bool, true, false, ◌≡◌, arith, refl, ap, bytes_eq,
  bytes_eq→eq, eq→bytes_eq, Bool-cases, inl, inr,
}
use mercuryc.Trust.{
  Cert, CertRow, Library, Store, Request, done, has_raw, check_trust_state, read_pem, read_rows,
  read_saved_client_ca_list,
}
use mercuryc.Trust.Requests.{cert_get, delete_rows, certificate_delete}
use mercuryc.Trust.Proofs.Table.{is_labelled}

-- No certificate with the fingerprint is read from the table without its rows.
read_rows-delete_rows :
    (lib : Library) (f : Bytes) (cert : Cert) (rows : List CertRow)
    → is_labelled lib rows ≡ true
    → lib.fingerprint cert.raw ≡ f
    → has_raw cert (read_rows lib (delete_rows f rows)) ≡ false
unfolding read_rows delete_rows
read_rows-delete_rows lib f cert [] l p = refl
read_rows-delete_rows lib f cert (row ∷ rows) l p = elim (Bool-cases (bytes_eq row.fingerprint f)) [
  | inl t ↦ ground (arith, read_rows-delete_rows lib f cert rows (ground arith) p)
  | inr t ↦
      by_row (read_rows-delete_rows lib f cert rows (ground arith) p) (read_pem lib row.certificate)
        refl t
]
  where
    by_row :
        has_raw cert (read_rows lib (delete_rows f rows)) ≡ false
        → (o : Option Cert) → read_pem lib row.certificate ≡ o
        → bytes_eq row.fingerprint f ≡ false
        → has_raw cert (read_rows lib (delete_rows f (row ∷ rows))) ≡ false
    by_row rest none e t = ground arith
    by_row rest (some c) e t = elim (Bool-cases (bytes_eq cert.raw c.raw)) [
      | inl u ↦ ground (
        arith,
        bytes_eq→eq (lib.fingerprint c.raw) row.fingerprint,
        eq→bytes_eq row.fingerprint f,
        ap lib.fingerprint (bytes_eq→eq cert.raw c.raw u),
      )
      | inr u ↦ ground arith
    ]

-- If each row that can be read holds the certificate of its fingerprint, then after a removal that answers
-- with success no certificate with the fingerprint of the row that it found is trusted, at no time and
-- whether or not the table could be read again.
pub certificate_delete-check_trust_state :
    (lib : Library) (s : Store) (r : Request) (prefix : Bytes) (again : Bool) (row : CertRow)
    (now : ℕ) (cert : Cert)
    → is_labelled lib s.table ≡ true
    → cert_get lib prefix s.table ≡ some row
    → (certificate_delete lib s r prefix again).1 ≡ done
    → lib.fingerprint cert.raw ≡ row.fingerprint
    → check_trust_state (certificate_delete lib s r prefix again).0 now cert ≡ false
unfolding certificate_delete check_trust_state read_saved_client_ca_list
certificate_delete-check_trust_state lib s r prefix again row now cert l g d p =
    ground (arith, read_rows-delete_rows lib row.fingerprint cert s.table l p)
