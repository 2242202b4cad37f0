-- ===== src/Trust/Proofs/Table.antt =====
-- The list of trusted certificates against the table that it is read from.
use mercuryc.Base.{
  Bytes, List, [], ◌∷◌, ◌++◌, none, some, Bool, true, ◌&&◌, ◌||◌, ◌≡◌, arith, refl, bytes_eq,
  bytes_eq_refl,
}
use mercuryc.Trust.{
  Cert, CertRow, Library, Store, has_raw, read_pem, read_rows, save_cert, add_cert,
}
use mercuryc.Trust.Requests.{delete_rows, update_rows}

has_raw-append :
    (cert c : Cert) (xs : List Cert)
    → has_raw cert (xs ++ c ∷ []) ≡ has_raw cert xs || bytes_eq cert.raw c.raw
has_raw-append cert c [] = ground arith
has_raw-append cert c (x ∷ xs) = ground (arith, has_raw-append cert c xs)

-- A certificate that ParseCertificate makes holds the bytes it is made from as Raw, and PEM reads back what
-- it writes of them.
abbrev pub ReadsBack : Library → Type 0
ReadsBack lib =
    (raw : Bytes) (cert : Cert)
    → lib.parse raw ≡ some cert
    → (cert.raw ≡ raw) × (lib.decode (lib.encode raw) ≡ some raw)

-- The certificate is what ParseCertificate makes of its raw bytes.
abbrev pub IsParsed : Library → Cert → Type 0
IsParsed lib cert = lib.parse cert.raw ≡ some cert

read_pem-encode :
    (lib : Library) (cert : Cert)
    → ReadsBack lib
    → IsParsed lib cert
    → read_pem lib (lib.encode cert.raw) ≡ some cert
read_pem-encode lib cert law p = rw (law cert.raw cert p).1 p

read_rows-append :
    (lib : Library) (rows : List CertRow) (row : CertRow) (cert : Cert)
    → read_pem lib row.certificate ≡ some cert
    → read_rows lib (rows ++ row ∷ []) ≡ read_rows lib rows ++ cert ∷ []
unfolding read_rows
read_rows-append lib [] row cert h = ground arith
read_rows-append lib (r ∷ rows) row cert h = ground (arith, read_rows-append lib rows row cert h)

pub read_rows-update_rows :
    (lib : Library) (f name : Bytes) (rows : List CertRow)
    → read_rows lib (update_rows f name rows) ≡ read_rows lib rows
unfolding read_rows update_rows
read_rows-update_rows lib f name [] = refl
read_rows-update_rows lib f name (row ∷ rows) =
    ground (arith, read_rows-update_rows lib f name rows)

-- Does each of the certificates stand in a list?
abbrev all_raw : List Cert → List Cert → Bool
all_raw [] certs = true
all_raw (v ∷ vs) certs = has_raw v certs && all_raw vs certs

-- A row that can be read holds the certificate that its fingerprint names.
abbrev pub row_labelled : Library → CertRow → Bool
row_labelled lib row = elim (read_pem lib row.certificate) [
  | none ↦ true
  | some cert ↦ bytes_eq (lib.fingerprint cert.raw) row.fingerprint
]

abbrev pub is_labelled : Library → List CertRow → Bool
is_labelled lib [] = true
is_labelled lib (row ∷ rows) = row_labelled lib row && is_labelled lib rows

-- Every trusted certificate stands in the table, whose rows are labelled.
abbrev pub is_consistent : Library → Store → Bool
is_consistent lib s = all_raw s.client_certs (read_rows lib s.table) && is_labelled lib s.table

all_raw-append :
    (xs : List Cert) (c : Cert) (ys : List Cert)
    → all_raw (xs ++ c ∷ []) ys ≡ all_raw xs ys && has_raw c ys
all_raw-append [] c ys = ground arith
all_raw-append (x ∷ xs) c ys = ground (arith, all_raw-append xs c ys)

all_raw-more :
    (xs ys : List Cert) (c : Cert) → all_raw xs ys ≡ true → all_raw xs (ys ++ c ∷ []) ≡ true
all_raw-more [] ys c h = refl
all_raw-more (x ∷ xs) ys c h = ground (arith, all_raw-more xs ys c, has_raw-append x c ys)

all_raw-cons : (xs ys : List Cert) (c : Cert) → all_raw xs ys ≡ true → all_raw xs (c ∷ ys) ≡ true
all_raw-cons [] ys c h = refl
all_raw-cons (x ∷ xs) ys c h = ground (arith, all_raw-cons xs ys c)

pub all_raw_self : (xs : List Cert) → all_raw xs xs ≡ true
all_raw_self [] = refl
all_raw_self (x ∷ xs) = ground (arith, all_raw-cons xs xs x (all_raw_self xs), bytes_eq_refl x.raw)

is_labelled-append :
    (lib : Library) (rows : List CertRow) (row : CertRow)
    → is_labelled lib (rows ++ row ∷ []) ≡ is_labelled lib rows && row_labelled lib row
is_labelled-append lib [] row = ground arith
is_labelled-append lib (r ∷ rows) row = ground (arith, is_labelled-append lib rows row)

pub is_labelled-delete_rows :
    (lib : Library) (f : Bytes) (rows : List CertRow)
    → is_labelled lib rows ≡ true
    → is_labelled lib (delete_rows f rows) ≡ true
unfolding delete_rows
is_labelled-delete_rows lib f [] h = refl
is_labelled-delete_rows lib f (row ∷ rows) h = ground (arith, is_labelled-delete_rows lib f rows)

pub is_labelled-update_rows :
    (lib : Library) (f name : Bytes) (rows : List CertRow)
    → is_labelled lib rows ≡ true
    → is_labelled lib (update_rows f name rows) ≡ true
unfolding update_rows
is_labelled-update_rows lib f name [] h = refl
is_labelled-update_rows lib f name (row ∷ rows) h =
    ground (arith, is_labelled-update_rows lib f name rows)

-- The row that saveCert adds.
abbrev new_row : Library → Bytes → Cert → CertRow
new_row lib name cert = record {
  fingerprint = lib.fingerprint cert.raw;
  cert_type = 1;
  name = name;
  certificate = lib.encode cert.raw;
}

pub add_cert-is_consistent :
    (lib : Library) (writable : Bool) (s : Store) (name : Bytes) (cert : Cert)
    → ReadsBack lib
    → IsParsed lib cert
    → is_consistent lib s ≡ true
    → is_consistent lib (add_cert lib writable s name cert).0 ≡ true
unfolding add_cert save_cert
add_cert-is_consistent lib writable s name cert law p h =
    let row = new_row lib name cert in
    let certs = read_rows lib s.table in
    ground (
      arith,
      read_pem-encode lib cert law p,
      read_rows-append lib s.table row cert (read_pem-encode lib cert law p),
      all_raw-append s.client_certs cert (certs ++ cert ∷ []),
      all_raw-more s.client_certs certs cert,
      has_raw-append cert cert certs,
      bytes_eq_refl cert.raw,
      bytes_eq_refl (lib.fingerprint cert.raw),
      is_labelled-append lib s.table row,
    )
