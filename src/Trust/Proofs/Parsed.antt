-- ===== src/Trust/Proofs/Parsed.antt =====
-- The certificates that requests bring: those of a connection, and the one in the body.
use mercuryc.Base.{
  arith, All, Bytes, List, [], ◌∷◌, Option, none, some, Bool, true, false, not, ◌≡◌, ◌∙◌, ap, refl,
  ◌>>=◌, if◌then◌else◌, is_empty,
}
use mercuryc.Trust.{
  Cert, Library, Request, bad_request, failure, CertificatesPost, PostCert, refused, found,
  last_cert, parse_body, post_cert,
}
use mercuryc.Trust.Requests.{Call}
use mercuryc.Trust.Proofs.Table.{ReadsBack, IsParsed}

-- The certificates of a connection, if it has any, are what ParseCertificate makes.
abbrev pub ConnectionParsed : Library → Option (List Cert) → Type 0
ConnectionParsed lib none = Unit
ConnectionParsed lib (some certs) = All (IsParsed lib) certs

-- So are those of every connection of a sequence of requests.
abbrev pub ConnectionsParsed : Library → List (Request × Call) → Type 0
ConnectionsParsed lib cs = All (λ c. ConnectionParsed lib c.0.tls) cs

abbrev OptionParsed : Library → Option Cert → Type 0
OptionParsed lib none = Unit
OptionParsed lib (some cert) = IsParsed lib cert

last_cert-parsed :
    (lib : Library) (certs : List Cert)
    → All (IsParsed lib) certs
    → OptionParsed lib (last_cert certs)
last_cert-parsed lib [] p = tt
last_cert-parsed lib (cert ∷ []) p = p.0
last_cert-parsed lib (cert ∷ next ∷ certs) p = last_cert-parsed lib (next ∷ certs) p.1

parse_body-parsed :
    (lib : Library) (text : Bytes) → ReadsBack lib → OptionParsed lib (parse_body lib text)
parse_body-parsed lib text law = by_raw (lib.base64 text)
  where
    by_cert : (raw : Bytes) (o : Option Cert) → lib.parse raw ≡ o → OptionParsed lib o
    by_cert raw none e = tt
    by_cert raw (some cert) e = ap lib.parse (law raw cert e).0 ∙ e

    by_raw : (o : Option Bytes) → OptionParsed lib (o >>= lib.parse)
    by_raw none = tt
    by_raw (some raw) = by_cert raw (lib.parse raw) refl

-- The certificate that a request is found to bring is what ParseCertificate makes.
abbrev pub FoundParsed : Library → PostCert → Type 0
FoundParsed lib (refused response) = Unit
FoundParsed lib (found name cert) = IsParsed lib cert

if-FoundParsed :
    (lib : Library) (b : Bool) (x y : PostCert)
    → FoundParsed lib x
    → FoundParsed lib y
    → FoundParsed lib (if b then x else y)
if-FoundParsed lib true x y p q = p
if-FoundParsed lib false x y p q = q

-- The two ways to a certificate in certificatesPost.
abbrev from_body : Bytes → Option Cert → PostCert
from_body name none = refused bad_request
from_body name (some cert) = found name cert

abbrev from_last : Option Bytes → Option Cert → PostCert
from_last host none = refused bad_request
from_last none (some cert) = refused failure
from_last (some host) (some cert) = found host cert

abbrev from_connection : Option Bytes → Option (List Cert) → PostCert
from_connection host none = refused bad_request
from_connection host (some certs) = from_last host (last_cert certs)

from_body-parsed :
    (lib : Library) (name : Bytes) (o : Option Cert)
    → OptionParsed lib o
    → FoundParsed lib (from_body name o)
from_body-parsed lib name none p = tt
from_body-parsed lib name (some cert) p = p

from_last-parsed :
    (lib : Library) (host : Option Bytes) (o : Option Cert)
    → OptionParsed lib o
    → FoundParsed lib (from_last host o)
from_last-parsed lib host none p = tt
from_last-parsed lib none (some cert) p = tt
from_last-parsed lib (some host) (some cert) p = p

from_connection-parsed :
    (lib : Library) (host : Option Bytes) (o : Option (List Cert))
    → ConnectionParsed lib o
    → FoundParsed lib (from_connection host o)
from_connection-parsed lib host none p = tt
from_connection-parsed lib host (some certs) p =
    from_last-parsed lib host (last_cert certs) (last_cert-parsed lib certs p)

post_cert-cases :
    (lib : Library) (r : Request) (req : CertificatesPost)
    → post_cert lib r req ≡ (
        if not (is_empty req.certificate)
        then from_body req.name (parse_body lib req.certificate)
        else from_connection (lib.remote_host r.remote_addr) r.tls)
unfolding post_cert
post_cert-cases lib r req = ground arith

pub post_cert-FoundParsed :
    (lib : Library) (r : Request) (req : CertificatesPost)
    → ReadsBack lib
    → ConnectionParsed lib r.tls
    → FoundParsed lib (post_cert lib r req)
post_cert-FoundParsed lib r req law p = rw (post_cert-cases lib r req) (
    if-FoundParsed lib (not (is_empty req.certificate)) _ _
      (from_body-parsed lib req.name (parse_body lib req.certificate)
        (parse_body-parsed lib req.certificate law))
      (from_connection-parsed lib (lib.remote_host r.remote_addr) r.tls p))
