-- ===== src/Trust/Proofs/Outsiders.antt =====
-- What a client can do that the daemon does not trust and that does not know the password.
use mercuryc.Base.{
  List, [], ◌∷◌, Bool, true, false, ◌&&◌, not, ◌≡◌, arith, refl, if◌then◌else◌, Bool-cases, inl,
  inr,
}
use mercuryc.Trust.{
  Library, Store, Request, forbidden, is_trusted_client, password_check, is_allowed,
  certificates_post,
}
use mercuryc.Trust.Requests.{Call, add, remove, change, handle, handle_all}

abbrev has_password : Library → Store → Call → Bool
has_password lib s (add req) = password_check lib s req.password
has_password lib s (remove prefix read_again) = false
has_password lib s (change prefix etag name new_type) = false

-- The client is not trusted now, and its request does not bring the password.
abbrev pub is_outsider : Library → Store → Request × Call → Bool
is_outsider lib s (r, c) = not (is_trusted_client s r) && not (has_password lib s c)

handle_outsider :
    (lib : Library) (s : Store) (r : Request) (c : Call)
    → is_outsider lib s (r, c) ≡ true
    → handle lib s (r, c) ≡ (s, forbidden)
unfolding handle is_allowed certificates_post is_trusted_client
handle_outsider lib s r (add req) h = ground arith
handle_outsider lib s r (remove prefix read_again) h = ground arith
handle_outsider lib s r (change prefix etag name new_type) h = ground arith

-- The requests of a sequence that are not an outsider's at the time they come.
unfoldable pub insiders : Library → Store → List (Request × Call) → List (Request × Call)
insiders lib s [] = []
insiders lib s (c ∷ cs) =
    let rest = insiders lib (handle lib s c).0 cs in if is_outsider lib s c then rest else c ∷ rest

-- Outsiders do not interfere: in any sequence of requests on certificates, the requests of clients that are
-- not trusted when they come, and that do not bring the password, can be left out, and the table of
-- certificates, the list of trusted ones and the configuration end the same.
pub handle_all-insiders :
    (lib : Library) (s : Store) (cs : List (Request × Call))
    → handle_all lib s cs ≡ handle_all lib s (insiders lib s cs)
unfolding handle_all insiders
handle_all-insiders lib s [] = refl
handle_all-insiders lib s ((r, c) ∷ cs) = elim (Bool-cases (is_outsider lib s (r, c))) [
  | inl t ↦
      ground
        (arith, handle_all-insiders lib (handle lib s (r, c)).0 cs, handle_outsider lib s r c t)
  | inr t ↦ ground (arith, handle_all-insiders lib (handle lib s (r, c)).0 cs)
]
