-- ===== src/Web/Guards.antt =====
-- What the middleware has established when it lets a request through.
use mathlib.Core.Path.{subst}
use cloudmini_reseller.Common.{
  String, true, false, ◌≡◌, ◌≢◌, sym, ap, ◌∙◌, ◌⊎◌, inl, inr, some, List, arith, Option-cases,
  Bool-cases,
}
use cloudmini_reseller.Common.Action.{Outcome, ok, err}
use cloudmini_reseller.Web.{
  Response, respond, unauthorized, forbidden, Claims, Libraries, strip_prefix, Guard, signed_in,
  either, with_role, is_allowed, admins, auth, require_role, admit, Handler, finish, run_guarded,
}

-- A header that carries a token which the library verifies, and the claims of that token.
pub record IsSigned (lib : Libraries) (header : String) (claims : Claims) : Type 0 where
  pub token : String
  pub is_bearer : strip_prefix "Bearer " header ≡ some token
  pub verified : lib.verify token ≡ some claims

ok-injective : {X : Type 0} (a b : Claims) → ◌≡◌ {A = Outcome X Claims} (ok a) (ok b) → a ≡ b
ok-injective a b e = cc

module _ {P : Type 0} (lib : Libraries) (header : String) where
  -- Auth answers 401 or lets the claims of a verified token through.
  pub auth-cases :
      (auth {P = P} lib header ≡ err (respond 401 unauthorized))
      ⊎ ((claims : Claims) × (auth {P = P} lib header ≡ ok claims) × IsSigned lib header claims)
  unfolding auth
  auth-cases = elim (Option-cases (strip_prefix "Bearer " header)) [
    | inl missing ↦ inl (ground (arith, missing))
    | inr (token, bearer) ↦ elim (Option-cases (lib.verify token)) [
      | inl refused ↦ inl (ground (arith, bearer, refused))
      | inr (claims, verified) ↦ inr (
        claims,
        ground (arith, bearer, verified),
        record { token = token; is_bearer = bearer; verified = verified },
      )
    ]
  ]

  -- RequireRole behind it lets only claims through whose role is one of the list.
  pub admit-with_role :
      (roles : List String) (claims : Claims)
      → admit {P = P} lib (with_role roles) header ≡ ok claims
      → (auth {P = P} lib header ≡ ok claims) × (is_allowed roles claims.role ≡ true)
  unfolding admit require_role
  admit-with_role roles claims e = ground arith

  pub auth-IsSigned :
      (claims : Claims) → auth {P = P} lib header ≡ ok claims → IsSigned lib header claims
  auth-IsSigned claims e = elim auth-cases [
    | inl refused ↦ cc
    | inr (found, passed, signed) ↦
        subst (IsSigned lib header) (ok-injective found claims (sym passed ∙ e)) signed
  ]

-- The token of a header, if it carries a valid one, is not that of an administrator.
abbrev pub NotAdmin : Libraries → String → Type 0
NotAdmin lib header =
    (claims : Claims) → IsSigned lib header claims → is_allowed admins claims.role ≡ false

pub not_admin :
    {P : Type 0} (lib : Libraries) (header : String) (claims : Claims)
    → NotAdmin lib header
    → admit {P = P} lib (with_role admins) header ≢ ok claims
not_admin {P} lib header claims none_is passed =
    let (signed, allowed) = admit-with_role {P = P} lib header admins claims passed in
    let refused = none_is claims (auth-IsSigned {P = P} lib header claims signed) in cc

-- A handler behind Auth and RequireRole runs only with the claims of a token of the header that the
-- library verifies and whose role is one of the list; otherwise the answer is 401 or 403 and the
-- world stays as it is.
pub run_guarded-IsSigned :
    {E W P : Type 0} (lib : Libraries) (roles : List String) (header : String)
    (handler : Claims → Handler E W P (Response P)) (env : E) (w : W)
    → let r = run_guarded lib (with_role roles) header handler env w in
      (r ≡ (respond 401 unauthorized, w))
      ⊎ (r ≡ (respond 403 forbidden, w))
      ⊎ ((claims : Claims) × IsSigned lib header claims
          × (is_allowed roles claims.role ≡ true)
          × (r ≡ finish (ok claims) handler env w))
unfolding run_guarded admit require_role
run_guarded-IsSigned {P = P} lib roles header handler env w = elim (auth-cases {P = P} lib header) [
  | inl refused ↦ inl (ground (arith, refused))
  | inr (claims, passed, signed) ↦ elim (Bool-cases (is_allowed roles claims.role)) [
    | inl allowed ↦ inr (inr (claims, signed, allowed, ground (arith, passed, allowed)))
    | inr not_allowed ↦ inr (inl (ground (arith, passed, not_allowed)))
  ]
]

-- What comes of a request behind Auth, from what comes of its handler.
pub run_guarded-signed :
    {E W P : Type 0} (lib : Libraries) (g : Guard) (header : String) (claims : Claims)
    (handler : Claims → Handler E W P (Response P)) (env : E) (w : W)
    (r : Outcome (Response P) (Response P) × W)
    → g ≡ signed_in
    → auth {P = P} lib header ≡ ok claims
    → handler claims env w ≡ r
    → run_guarded lib g header handler env w ≡ (either r.0, r.1)
unfolding run_guarded admit
run_guarded-signed {P = P} lib g header claims handler env w r signed carries e =
    ap (λ g. run_guarded lib g header handler env w) signed
    ∙ ap (λ o. finish o handler env w) carries
    ∙ ap (λ x. (either x.0, x.1)) e
