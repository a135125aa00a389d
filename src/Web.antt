-- ===== src/Web.antt =====
-- What every HTTP service shares: the tokens and roles of pkg/middleware/middleware.go and the
-- answers of pkg/apierror/apierror.go.
--
-- The chi router is not modelled: a service's type of endpoints has one constructor for each route
-- of its NewRouter, with the parameters of the URL, and a request names its endpoint. Headers of
-- the answer, request ids, CORS and the recovery from panics are left out.
pub mod Json
pub mod Pages
pub mod Guards
pub mod Tests
use Prim.Native.Char.{code}
use cloudmini_reseller.Common.{
  ℕ, String, Bool, true, false, ◌||◌, Option, none, some, List, [], ◌∷◌, if◌then◌else◌, ◌==◌,
  str_eq, ◌≡◌, refl,
}
use cloudmini_reseller.Common.Int.{ℤ}
use cloudmini_reseller.Common.Action.{Action, Outcome, ok, err, pure, raise, ◌>>=◌}
use cloudmini_reseller.Common.Keeps.{Keeps}

-- The codes of apierror.
pub data Code : Type 0 where
  validation_error unauthorized forbidden not_found conflict insufficient_funds : Code
  provider_unavailable node_unavailable service_unavailable : Code
  rate_limit_exceeded internal_error : Code

pub data Payload (P : Type 0) : Type 0 where
  no_body : Payload P
  problem : Code → Payload P
  data_of : P → Payload P

pub record Response (P : Type 0) : Type 0 where
  pub status : ℕ
  pub body : Payload P

module _ {P : Type 0} where
  -- apierror.Respond, without its message.
  abbrev pub respond : ℕ → Code → Response P
  respond status code = record { status = status; body = problem code }

  abbrev pub respond_json : ℕ → P → Response P
  respond_json status p = record { status = status; body = data_of p }

  abbrev pub no_content : Response P
  no_content = record { status = 204; body = no_body }

  abbrev pub bad_request : Response P
  bad_request = respond 400 validation_error

  abbrev pub internal : Response P
  internal = respond 500 internal_error

pub record Claims : Type 0 where
  pub user_id : String
  pub role : String
  pub reseller_id : String

-- The context of a request that no token came with.
abbrev pub no_claims : Claims
no_claims = record { user_id = ""; role = ""; reseller_id = "" }

-- What the handlers call in packages of others: jwt.ParseWithClaims under the secret of the
-- service, uuid.Parse, decimal.NewFromString, and time.Parse with the layout RFC 3339.
pub record Libraries : Type 0 where
  pub verify : String → Option Claims
  pub parse_uuid : String → Option ℕ
  pub parse_decimal : String → Option ℤ
  pub parse_time : String → Option ℤ

abbrev pub nil_uuid : ℕ
nil_uuid = 0

abbrev pub or_else_of : {A : Type 0} → A → Option A → A
or_else_of x none = x
or_else_of x (some a) = a

-- mustParseUUID of the handlers.
abbrev pub must_parse_uuid : Libraries → String → ℕ
must_parse_uuid lib s = or_else_of nil_uuid (lib.parse_uuid s)

-- `d, _ := decimal.NewFromString(s)`
abbrev pub decimal_or_zero : Libraries → String → ℤ
decimal_or_zero lib s = or_else_of (ℤ.pos 0) (lib.parse_decimal s)

-- What is behind a prefix of a text.
abbrev pub strip_prefix : String → String → Option String
strip_prefix String.[] s = some s
strip_prefix (String.◌∷◌ c p) String.[] = none
strip_prefix (String.◌∷◌ c p) (String.◌∷◌ d s) =
    let rest = strip_prefix p s in if code c == code d then rest else none

-- Which middleware stands before a handler: none, Auth, or Auth and RequireRole.
pub data Guard : Type 0 where
  anyone signed_in : Guard
  with_role : List String → Guard

abbrev pub is_allowed : List String → String → Bool
is_allowed [] role = false
is_allowed (r ∷ rs) role = str_eq r role || is_allowed rs role

-- The names of the two roles that administer.
abbrev pub admins : List String
admins = "admin" ∷ "super_admin" ∷ []

module _ {P : Type 0} (lib : Libraries) where
  unfoldable pub auth : String → Outcome (Response P) Claims
  auth header = elim (strip_prefix "Bearer " header) [
    | none ↦ err (respond 401 unauthorized)
    | some token ↦ elim (lib.verify token) [
      | none ↦ err (respond 401 unauthorized)
      | some claims ↦ ok claims
    ]
  ]

  unfoldable pub require_role : List String → Claims → Outcome (Response P) Claims
  require_role roles claims =
      if is_allowed roles claims.role then ok claims else err (respond 403 forbidden)

  unfoldable pub admit : Guard → String → Outcome (Response P) Claims
  unfolding auth require_role
  admit anyone header = ok no_claims
  admit signed_in header = auth header
  admit (with_role roles) header = elim (auth header) [
    | ok claims ↦ require_role roles claims
    | err r ↦ err r
  ]

-- A handler ends in its answer, whether it returns early or not.
abbrev pub Handler : Type 0 → Type 0 → Type 0 → Type 0 → Type 0
Handler E W P A = Action E W (Response P) A

abbrev pub either : {P : Type 0} → Outcome (Response P) (Response P) → Response P
either (ok r) = r
either (err r) = r

module _ {E W P : Type 0} where
  -- `if err != nil { handleError(err); return }`
  abbrev pub or_respond : {X A : Type 0} → Action E W X A → (X → Response P) → Handler E W P A
  or_respond m answer env w =
      let (r, w') = m env w in (elim r [ ok a ↦ ok a | err e ↦ err (answer e) ], w')

  -- A value that may be missing, such as a body that decodes.
  abbrev pub demand : {A : Type 0} → Option A → Response P → Handler E W P A
  demand none r = raise r
  demand (some a) r = pure a

  abbrev pub reject_if : Bool → Response P → Handler E W P (Unit {0})
  reject_if c r env w = (if c then err r else ok tt, w)

  abbrev pub finish :
      Outcome (Response P) Claims → (Claims → Handler E W P (Response P)) → E → W → Response P × W
  finish (err r) handler env w = (r, w)
  finish (ok claims) handler env w = let (r, w') = handler claims env w in (either r, w')

  -- The middleware, then the handler.
  unfoldable pub run_guarded :
      Libraries → Guard → String → (Claims → Handler E W P (Response P)) → E → W → Response P × W
  run_guarded lib g header handler env w = finish (admit lib g header) handler env w

  pub Keeps-or_respond :
      {X A : Type 0} {Q : W → Type 0} (m : Action E W X A) (answer : X → Response P)
      → Keeps Q m
      → Keeps Q (or_respond m answer)
  Keeps-or_respond m answer km = record { at = λ env w q. km.at env w q }

  pub Keeps-demand :
      {A : Type 0} {Q : W → Type 0} (o : Option A) (r : Response P) → Keeps {E = E} Q (demand o r)
  Keeps-demand none r = record { at = λ env w q. q }
  Keeps-demand (some a) r = record { at = λ env w q. q }

  pub Keeps-reject_if :
      {Q : W → Type 0} (c : Bool) (r : Response P) → Keeps {E = E} Q (reject_if c r)
  Keeps-reject_if c r = record { at = λ env w q. q }

  pub finish-keeps :
      {Q : W → Type 0} (o : Outcome (Response P) Claims) (h : Claims → Handler E W P (Response P))
      → ((c : Claims) → o ≡ ok c → Keeps Q (h c))
      → (env : E) (w : W) → Q w
      → Q (finish o h env w).1
  finish-keeps (err r) h kh env w q = q
  finish-keeps (ok c) h kh env w q = (kh c refl).at env w q
