-- ===== src/Logs/Queries.antt =====
-- The endpoint /api/v1/logs.
use mathlib.Core.Path.{subst}
use cloudmini_reseller.Common.{
  ℕ, String, str_eq, eq_iff, Bool, true, false, ◌||◌, ◌&&◌, ◌≡◌, refl, ap, sym, Bool-cases, inl,
  inr, Option, none, some, List, [], ◌∷◌, map, if◌then◌else◌, length, take, drop, All, All-take,
  All-drop, select_where, arith,
}
use cloudmini_reseller.Common.Int.{ℤ, pos, negsuc}
use cloudmini_reseller.Common.Action.{ok}
use cloudmini_reseller.Logs.{LogEntry}
use cloudmini_reseller.Logs.Hub.{World, is_own}
use cloudmini_reseller.Web.{
  either, Response, Payload, data_of, respond_json, internal, Claims, Libraries, Handler, signed_in,
  is_allowed, admins, run_guarded, auth,
}
use cloudmini_reseller.Web.Guards.{run_guarded-signed}
use cloudmini_reseller.Web.Pages.{PageQuery, Params, parse, Meta, new_meta, limit_offset}

-- Which of the two statements fail: the count, whose error is dropped, and the page.
pub record Env : Type 0 where
  pub count_fails : Bool
  pub page_fails : Bool

pub record Query : Type 0 where
  pub user_id : String
  pub action : String
  pub service : String
  pub page : PageQuery

pub data Data : Type 0 where
  entries : List LogEntry → Meta → Data

-- The WHERE clause: an empty text puts no condition.
abbrev pub is_asked : String → String → String → LogEntry → Bool
is_asked user action service e =
    (str_eq user "" || is_own e.user_id user)
    && (str_eq action "" || str_eq e.action action)
    && (str_eq service "" || str_eq e.service_name service)

-- The columns of the page leave the request id out.
abbrev without_request_id : LogEntry → LogEntry
without_request_id e = record e { request_id = none }

-- The rows and the count; none for an error of the second statement.
unfoldable pub list_logs :
    String → String → String → ℤ → ℕ → Env → World → Option (List LogEntry) × ℕ
list_logs user action service offset limit env w = (
  if env.page_fails
      then none
      else limit_offset limit offset (select_where (is_asked user action service) w.entries),
  if env.count_fails then 0 else length (select_where (is_asked user action service) w.entries),
)

-- The user whose rows are asked for: anybody's for administrators, else the bearer's.
abbrev pub filter_user : Claims → Query → String
filter_user claims q = if is_allowed admins claims.role then q.user_id else claims.user_id

abbrev answer : Params → Option (List LogEntry) × ℕ → Response Data
answer p (none, total) = internal
answer p (some rows, total) =
    respond_json 200 (entries (map without_request_id rows) (new_meta p total))

unfoldable pub show_logs : Query → Claims → Handler Env World Data (Response Data)
show_logs q claims env w =
    let p = parse q.page in
    (ok (answer p (list_logs (filter_user claims q) q.action q.service p.offset p.limit env w)), w)

unfoldable pub serve : Libraries → String → Query → Env → World → Response Data × World
serve lib header q = run_guarded lib signed_in header (show_logs q)

-- The rows of an answer.
abbrev pub rows_of : Payload Data → List LogEntry
rows_of (data_of (entries rows meta)) = rows
rows_of _ = []

-- Of which a row is said to be whose user is this.
abbrev pub IsOf : String → LogEntry → Type 0
IsOf user e = e.user_id ≡ some user

own-IsOf : (o : Option String) (user : String) → is_own o user ≡ true → o ≡ some user
own-IsOf none user e = cc
own-IsOf (some u) user e = ap some ((eq_iff u user).0 e)

asked-IsOf :
    (user action service : String) (es : List LogEntry)
    → str_eq user "" ≡ false
    → All (IsOf user) (select_where (is_asked user action service) es)
asked-IsOf user action service [] some_user = tt
asked-IsOf user action service (e ∷ es) some_user =
    ground (arith, some_user, own-IsOf e.user_id user, asked-IsOf user action service es some_user)

selected-IsOf :
    (user : String) (es : List LogEntry)
    → All (IsOf user) es
    → All (IsOf user) (map without_request_id es)
selected-IsOf user [] a = tt
selected-IsOf user (e ∷ es) a = (a.0, selected-IsOf user es a.1)

page-IsOf :
    (user : String) (p : Params) (limit total : ℕ) (offset : ℤ) (es : List LogEntry)
    → All (IsOf user) es
    → All (IsOf user) (rows_of (answer p (limit_offset limit offset es, total)).body)
page-IsOf user p limit total (pos n) es a =
    selected-IsOf user (take limit (drop n es))
      (All-take (IsOf user) limit (drop n es) (All-drop (IsOf user) n es a))
page-IsOf user p limit total (negsuc n) es a = tt

answer-IsOf :
    (user action service : String) (p : Params) (env : Env) (w : World)
    → str_eq user "" ≡ false
    → All
        (IsOf user)
        (rows_of (answer p (list_logs user action service p.offset p.limit env w)).body)
unfolding list_logs
answer-IsOf user action service p env w some_user = elim (Bool-cases env.page_fails) [
  | inl fails ↦ rw fails tt
  | inr up ↦
      rw up
        (page-IsOf user p p.limit _ p.offset _ (asked-IsOf user action service w.entries some_user))
]

shown-IsOf :
    (q : Query) (claims : Claims) (env : Env) (w : World)
    → is_allowed admins claims.role ≡ false
    → str_eq claims.user_id "" ≡ false
    → All (IsOf claims.user_id) (rows_of (either (show_logs q claims env w).0).body)
unfolding show_logs
shown-IsOf q claims env w plain some_user =
    rw plain (answer-IsOf claims.user_id q.action q.service (parse q.page) env w some_user)

-- Whoever is not an administrator and has a token with a subject gets rows of this user only,
-- whatever the query asks for and whatever fails; the rows of the log stay.
pub serve_own :
    (lib : Libraries) (header : String) (claims : Claims) (q : Query) (env : Env) (w : World)
    → auth {P = Data} lib header ≡ ok claims
    → is_allowed admins claims.role ≡ false
    → str_eq claims.user_id "" ≡ false
    → let (r, w') = serve lib header q env w in
      All (IsOf claims.user_id) (rows_of r.body) × (w' ≡ w)
unfolding serve show_logs
serve_own lib header claims q env w carries plain some_user =
    let e =
      run_guarded-signed lib signed_in header claims (show_logs q) env w (show_logs q claims env w)
        refl carries refl in
    (
      subst (λ x. All (IsOf claims.user_id) (rows_of x.0.body)) (sym e)
          (shown-IsOf q claims env w plain some_user),
      ap (λ x. x.1) e,
    )
