-- ===== src/Web/Tests.antt =====
-- Runs and witnesses of the packages of pkg/, and libraries for those of the services.
use Prim.Native.Char.{code}
use cloudmini_reseller.Common.{
  ℕ, zero, suc, String, true, false, ◌==◌, ◌≡◌, ◌⊎◌, refl, Option, none, some, List, [], ◌∷◌, arith,
  if◌then◌else◌,
}
use cloudmini_reseller.Common.Int.{ℤ, pos, negsuc}
use cloudmini_reseller.Common.Action.{ok}
use cloudmini_reseller.Web.{
  Claims, Libraries, Response, respond, respond_json, unauthorized, forbidden, with_role, admins,
  is_allowed, Handler, finish, run_guarded,
}
use cloudmini_reseller.Web.Guards.{IsSigned, NotAdmin, run_guarded-IsSigned}
use cloudmini_reseller.Web.Pages.{PageQuery, parse, atoi, new_meta}

-- Numbers as texts in unary, with a sign before those of decimals.
abbrev pub unary : ℕ → String
unary zero = ""
unary (suc n) = String.◌∷◌ "x" (unary n)

abbrev count : String → ℕ
count String.[] = 0
count (String.◌∷◌ c s) = suc (count s)

abbrev pub signed_unary : ℤ → String
signed_unary (pos n) = String.◌∷◌ "+" (unary n)
signed_unary (negsuc n) = String.◌∷◌ "-" (unary n)

abbrev signed_count : String → Option ℤ
signed_count String.[] = none
signed_count (String.◌∷◌ c s) = some (if code c == 45 then negsuc (count s) else pos (count s))

-- Every token is valid and carries these claims.
abbrev pub signs : Claims → Libraries
signs claims = record {
  verify = λ token. some claims;
  parse_uuid = λ s. some (count s);
  parse_decimal = signed_count;
  parse_time = signed_count;
}

count-unary : (n : ℕ) → count (unary n) ≡ n
count-unary zero = refl
count-unary (suc n) = ground (arith, count-unary n)

pub parse_uuid-unary : (claims : Claims) (n : ℕ) → (signs claims).parse_uuid (unary n) ≡ some n
parse_uuid-unary claims n = rw (count-unary n) refl

pub parse_decimal-signed_unary :
    (claims : Claims) (d : ℤ) → (signs claims).parse_decimal (signed_unary d) ≡ some d
parse_decimal-signed_unary claims (pos n) = rw (count-unary n) refl
parse_decimal-signed_unary claims (negsuc n) = rw (count-unary n) refl

-- User 7, and an administrator.
abbrev pub seven : Claims
seven = record { user_id = "xxxxxxx"; role = "user"; reseller_id = "" }

abbrev pub boss : Claims
boss = record { user_id = "xxxxxxxxx"; role = "admin"; reseller_id = "" }

pub signs-NotAdmin :
    (claims : Claims) (header : String)
    → is_allowed admins claims.role ≡ false
    → NotAdmin (signs claims) header
signs-NotAdmin claims header plain c signed = ground (arith, plain, signed.verified)

abbrev greet : Claims → Handler (Unit {0}) ℕ ℕ (Response ℕ)
greet claims env w = (ok (respond_json 200 w), suc w)

run_guarded-IsSigned_example :
    let r = run_guarded (signs seven) (with_role admins) "Bearer t" greet tt 5 in
    (r ≡ (respond 401 unauthorized, 5))
    ⊎ (r ≡ (respond 403 forbidden, 5))
    ⊎ ((claims : Claims) × IsSigned (signs seven) "Bearer t" claims
        × (is_allowed admins claims.role ≡ true)
        × (r ≡ finish (ok claims) greet tt 5))
run_guarded-IsSigned_example = run_guarded-IsSigned (signs seven) admins "Bearer t" greet tt 5

-- The second page of three rows, two on a page.
abbrev second : PageQuery
second = record { page = "2"; limit = "2"; order = "" }

abbrev three : List ℕ
three = 1 ∷ 2 ∷ 3 ∷ []

-- At the greatest int the sum of NewMeta is negative.
overflown : (new_meta (parse second) 9223372036854775807).total_pages ≡ negsuc 4611686018427387903
unfolding parse new_meta atoi
overflown = refl

-- What follows a number that does not fit is not looked at, what follows one that fits is.
out_of_range : atoi "99999999999999999999x" ≡ pos 9223372036854775807
unfolding atoi
out_of_range = refl

no_number : atoi "9999999999999999999x" ≡ pos 0
unfolding atoi
no_number = refl
