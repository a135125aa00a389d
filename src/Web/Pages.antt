-- ===== src/Web/Pages.antt =====
-- The page parameters of pkg/pagination/pagination.go, and the rows that a query with LIMIT and
-- OFFSET returns for them. An int is a signed integer of 64 bits, whose products and sums wrap
-- around.
use Prim.Native.Char.{code}
use cloudmini_reseller.Common.{
  ℕ, zero, suc, ◌+◌, ◌-◌, ◌*◌, ◌/◌, ◌%◌, String, str_eq, Bool, true, false, ◌&&◌, ◌||◌, List, [],
  ◌∷◌, ◌++◌, ltb, leb, ◌==◌, if◌then◌else◌, take, drop, Option, none, some,
}
use cloudmini_reseller.Common.Int.{ℤ, pos, negsuc, neg, ltb_ℤ, pos_part}

abbrev max_int : ℕ
max_int = 9223372036854775807

abbrev is_digit : ℕ → Bool
is_digit c = leb 48 c && leb c 57

-- The greatest uint64.
abbrev max_uint : ℕ
max_uint = 18446744073709551615

-- The number that digits spell behind `n`; none where the text has another character. As
-- strconv.ParseUint does, the rest is not looked at once the number has left the uint64.
digits : ℕ → String → Option ℕ
digits n String.[] = some n
digits n (String.◌∷◌ c s) =
    let m = n * 10 + (code c - 48) in
    let rest = digits m s in
    if is_digit (code c) then (if leb m max_uint then rest else some max_uint) else none

-- The int that strconv.Atoi returns beside its error: zero for what is no number, the nearest int
-- for one that does not fit.
clamp : Bool → ℕ → ℤ
clamp negative n =
    if negative
    then neg (pos (if leb n (suc max_int) then n else suc max_int))
    else pos (if leb n max_int then n else max_int)

unsigned : Bool → String → ℤ
unfolding digits clamp
unsigned negative String.[] = pos 0
unsigned negative (String.◌∷◌ c s) = elim (digits 0 (String.◌∷◌ c s)) [
  | none ↦ pos 0
  | some n ↦ clamp negative n
]

unfoldable pub atoi : String → ℤ
unfolding unsigned
atoi String.[] = pos 0
atoi (String.◌∷◌ c s) =
    if code c == 45
    then unsigned true s
    else if code c == 43
    then unsigned false s
    else unsigned false (String.◌∷◌ c s)

-- The int64 of a product or a sum.
unfoldable pub wrap : ℕ → ℤ
wrap n =
    let m = n % (2 * suc max_int) in
    if leb m max_int then pos m else negsuc (2 * suc max_int - m - 1)

-- `page` and `limit` are at least 1, so they are numbers.
pub record Params : Type 0 where
  pub page : ℕ
  pub limit : ℕ
  pub order : String
  pub offset : ℤ

abbrev page_of : ℤ → ℕ
page_of n = if ltb_ℤ n (pos 1) then 1 else pos_part n

abbrev limit_of : ℤ → ℕ
limit_of n = if ltb_ℤ n (pos 1) || ltb_ℤ (pos 10000) n then 20 else pos_part n

-- The three parameters of the query string that are read, `sort` being passed on only.
pub record PageQuery : Type 0 where
  pub page : String
  pub limit : String
  pub order : String

unfoldable pub parse : PageQuery → Params
unfolding wrap
parse q =
    let page = page_of (atoi q.page) in
    let limit = limit_of (atoi q.limit) in
    record {
      page = page;
      limit = limit;
      order = if str_eq q.order "asc" || str_eq q.order "desc" then q.order else "desc";
      offset = wrap ((page - 1) * limit);
    }

pub record Meta : Type 0 where
  pub page : ℕ
  pub limit : ℕ
  pub total : ℕ
  pub total_pages : ℤ

-- Go's division drops the fraction on both sides of 0.
abbrev pub quotient : ℤ → ℕ → ℤ
quotient (pos a) b = pos (a / b)
quotient (negsuc a) b = neg (pos (suc a / b))

-- The sum of the total and the limit wraps around.
unfoldable pub new_meta : Params → ℕ → Meta
unfolding wrap
new_meta p total = record {
  page = p.page;
  limit = p.limit;
  total = total;
  total_pages = if ltb 0 total then quotient (wrap (total + p.limit - 1)) p.limit else pos 0;
}

module _ {A : Type 0} where
  -- `LIMIT limit OFFSET offset`; a negative offset is an error of the database.
  abbrev pub limit_offset : ℕ → ℤ → List A → Option (List A)
  limit_offset limit (pos n) rows = some (take limit (drop n rows))
  limit_offset limit (negsuc n) rows = none

  -- Pages 1 to `n`, one after the other.
  abbrev pub first_pages : ℕ → ℕ → List A → List A
  first_pages limit zero rows = []
  first_pages limit (suc n) rows = first_pages limit n rows ++ take limit (drop (n * limit) rows)

-- The number of pages, while the sum fits.
pages_of : Params → ℕ → ℕ
pages_of p total = if ltb 0 total then (total + p.limit - 1) / p.limit else 0
