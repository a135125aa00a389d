-- ===== src/Logs/Tests.antt =====
-- Runs and witnesses of the log service.
use cloudmini_reseller.Common.{String, false, true, ◌≡◌, refl, List, [], ◌∷◌, All}
use cloudmini_reseller.Common.Action.{Outcome}
use cloudmini_reseller.Logs.{build_entry}
use cloudmini_reseller.Logs.Hub.{
  World, Event, connects, unregisters, writes, consumes, connect, consume, broadcast, offer, run,
  run_all, IsServed, newest, all_stored, run_all-IsServed,
}
use cloudmini_reseller.Logs.Queries.{Env, Query, Data, serve, rows_of, IsOf, serve_own}
use cloudmini_reseller.Web.{auth}
use cloudmini_reseller.Web.Json.{Fields, text}
use cloudmini_reseller.Web.Tests.{signs, seven}

abbrev login_of_seven : Fields
login_of_seven = ("user_id", text "xxxxxxx") ∷ []

abbrev login_of_six : Fields
login_of_six = ("user_id", text "xxxxxx") ∷ []

abbrev logins : List (String × Fields)
logins = ("user.login", login_of_seven) ∷ ("user.login", login_of_six) ∷ []

abbrev world : World
world = record {
  entries = build_entry "user.login" login_of_six ∷ build_entry "user.login" login_of_seven ∷ [];
  clients = [];
}

abbrev day : List Event
day =
    connects 1 "xxxxxxx" "user"
    ∷ consumes false "user.login" login_of_six
    ∷ consumes false "user.login" login_of_seven
    ∷ connects 2 "" "admin"
    ∷ consumes true "user.login" login_of_seven
    ∷ writes 1
    ∷ unregisters 2
    ∷ []

-- One of two logins waits for user 7.
waits :
    newest (run_all (connects 1 "xxxxxxx" "user" ∷ all_stored logins) world).clients
    ≡ build_entry "user.login" login_of_seven ∷ []
unfolding run_all run connect consume broadcast offer build_entry
waits = refl

run_all-IsServed_example : All IsServed (run_all day world).clients
run_all-IsServed_example = run_all-IsServed day world tt

-- User 7 asks for the rows of user 6.
abbrev nosy : Query
nosy = record {
  user_id = "xxxxxx";
  action = "";
  service = "";
  page = record { page = ""; limit = ""; order = "" };
}

abbrev up : Env
up = record { count_fails = false; page_fails = false }

seven_signed : auth {P = Data} (signs seven) "Bearer t" ≡ Outcome.ok seven
unfolding auth
seven_signed = refl

serve_own_example :
    let (r, w') = serve (signs seven) "Bearer t" nosy up world in
    All (IsOf "xxxxxxx") (rows_of r.body) × (w' ≡ world)
serve_own_example = serve_own (signs seven) "Bearer t" seven nosy up world seven_signed refl refl
