-- ===== src/Users/Http/Tests.antt =====
-- Runs and witnesses of the HTTP interface of user-service.
use cloudmini_reseller.Common.{◌≤◌, ◌≡◌, refl, some, List, [], ◌∷◌}
use cloudmini_reseller.Users.World.{Env}
use cloudmini_reseller.Users.Tests.{up, cfg, world}
use cloudmini_reseller.Users.Http.{Request, admin_update_role}
use cloudmini_reseller.Users.Http.Handlers.{serve}
use cloudmini_reseller.Users.Http.Roles.{
  privileged, supers, serve_all, serve_user-privileged, serve_all-supers,
}
use cloudmini_reseller.Web.Json.{text}
use cloudmini_reseller.Web.Tests.{signs, seven, boss, signs-NotAdmin}

abbrev promotion : Request
promotion = record {
  endpoint = admin_update_role "xxxxxxx";
  authorization = "Bearer t";
  body = some (("role", text "admin") ∷ []);
  remote_addr = "10.0.0.1:80";
  remote_host = "10.0.0.1";
  user_agent = "";
}

-- User 7 wants to be an administrator.
serve_user-privileged_example :
    privileged (serve cfg (signs seven) promotion up world).1.accounts ≡ privileged world.accounts
serve_user-privileged_example =
    serve_user-privileged cfg (signs seven) promotion up world
      (signs-NotAdmin seven promotion.authorization refl)

abbrev promotions : List (Request × Env)
promotions =
    (promotion, up)
    ∷ (record promotion { body = some (("role", text "super_admin") ∷ []) }, up)
    ∷ []

serve_all-supers_example :
    supers (serve_all cfg (signs boss) promotions world).accounts ≤ supers world.accounts
serve_all-supers_example = serve_all-supers cfg (signs boss) promotions world
