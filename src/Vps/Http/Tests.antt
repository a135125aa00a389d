-- ===== src/Vps/Http/Tests.antt =====
-- Runs and witnesses of the HTTP interface of vps-service.
use cloudmini_reseller.Common.{suc, ◌≡◌, refl, none}
use cloudmini_reseller.Common.Int.{pos}
use cloudmini_reseller.Common.Action.{Outcome}
use cloudmini_reseller.Vps.Tests.{fifth_fails, world, ordered}
use cloudmini_reseller.Vps.Http.{Request, Data, terminate_instance}
use cloudmini_reseller.Vps.Http.Handlers.{serve}
use cloudmini_reseller.Vps.Http.Owners.{serve_foreign_server}
use cloudmini_reseller.Web.{auth, respond, forbidden}
use cloudmini_reseller.Web.Tests.{signs, boss}

-- User 9 wants to terminate the server of user 7.
abbrev termination : Request
termination = record {
  endpoint = terminate_instance "xxx";
  authorization = "Bearer t";
  body = none;
}

boss_signed : auth {P = Data} (signs boss) "Bearer t" ≡ Outcome.ok boss
unfolding auth
boss_signed = refl

serve_foreign_server_example :
    serve (signs boss) (pos 100) termination fifth_fails world
    ≡ (respond 403 forbidden, record world { calls = suc world.calls })
serve_foreign_server_example =
    serve_foreign_server (signs boss) (pos 100) boss termination fifth_fails world "xxx" ordered
      boss_signed refl refl refl refl
