-- ===== src/Vps/Http/Owners.antt =====
-- What others than its owner get from the endpoints that name a server.
use cloudmini_reseller.Common.{
  suc, ℕ, String, false, ◌≡◌, refl, Option, none, some, arith, find_where, ◌==◌,
}
use cloudmini_reseller.Common.Int.{ℤ}
use cloudmini_reseller.Common.Action.{ok, err}
use cloudmini_reseller.Vps.Entity.{Instance}
use cloudmini_reseller.Vps.World.{Env, World}
use cloudmini_reseller.Vps.Repo.{is_present, instance_get_by_id}
use cloudmini_reseller.Vps.Instances.{
  get_owned, start_instance as start, stop_instance as stop, reboot_instance as reboot,
  terminate_instance as terminate, get_console_url, create_snapshot as take_snapshot,
  list_snapshots as snapshots_of, delete_snapshot as drop,
}
use cloudmini_reseller.Web.{respond, forbidden, Claims, Libraries, must_parse_uuid, auth, signed_in}
use cloudmini_reseller.Web.Guards.{run_guarded-signed}
use cloudmini_reseller.Web.Json.{Fields}
use cloudmini_reseller.Vps.Http.{
  Endpoint, Request, Data, get_instance, start_instance, stop_instance, reboot_instance,
  terminate_instance, get_console, create_snapshot, list_snapshots, delete_snapshot, handle_error,
  guard_of,
}
use cloudmini_reseller.Vps.Http.Handlers.{
  show_instance, control, show_console, post_snapshot, show_snapshots, remove_snapshot, handle,
  serve,
}

-- The text by which an endpoint names a server that a user has to own.
abbrev pub instance_of : Endpoint → Option String
instance_of (get_instance id) = some id
instance_of (start_instance id) = some id
instance_of (stop_instance id) = some id
instance_of (reboot_instance id) = some id
instance_of (terminate_instance id) = some id
instance_of (get_console id) = some id
instance_of (create_snapshot id) = some id
instance_of (list_snapshots id) = some id
instance_of (delete_snapshot id snap) = some id
instance_of _ = none

module _ (lib : Libraries) (vmid_start : ℤ) (user : ℕ) (env : Env) (w : World) where
  handle-foreign :
      (e : Endpoint) (body : Option Fields) (id : String) (i : Instance)
      → instance_of e ≡ some id
      → env.fails w.calls ≡ false
      → find_where (is_present (must_parse_uuid lib id)) w.instances ≡ some i
      → (i.user_id == user) ≡ false
      → handle lib vmid_start e user body env w
        ≡ (err (respond 403 forbidden), record w { calls = suc w.calls })
  unfolding handle show_instance control show_console post_snapshot show_snapshots remove_snapshot
      handle_error get_owned start stop reboot terminate get_console_url take_snapshot snapshots_of
      drop instance_get_by_id
  handle-foreign (get_instance id') body id i names up found foreign = ground arith
  handle-foreign (start_instance id') body id i names up found foreign = ground arith
  handle-foreign (stop_instance id') body id i names up found foreign = ground arith
  handle-foreign (reboot_instance id') body id i names up found foreign = ground arith
  handle-foreign (terminate_instance id') body id i names up found foreign = ground arith
  handle-foreign (get_console id') body id i names up found foreign = ground arith
  handle-foreign (create_snapshot id') body id i names up found foreign = ground arith
  handle-foreign (list_snapshots id') body id i names up found foreign = ground arith
  handle-foreign (delete_snapshot id' snap) body id i names up found foreign = ground arith
  handle-foreign _ body id i names up found foreign = cc

instance_of-signed : (e : Endpoint) (id : String) → instance_of e ≡ some id → guard_of e ≡ signed_in
unfolding guard_of
instance_of-signed (get_instance id') id names = refl
instance_of-signed (start_instance id') id names = refl
instance_of-signed (stop_instance id') id names = refl
instance_of-signed (reboot_instance id') id names = refl
instance_of-signed (terminate_instance id') id names = refl
instance_of-signed (get_console id') id names = refl
instance_of-signed (create_snapshot id') id names = refl
instance_of-signed (list_snapshots id') id names = refl
instance_of-signed (delete_snapshot id' snap) id names = refl
instance_of-signed _ id names = cc

module _ (lib : Libraries) (vmid_start : ℤ) (claims : Claims) where
  -- The request carries a valid token with these claims.
  abbrev pub Carries : Request → Type 0
  Carries req = auth {P = Data} lib req.authorization ≡ ok claims

  -- A request that names a server of somebody else, by any of the nine endpoints that do, is
  -- answered with 403 when the database answers, and nothing happens but the look-up of the server:
  -- Proxmox is not asked for anything, and no row changes.
  pub serve_foreign_server :
      (req : Request) (env : Env) (w : World) (id : String) (i : Instance)
      → Carries req
      → instance_of req.endpoint ≡ some id
      → env.fails w.calls ≡ false
      → find_where (is_present (must_parse_uuid lib id)) w.instances ≡ some i
      → (i.user_id == must_parse_uuid lib claims.user_id) ≡ false
      → serve lib vmid_start req env w ≡ (respond 403 forbidden, record w { calls = suc w.calls })
  unfolding serve
  serve_foreign_server req env w id i carries names up found foreign =
      run_guarded-signed lib (guard_of req.endpoint) req.authorization claims _ env w _
        (instance_of-signed req.endpoint id names) carries
        (handle-foreign lib vmid_start (must_parse_uuid lib claims.user_id) env w req.endpoint
          req.body id i names up found foreign)
