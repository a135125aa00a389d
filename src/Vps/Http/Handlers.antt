-- ===== src/Vps/Http/Handlers.antt =====
-- The handlers of vps-service, behind their middleware.
use cloudmini_reseller.Common.{ℕ, String, str_eq, true, Option, List}
use cloudmini_reseller.Common.Int.{ℤ, pos, negsuc}
use cloudmini_reseller.Common.Action.{pure, raise, ◌>>=◌, ◌>>◌}
use cloudmini_reseller.Vps.Entity.{Plan, Instance}
use cloudmini_reseller.Vps.World.{Env, World, Action, new_uuid, call, call_failed}
use cloudmini_reseller.Vps.Repo.{plan_list, plan_create, toggle_active, list_by_user}
use cloudmini_reseller.Vps.Provision.{create_vps as place_vps}
use cloudmini_reseller.Vps.Instances.{
  get_owned, start_instance as start, stop_instance as stop, reboot_instance as reboot,
  terminate_instance as terminate, get_console_url, create_snapshot as take_snapshot,
  list_snapshots as snapshots_of, delete_snapshot as drop,
}
use cloudmini_reseller.Web.{
  Response, respond_json, no_content, bad_request, Libraries, or_else_of, must_parse_uuid,
  decimal_or_zero, demand, reject_if, run_guarded,
}
use cloudmini_reseller.Web.Json.{Fields, text_field, ◌>>=◌ as ◌>>?◌}
use cloudmini_reseller.Web.Pages.{PageQuery, Params, parse, new_meta}
use cloudmini_reseller.Vps.Http.{
  Endpoint, Request, Data, list_plans, create_vps, list_instances, get_instance, start_instance,
  stop_instance, reboot_instance, terminate_instance, get_console, create_snapshot, list_snapshots,
  delete_snapshot, admin_list_plans, admin_create_plan, admin_toggle_plan, admin_get_user_instances,
  plan, plans, order, instance_data, instances, console_url, snapshot, snapshots, guard_of, Serve,
  try, query, order_body, PlanBody, plan_body,
}

unfoldable pub show_plans : Serve
show_plans = do ps ← query plan_list; pure (respond_json 200 (plans ps))

-- A database refuses a negative offset, after the count of the rows.
abbrev instances_from : ℕ → ℤ → ℕ → Action (List Instance × ℕ)
instances_from user (pos offset) limit = list_by_user user offset limit
instances_from user (negsuc n) limit = do call; call; raise call_failed

-- A page of the servers of a user, from an offset.
unfoldable pub show_instances : ℕ → ℤ → Params → Serve
show_instances user offset p = try (instances_from user offset p.limit) >>= λ (rows, total).
    pure (respond_json 200 (instances rows (new_meta p total)))

-- The servers of the user whom the query names, from offset 0 on whatever page is asked for.
unfoldable pub show_user_instances : Libraries → String → PageQuery → Serve
show_user_instances lib user q = do
  reject_if (str_eq user "") bad_request
  id ← demand (lib.parse_uuid user) bad_request
  show_instances id (pos 0) (parse q)

unfoldable pub show_instance : ℕ → ℕ → Serve
show_instance user id = do i ← try (get_owned id user); pure (respond_json 200 (instance_data i))

-- Start, stop, reboot and terminate.
unfoldable pub control : (ℕ → ℕ → Action (Unit {0})) → ℕ → ℕ → Serve
control run user id = do try (run id user); pure no_content

unfoldable pub show_console : ℕ → ℕ → Serve
show_console user id = do
  url ← try (get_console_url id user)
  pure (respond_json 200 (console_url url))

-- `_ = json.NewDecoder(r.Body).Decode(&req)`: a field that does not decode stays empty.
abbrev text_or_empty : String → Option Fields → String
text_or_empty name body = or_else_of "" (body >>? text_field name)

unfoldable pub post_snapshot : ℕ → ℕ → Option Fields → Serve
post_snapshot user id body = do
  s ← try (take_snapshot id user (text_or_empty "name" body) (text_or_empty "description" body))
  pure (respond_json 201 (snapshot s))

unfoldable pub show_snapshots : ℕ → ℕ → Serve
show_snapshots user id = do ss ← try (snapshots_of id user); pure (respond_json 200 (snapshots ss))

unfoldable pub remove_snapshot : ℕ → ℕ → ℕ → Serve
remove_snapshot user id snap = do try (drop id snap user); pure no_content

unfoldable pub toggle_plan : ℕ → Serve
toggle_plan id = do query (toggle_active id); pure no_content

module _ (lib : Libraries) where
  -- `vmid_start` is the setting of the service.
  unfoldable pub post_order : ℤ → ℕ → Option Fields → Serve
  post_order vmid_start user body = do
    req ← demand (body >>? order_body) bad_request
    plan_id ← demand (lib.parse_uuid req.plan_id) bad_request
    o ← try (
        place_vps vmid_start
          (record { user_id = user; plan_id = plan_id; idempotency_key = req.idempotency_key }))
    pure (respond_json 202 (order o))

  abbrev new_plan : ℕ → PlanBody → Plan
  new_plan id req = record {
    id = id;
    cpu = req.cpu_cores;
    ram_mb = req.ram_mb;
    disk_gb = req.disk_gb;
    hourly_rate = decimal_or_zero lib req.hourly_rate;
    is_active = true;
  }

  unfoldable pub post_plan : Option Fields → Serve
  post_plan body = do
    req ← demand (body >>? plan_body) bad_request
    id ← query new_uuid
    query (plan_create (new_plan id req))
    pure (respond_json 201 (plan (new_plan id req)))

  module _ (vmid_start : ℤ) where
    -- The handler of an endpoint, for the user whom the claims name.
    unfoldable pub handle : Endpoint → ℕ → Option Fields → Serve
    handle list_plans user body = show_plans
    handle create_vps user body = post_order vmid_start user body
    handle (list_instances q) user body = show_instances user (parse q).offset (parse q)
    handle (get_instance id) user body = show_instance user (must_parse_uuid lib id)
    handle (start_instance id) user body = control start user (must_parse_uuid lib id)
    handle (stop_instance id) user body = control stop user (must_parse_uuid lib id)
    handle (reboot_instance id) user body = control reboot user (must_parse_uuid lib id)
    handle (terminate_instance id) user body = control terminate user (must_parse_uuid lib id)
    handle (get_console id) user body = show_console user (must_parse_uuid lib id)
    handle (create_snapshot id) user body = post_snapshot user (must_parse_uuid lib id) body
    handle (list_snapshots id) user body = show_snapshots user (must_parse_uuid lib id)
    handle (delete_snapshot id snap) user body =
        remove_snapshot user (must_parse_uuid lib id) (must_parse_uuid lib snap)
    handle admin_list_plans user body = show_plans
    handle admin_create_plan user body = post_plan body
    handle (admin_toggle_plan id) user body = toggle_plan (must_parse_uuid lib id)
    handle (admin_get_user_instances named q) user body = show_user_instances lib named q

    unfoldable pub serve : Request → Env → World → Response Data × World
    serve req =
        run_guarded lib (guard_of req.endpoint) req.authorization
          (λ claims. handle req.endpoint (must_parse_uuid lib claims.user_id) req.body)
