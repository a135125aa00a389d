-- ===== src/Vps/Http.antt =====
-- The HTTP interface of vps-service, services/vps-service/internal/handler/http/handler.go.
--
-- A body is decoded less the fields that the rows of the model have no column for. The decimal of an
-- hourly rate is parsed to millionths here.
pub mod Handlers
mod Tests
pub mod Owners
use cloudmini_reseller.Common.{ℕ, String, Option, some, List}
use cloudmini_reseller.Common.Int.{ℤ}
use cloudmini_reseller.Vps.Entity.{Plan, Instance, Snapshot}
use cloudmini_reseller.Vps.World.{
  Env, World, Error, Action, plan_not_found, instance_not_found, snapshot_not_found,
  instance_not_owned, no_available_node, instance_terminated, instance_not_running,
}
use cloudmini_reseller.Vps.Provision.{OrderResponse}
use cloudmini_reseller.Web.{
  Response, respond, internal, Code, not_found, conflict, forbidden, service_unavailable, Guard,
  signed_in, with_role, admins, Handler, or_respond,
}
use cloudmini_reseller.Web.Json.{Fields, text_field, int_field, ◌>>=◌}
use cloudmini_reseller.Web.Pages.{PageQuery, Meta}

-- The routes of NewRouter, with the texts of {id} and {snap_id} and what is read of the query.
pub data Endpoint : Type 0 where
  list_plans create_vps : Endpoint
  list_instances : PageQuery → Endpoint
  get_instance start_instance stop_instance reboot_instance terminate_instance : String → Endpoint
  get_console create_snapshot list_snapshots : String → Endpoint
  delete_snapshot : String → String → Endpoint
  admin_list_plans admin_create_plan : Endpoint
  admin_toggle_plan : String → Endpoint
  admin_get_user_instances : String → PageQuery → Endpoint

pub record Request : Type 0 where
  pub endpoint : Endpoint
  pub authorization : String
  pub body : Option Fields

pub data Data : Type 0 where
  plan : Plan → Data
  plans : List Plan → Data
  order : OrderResponse → Data
  instance_data : Instance → Data
  instances : List Instance → Meta → Data
  console_url : String → Data
  snapshot : Snapshot → Data
  snapshots : List Snapshot → Data

unfoldable pub guard_of : Endpoint → Guard
guard_of admin_list_plans = with_role admins
guard_of admin_create_plan = with_role admins
guard_of (admin_toggle_plan id) = with_role admins
guard_of (admin_get_user_instances user q) = with_role admins
guard_of _ = signed_in

unfoldable pub handle_error : Error → Response Data
handle_error plan_not_found = respond 404 not_found
handle_error instance_not_found = respond 404 not_found
handle_error snapshot_not_found = respond 404 not_found
handle_error instance_not_owned = respond 403 forbidden
handle_error no_available_node = respond 503 service_unavailable
handle_error instance_terminated = respond 409 conflict
handle_error instance_not_running = respond 409 conflict
handle_error e = internal

abbrev pub Serve : Type 0
Serve = Handler Env World Data (Response Data)

abbrev pub try : {A : Type 0} → Action A → Handler Env World Data A
try m = or_respond m handle_error

-- A failing statement that the handler itself answers.
abbrev pub query : {A : Type 0} → Action A → Handler Env World Data A
query m = or_respond m (λ e. internal)

pub record OrderBody : Type 0 where
  pub plan_id : String
  pub idempotency_key : String

abbrev pub order_body : Fields → Option OrderBody
order_body fields = do
  id ← text_field "plan_id" fields
  key ← text_field "idempotency_key" fields
  some (record { plan_id = id; idempotency_key = key })

pub record PlanBody : Type 0 where
  pub cpu_cores : ℤ
  pub ram_mb : ℤ
  pub disk_gb : ℤ
  pub hourly_rate : String

abbrev pub plan_body : Fields → Option PlanBody
plan_body fields = do
  cpu ← int_field "cpu_cores" fields
  ram ← int_field "ram_mb" fields
  disk ← int_field "disk_gb" fields
  rate ← text_field "hourly_rate" fields
  some (record { cpu_cores = cpu; ram_mb = ram; disk_gb = disk; hourly_rate = rate })
