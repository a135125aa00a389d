-- ===== src/Vps/Instances.antt =====
-- What users and the billing job do with a server after its provisioning,
-- services/vps-service/internal/usecase/instance_usecase.go.
pub mod Rows
pub mod Ended
pub mod History
pub mod Metering
pub mod Snapshots
pub mod Charging
use cloudmini_reseller.Common.{
  ℕ, zero, suc, String, Bool, true, false, not, ◌==◌, Option, none, some, List, [], ◌∷◌,
  if◌then◌else◌,
}
use cloudmini_reseller.Common.Int.{ℤ, pos, ◌-ℤ◌, ltb_ℤ}
use cloudmini_reseller.Common.Action.{
  Outcome, ok, err, pure, raise, ◌>>=◌, ◌>>◌, raise_if, attempt, or_else,
}
use cloudmini_reseller.Vps.Entity.{
  InstanceStatus, running, suspended, stopped, terminated, Plan, Instance, Snapshot,
}
use cloudmini_reseller.Vps.World.{
  Env, World, Error, Action, Task, Usage, start_vm, shutdown_vm, reboot_vm, suspend_vm, resume_vm,
  stop_vm, delete_vm, make_snapshot, drop_snapshot, ask_proxmox, call, new_uuid, publish,
  state_changed, suspended_for, terminated_for, usage_report, instance_not_owned,
  instance_not_running, instance_not_suspended, instance_terminated, snapshot_not_found,
  call_failed,
}
use cloudmini_reseller.Vps.Repo.{
  instance_get_by_id, update_status, plan_get_by_id, update_last_billed, list_by_user, is_running,
  list_running, soft_delete, snapshot_create, snapshot_get_by_id, list_by_instance, snapshot_delete,
}

abbrev pub is_terminated : InstanceStatus → Bool
is_terminated terminated = true
is_terminated _ = false

abbrev pub is_suspended : InstanceStatus → Bool
is_suspended suspended = true
is_suspended _ = false

-- `getOwned`, and GetInstance, which is the same.
unfoldable pub get_owned : ℕ → ℕ → Action Instance
get_owned id user = do
  i ← instance_get_by_id id
  raise_if (not (i.user_id == user)) instance_not_owned
  pure i

-- `_ = UpdateStatus(…)` and `_ = PublishStateChanged(…)`
abbrev pub turn : ℕ → InstanceStatus → InstanceStatus → Action (Unit {0})
turn id from to = do attempt (update_status id to); publish (state_changed id from to)

unfoldable pub start_instance : ℕ → ℕ → Action (Unit {0})
start_instance id user = do
  i ← get_owned id user
  raise_if (is_terminated i.status) instance_terminated
  ask_proxmox start_vm i.vmid
  call
  turn id i.status running

unfoldable pub stop_instance : ℕ → ℕ → Action (Unit {0})
stop_instance id user = do
  i ← get_owned id user
  ask_proxmox shutdown_vm i.vmid
  call
  turn id i.status stopped

unfoldable pub reboot_instance : ℕ → ℕ → Action (Unit {0})
reboot_instance id user = do
  i ← get_owned id user
  raise_if (not (is_running i.status)) instance_not_running
  ask_proxmox reboot_vm i.vmid
  attempt call

unfoldable pub suspend_instance : ℕ → String → Action (Unit {0})
suspend_instance id reason = do
  i ← instance_get_by_id id
  ask_proxmox suspend_vm i.vmid
  attempt call
  turn id i.status suspended
  publish (suspended_for id reason)

unfoldable pub resume_instance : ℕ → ℕ → Action (Unit {0})
resume_instance id user = do
  i ← get_owned id user
  raise_if (not (is_suspended i.status)) instance_not_suspended
  ask_proxmox resume_vm i.vmid
  attempt call
  turn id i.status running

-- `if inst.Status == domain.StatusRunning { _, _ = u.proxmox.StopVM(…) }`
abbrev pub stop_first : Instance → Action (Unit {0})
stop_first i = if is_running i.status then attempt (ask_proxmox stop_vm i.vmid) else pure tt

unfoldable pub terminate_instance : ℕ → ℕ → Action (Unit {0})
terminate_instance id user = do
  i ← get_owned id user
  raise_if (is_terminated i.status) instance_terminated
  stop_first i
  ask_proxmox delete_vm i.vmid
  attempt call
  attempt (update_status id terminated)
  attempt (soft_delete id)
  publish (terminated_for id user)

unfoldable pub get_console_url : ℕ → ℕ → Action String
get_console_url id user = do
  i ← get_owned id user
  λ env w. (
    if env.fails w.calls then err call_failed else ok (env.consoles w.calls),
    record w { calls = suc w.calls },
  )

abbrev pub new_snapshot : ℕ → String → String → ℤ → ℕ → Snapshot
new_snapshot inst name desc t id = record {
  id = id;
  instance_id = inst;
  name = name;
  proxmox_name = t;
  description = desc;
}

unfoldable pub create_snapshot : ℕ → ℕ → String → String → Action Snapshot
create_snapshot inst user name desc = do
  i ← get_owned inst user
  λ env. ask_proxmox (make_snapshot env.now) i.vmid env
  attempt call
  id ← new_uuid
  λ env. snapshot_create (new_snapshot inst name desc env.now id) env
  λ env. pure (new_snapshot inst name desc env.now id) env

unfoldable pub list_snapshots : ℕ → ℕ → Action (List Snapshot)
list_snapshots inst user = do get_owned inst user; list_by_instance inst

unfoldable pub delete_snapshot : ℕ → ℕ → ℕ → Action (Unit {0})
delete_snapshot inst snap user = do
  i ← get_owned inst user
  s ← or_else (snapshot_get_by_id snap) (pure tt) snapshot_not_found
  ask_proxmox (drop_snapshot s.proxmox_name) i.vmid
  attempt call
  snapshot_delete snap

-- 1 hour for a server that was never billed.
abbrev pub elapsed : ℤ → Option ℤ → ℤ
elapsed now none = pos 3600
elapsed now (some t) = now -ℤ t

-- `hours < 0.01`, which is 36 seconds
abbrev pub is_too_soon : ℤ → Option ℤ → Bool
is_too_soon now none = false
is_too_soon now (some t) = ltb_ℤ (now -ℤ t) (pos 36)

abbrev pub usage_of : Env → Instance → Plan → Usage
usage_of env i plan = record {
  instance_id = i.id;
  seconds = elapsed env.now i.last_billed_at;
  rate = plan.hourly_rate;
}

-- PublishUsageReport, whose error ends the turn, and UpdateLastBilled, whose error is only logged.
unfoldable pub report : Instance → Plan → Action (Unit {0})
report i plan = do
  call
  λ env. publish (usage_report (usage_of env i plan)) env
  λ env. attempt (update_last_billed i.id env.now) env

-- One turn of the loop of RunHourlyMeter; an error ends the turn only.
unfoldable pub meter : Instance → Action (Unit {0})
meter i = do
  plan ← plan_get_by_id i.plan_id
  λ env. (if is_too_soon env.now i.last_billed_at then pure tt else report i plan) env

unfoldable pub meter_all : List Instance → Action (Unit {0})
meter_all [] = pure tt
meter_all (i ∷ is) = do attempt (meter i); meter_all is

unfoldable pub run_hourly_meter : Action (Unit {0})
run_hourly_meter = do is ← list_running; meter_all is

abbrev pub suspend_running : Instance → Action (Unit {0})
suspend_running i =
    if is_running i.status then attempt (suspend_instance i.id "wallet_empty") else pure tt

unfoldable pub suspend_all : List Instance → Action (Unit {0})
suspend_all [] = pure tt
suspend_all (i ∷ is) = do suspend_running i; suspend_all is

unfoldable pub handle_wallet_empty : ℕ → Action (Unit {0})
handle_wallet_empty user = do (is, total) ← list_by_user user 0 100; suspend_all is
