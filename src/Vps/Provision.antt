-- ===== src/Vps/Provision.antt =====
-- The two phases of an order for a server,
-- services/vps-service/internal/usecase/provision_usecase.go.
pub mod Steps
pub mod Leaks
pub mod Orders
pub mod Placement
use cloudmini_reseller.Common.{
  ℕ, zero, suc, String, str_eq, Bool, true, false, not, ◌&&◌, ◌*◌, ◌/◌, Option, none, some, List,
  [], ◌∷◌, select_where, if◌then◌else◌,
}
use cloudmini_reseller.Common.Int.{ℤ, pos, negsuc, neg, neg_part, ◌+ℤ◌, ◌-ℤ◌, leb_ℤ, ltb_ℤ}
use cloudmini_reseller.Common.Action.{
  Outcome, ok, err, pure, raise, ◌>>=◌, ◌>>◌, raise_if, attempt, or_else,
}
use cloudmini_reseller.Proxy.World.{hold, confirm, release}
use cloudmini_reseller.Vps.Entity.{
  InstanceStatus, pending, provisioning, booting, running, failed, Plan, Node, Instance,
  available_ram_mb,
}
use cloudmini_reseller.Vps.World.{
  Env, World, Error, Action, call, new_uuid, bill, publish, provision_requested, vm_ready,
  provision_failed, state_changed, plan_not_active, no_available_node, provision_timeout,
  provision_failure, reserve_failed, encrypt_failed, create_failed, hold_failed, call_failed,
}
use cloudmini_reseller.Vps.Repo.{
  plan_get_by_id, list_online, reserve_resources, release_resources, instance_create,
  instance_get_by_id, get_by_idempotency_key, update_status, update_after_provisioning,
}

-- `a * 12 / 10`, where Go's division drops the fraction on both sides of 0.
unfoldable pub with_headroom : ℤ → ℤ
with_headroom (pos a) = pos (a * 12 / 10)
with_headroom (negsuc a) = neg (pos (suc a * 12 / 10))

abbrev pub fits : Plan → Node → Bool
fits plan n =
    leb_ℤ (with_headroom plan.ram_mb) (available_ram_mb n)
    && leb_ℤ (with_headroom plan.disk_gb) (n.total_disk_gb -ℤ n.reserved_disk_gb)

abbrev pub head_or : Node → List Node → Node
head_or n [] = n
head_or n (m ∷ ms) = m

-- The comparison of selectNode, of the candidates at two indices.
abbrev pub less_loaded : Node → Node → Bool
less_loaded m n = ltb_ℤ (available_ram_mb n) (available_ram_mb m)

-- The candidates are sorted by the library, and the first one is taken.
abbrev pub take_first : List Node → Action Node
take_first [] env w = (err no_available_node, w)
take_first (n ∷ ns) env w = (ok (head_or n (env.sort less_loaded (n ∷ ns))), w)

unfoldable pub select_node : Plan → Action Node
select_node plan = do nodes ← list_online; take_first (select_where (fits plan) nodes)

pub record OrderRequest : Type 0 where
  pub user_id : ℕ
  pub plan_id : ℕ
  pub idempotency_key : String

pub record OrderResponse : Type 0 where
  pub instance_id : ℕ
  pub status : InstanceStatus

abbrev pub encrypt_password : Action String
encrypt_password env w = (
  if env.fails w.calls then err call_failed else ok (env.encrypt w.calls),
  record w { calls = suc w.calls },
)

abbrev pub new_instance : OrderRequest → Plan → ℕ → ℤ → String → ℕ → Instance
new_instance req plan node vmid password id = record {
  id = id;
  user_id = req.user_id;
  plan_id = req.plan_id;
  node_id = node;
  vmid = vmid;
  status = pending;
  ip_address = "";
  root_password = password;
  billing_started_at = none;
  last_billed_at = none;
  terminated_at = none;
  idempotency_key = req.idempotency_key;
}

-- `_ = u.nodeRepo.ReleaseResources(ctx, node.ID, plan.CPU, plan.RAMMB, plan.DiskGB)`
abbrev pub give_back : Plan → ℕ → Action (Unit {0})
give_back plan node = attempt (release_resources node plan.cpu plan.ram_mb plan.disk_gb)

abbrev pub cancel_instance : Plan → Instance → Action (Unit {0})
cancel_instance plan i = do attempt (update_status i.id failed); give_back plan i.node_id

-- Steps 3 to 5, on the chosen node.
unfoldable pub reserve_on : ℤ → OrderRequest → Plan → ℕ → Action OrderResponse
reserve_on vmid req plan node = do
  or_else (reserve_resources node plan.cpu plan.ram_mb plan.disk_gb) (pure tt) reserve_failed
  password ← or_else encrypt_password (give_back plan node) encrypt_failed
  id ← new_uuid
  or_else (instance_create (new_instance req plan node vmid password id)) (give_back plan node)
      create_failed
  or_else (bill hold req.user_id plan.hourly_rate id)
      (cancel_instance plan (new_instance req plan node vmid password id)) hold_failed
  publish (provision_requested id)
  pure (record { instance_id = id; status = pending })

unfoldable pub place : ℤ → OrderRequest → Action OrderResponse
place vmid_start req = do
  plan ← plan_get_by_id req.plan_id
  raise_if (not plan.is_active) plan_not_active
  node ← select_node plan
  λ env w. reserve_on (vmid_start +ℤ env.vmids w.draws) req plan node.id env w

abbrev pub reuse : ℤ → OrderRequest → Outcome Error Instance → Action OrderResponse
reuse vmid_start req (ok i) env w = (ok (record { instance_id = i.id; status = i.status }), w)
reuse vmid_start req (err e) env w = place vmid_start req env w

unfoldable pub create_vps : ℤ → OrderRequest → Action OrderResponse
create_vps vmid_start req env w =
    if str_eq req.idempotency_key ""
    then place vmid_start req env w
    else (let (r, w') = get_by_idempotency_key req.idempotency_key env w in
        reuse vmid_start req r env w')

-- GetVMIPAddress at each tick until the deadline, here a number of ticks.
unfoldable pub wait_for_ip : ℕ → Env → World → Outcome Error String × World
wait_for_ip zero env w = (err provision_timeout, w)
wait_for_ip (suc n) env w =
    let w' = record w { calls = suc w.calls } in
    let rest = wait_for_ip n env w' in
    if env.fails w.calls
    then rest
    else (if str_eq (env.ips w.calls) "" then rest else (ok (env.ips w.calls), w'))

-- fail: the compensation of the worker.
abbrev pub fail : Instance → Action (Unit {0})
fail i = do
  attempt (update_status i.id failed)
  attempt (release_resources i.node_id (pos 0) (pos 0) (pos 0))
  attempt (bill release i.user_id (pos 0) i.id)
  publish (provision_failed i.id)

-- `if err != nil { return u.fail(…) }`
abbrev pub fail_after : {A : Type 0} → Instance → Outcome Error A → Action A
fail_after i (ok a) env w = (ok a, w)
fail_after i (err e) env w = (err provision_failure, (fail i env w).1)

abbrev pub or_fail : {A : Type 0} → Instance → Action A → Action A
or_fail i m env w = let (r, w') = m env w in fail_after i r env w'

abbrev pub move_to : Instance → InstanceStatus → InstanceStatus → Action (Unit {0})
move_to i from to = do attempt (update_status i.id to); publish (state_changed i.id from to)

-- From CreateVM to the end of the task that starts the server.
unfoldable pub boot : Instance → Action (Unit {0})
boot i = do
  move_to i pending provisioning
  or_fail i call
  or_fail i call
  or_fail i call
  move_to i provisioning booting
  or_fail i call

abbrev pub announce : Instance → Plan → Action (Unit {0})
announce i plan = do
  attempt (bill confirm i.user_id plan.hourly_rate i.id)
  publish (state_changed i.id booting running)
  publish (vm_ready i.id)

unfoldable pub activate : Instance → Plan → String → Action (Unit {0})
activate i plan ip = do
  or_fail i (λ env w. update_after_provisioning i.id i.vmid ip i.root_password env.now env w)
  announce i plan

unfoldable pub provision : Instance → Plan → Action (Unit {0})
provision i plan = do
  boot i
  ip ← or_fail i (λ env w. wait_for_ip env.polls env w)
  activate i plan ip

unfoldable pub run_provision_worker : ℕ → Action (Unit {0})
run_provision_worker id = do
  i ← instance_get_by_id id
  plan ← plan_get_by_id i.plan_id
  provision i plan
