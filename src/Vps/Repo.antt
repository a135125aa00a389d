-- ===== src/Vps/Repo.antt =====
-- The repositories, services/vps-service/internal/repository/postgres/vps_repo.go, and the UNIQUE
-- idempotency_key of migrations/000005_create_vps_schema.sql.
--
-- vps.nodes has columns that domain.Node lacks, on which sqlx refuses its rows: such a query is one
-- that fails.
use cloudmini_reseller.Common.{
  is_none, ℕ, String, str_eq, Bool, true, false, ◌&&◌, some, List, ◌∷◌, ◌==◌, if◌then◌else◌,
  find_where, select_where, update_where, any, not, length, take, drop,
}
use cloudmini_reseller.Common.Int.{ℤ, pos, ◌+ℤ◌, ◌-ℤ◌, ltb_ℤ}
use cloudmini_reseller.Common.Action.{ok, err, ◌>>◌, modify, or_raise}
use cloudmini_reseller.Vps.Entity.{InstanceStatus, running, Plan, Node, Instance, Snapshot}
use cloudmini_reseller.Vps.World.{
  Action, call, plan_not_found, node_not_found, instance_not_found, snapshot_not_found,
  duplicate_key,
}

unfoldable pub plan_get_by_id : ℕ → Action Plan
plan_get_by_id id = do
  call
  λ env w. or_raise (find_where (λ (p : Plan). p.id == id) w.plans) plan_not_found env w

unfoldable pub list_online : Action (List Node)
list_online = do call; λ env w. (ok (select_where (λ n. n.is_online) w.nodes), w)

abbrev pub is_node : ℕ → Node → Bool
is_node id n = n.id == id

abbrev pub reserved : ℤ → ℤ → ℤ → Node → Node
reserved cpu ram disk n = record n {
  reserved_cpu = n.reserved_cpu +ℤ cpu;
  reserved_ram_mb = n.reserved_ram_mb +ℤ ram;
  reserved_disk_gb = n.reserved_disk_gb +ℤ disk;
}

unfoldable pub reserve_resources : ℕ → ℤ → ℤ → ℤ → Action (Unit {0})
reserve_resources id cpu ram disk = do
  call
  modify λ w. record w { nodes = update_where (is_node id) (reserved cpu ram disk) w.nodes }

-- GREATEST(0, a)
abbrev pub greatest_zero : ℤ → ℤ
greatest_zero a = if ltb_ℤ a (pos 0) then pos 0 else a

abbrev pub released : ℤ → ℤ → ℤ → Node → Node
released cpu ram disk n = record n {
  reserved_cpu = greatest_zero (n.reserved_cpu -ℤ cpu);
  reserved_ram_mb = greatest_zero (n.reserved_ram_mb -ℤ ram);
  reserved_disk_gb = greatest_zero (n.reserved_disk_gb -ℤ disk);
}

unfoldable pub release_resources : ℕ → ℤ → ℤ → ℤ → Action (Unit {0})
release_resources id cpu ram disk = do
  call
  modify λ w. record w { nodes = update_where (is_node id) (released cpu ram disk) w.nodes }

abbrev pub has_key : String → Instance → Bool
has_key key i = str_eq i.idempotency_key key

abbrev pub is_instance : ℕ → Instance → Bool
is_instance id i = i.id == id

abbrev pub is_present : ℕ → Instance → Bool
is_present id i = is_instance id i && is_none i.terminated_at

unfoldable pub instance_create : Instance → Action (Unit {0})
instance_create i = do
  call
  λ env w.
      (if any (has_key i.idempotency_key) w.instances
        then (err duplicate_key, w)
        else (ok tt, record w { instances = i ∷ w.instances }))

-- WHERE id=$1 AND terminated_at IS NULL
unfoldable pub instance_get_by_id : ℕ → Action Instance
instance_get_by_id id = do
  call
  λ env w. or_raise (find_where (is_present id) w.instances) instance_not_found env w

unfoldable pub get_by_idempotency_key : String → Action Instance
get_by_idempotency_key key = do
  call
  λ env w. or_raise (find_where (has_key key) w.instances) instance_not_found env w

unfoldable pub update_status : ℕ → InstanceStatus → Action (Unit {0})
update_status id s = do
  call
  modify λ w. record w {
    instances = update_where (is_instance id) (λ i. record i { status = s }) w.instances;
  }

abbrev pub provisioned : ℤ → String → String → ℤ → Instance → Instance
provisioned vmid ip password t i = record i {
  status = running;
  vmid = vmid;
  ip_address = ip;
  root_password = password;
  billing_started_at = some t;
  last_billed_at = some t;
}

unfoldable pub update_after_provisioning : ℕ → ℤ → String → String → ℤ → Action (Unit {0})
update_after_provisioning id vmid ip password t = do
  call
  modify λ w. record w {
    instances = update_where (is_instance id) (provisioned vmid ip password t) w.instances;
  }

unfoldable pub update_last_billed : ℕ → ℤ → Action (Unit {0})
update_last_billed id t = do
  call
  modify λ w. record w {
    instances =
        update_where (is_instance id) (λ i. record i { last_billed_at = some t }) w.instances;
  }

-- Both statements of ListByUser: the count, and a page. New rows stand first, as created_at DESC
-- orders them.
unfoldable pub list_by_user : ℕ → ℕ → ℕ → Action (List Instance × ℕ)
list_by_user user offset limit = do
  call
  call
  λ env w.
      let rows = select_where (λ i. i.user_id == user && is_none i.terminated_at) w.instances in
      (ok (take limit (drop offset rows), length rows), w)

abbrev pub is_running : InstanceStatus → Bool
is_running running = true
is_running _ = false

unfoldable pub list_running : Action (List Instance)
list_running = do
  call
  λ env w. (ok (select_where (λ i. is_running i.status && is_none i.terminated_at) w.instances), w)

unfoldable pub soft_delete : ℕ → Action (Unit {0})
soft_delete id = do
  call
  λ env.
      modify
        (λ w. record w {
          instances =
              update_where (is_instance id) (λ i. record i { terminated_at = some env.now })
                w.instances;
        })
        env

abbrev pub is_snapshot : ℕ → Snapshot → Bool
is_snapshot id s = s.id == id

unfoldable pub snapshot_create : Snapshot → Action (Unit {0})
snapshot_create s = do call; modify λ w. record w { snapshots = s ∷ w.snapshots }

unfoldable pub snapshot_get_by_id : ℕ → Action Snapshot
snapshot_get_by_id id = do
  call
  λ env w. or_raise (find_where (is_snapshot id) w.snapshots) snapshot_not_found env w

unfoldable pub list_by_instance : ℕ → Action (List Snapshot)
list_by_instance id = do
  call
  λ env w. (ok (select_where (λ s. s.instance_id == id) w.snapshots), w)

unfoldable pub snapshot_delete : ℕ → Action (Unit {0})
snapshot_delete id = do
  call
  modify λ w. record w { snapshots = select_where (λ s. not (is_snapshot id s)) w.snapshots }

unfoldable pub plan_list : Action (List Plan)
plan_list = do call; λ env w. (ok (select_where (λ p. p.is_active) w.plans), w)

unfoldable pub plan_create : Plan → Action (Unit {0})
plan_create p = do call; modify λ w. record w { plans = p ∷ w.plans }

unfoldable pub toggle_active : ℕ → Action (Unit {0})
toggle_active id = do
  call
  modify λ w. record w {
    plans = update_where (λ p. p.id == id) (λ p. record p { is_active = not p.is_active }) w.plans;
  }

unfoldable pub node_get_by_id : ℕ → Action Node
node_get_by_id id = do
  call
  λ env w. or_raise (find_where (is_node id) w.nodes) node_not_found env w
