-- ===== src/Vps/Instances/Rows.antt =====
-- The rows of one server, the nodes and the plans: which statements leave them.
use cloudmini_reseller.Common.{
  ℕ, Bool, false, ◌&&◌, ◌≡◌, ◌≢◌, refl, List, [], ◌∷◌, arith, All, some, is_none, select_where,
  update_where, find_where,
}
use cloudmini_reseller.Common.Int.{ℤ}
use cloudmini_reseller.Common.Keeps.{
  Keeps, Keeps-bind, Keeps-heed, Keeps-then, Keeps-if, Keeps-attempt, Keeps-or_else, Keeps-ask,
  Keeps-pure, Keeps-raise_if,
}
use cloudmini_reseller.Vps.Entity.{InstanceStatus, Plan, Node, Instance, Snapshot}
use cloudmini_reseller.Vps.World.{
  Env, World, Action, Message, Task, ask_proxmox, call, new_uuid, publish,
}
use cloudmini_reseller.Vps.Repo.{
  is_instance, is_present, instance_get_by_id, update_status, plan_get_by_id, update_last_billed,
  list_by_user, list_running, soft_delete, snapshot_create, snapshot_get_by_id, snapshot_delete,
}
use cloudmini_reseller.Vps.Instances.{get_owned}

-- A server that was deleted from the tables.
abbrev pub IsEnded : Instance → Type 0
IsEnded i = is_none i.terminated_at ≡ false

module _ (id : ℕ) (rows : List Instance) (ns : List Node × List Plan) where
  -- The rows of the server, the nodes and the plans are these.
  abbrev pub HasRows : World → Type 0
  HasRows w = (select_where (is_instance id) w.instances ≡ rows) × ((w.nodes, w.plans) ≡ ns)

  pub same-HasRows :
      {A : Type 0} (m : Action A)
      → ((env : Env) (w : World)
          → ((m env w).1.instances ≡ w.instances)
            × (◌≡◌ {A = List Node × List Plan}
                ((m env w).1.nodes, (m env w).1.plans)
                (w.nodes, w.plans)))
      → Keeps HasRows m
  same-HasRows m same = record { at = λ env w p. ground (arith, same env w) }

  pub other_rows :
      (other : ℕ) (f : Instance → Instance) (is : List Instance)
      → other ≢ id
      → ((i : Instance) → (f i).id ≡ i.id)
      → select_where (is_instance id) (update_where (is_instance other) f is)
        ≡ select_where (is_instance id) is
  other_rows other f [] ne same = refl
  other_rows other f (i ∷ is) ne same = ground (arith, same i, other_rows other f is ne same)

  pub found_other :
      (k : ℕ) (is : List Instance) (i : Instance)
      → All IsEnded (select_where (is_instance id) is)
      → find_where (is_present k) is ≡ some i
      → (k ≢ id) × (i.id ≡ k)
  found_other k [] i a e = cc
  found_other k (j ∷ is) i a e = ground (arith, found_other k is i)

  pub selected_others :
      (p : Instance → Bool) (is : List Instance)
      → All IsEnded (select_where (is_instance id) is)
      → All (λ i. i.id ≢ id) (select_where (λ i. p i && is_none i.terminated_at) is)
  selected_others p [] a = tt
  selected_others p (i ∷ is) a = ground (arith, selected_others p is)

  pub update_status-HasRows :
      {k : ℕ} (s : InstanceStatus) → k ≢ id → Keeps HasRows (update_status k s)
  unfolding update_status
  update_status-HasRows {k} s other = record {
    at = λ env w p.
        ground (arith, other_rows k (λ i. record i { status = s }) w.instances other (λ i. refl));
  }

  pub update_last_billed-HasRows : {k : ℕ} (t : ℤ) → k ≢ id → Keeps HasRows (update_last_billed k t)
  unfolding update_last_billed
  update_last_billed-HasRows {k} t other = record {
    at = λ env w p. ground (
      arith,
      other_rows k (λ i. record i { last_billed_at = some t }) w.instances other (λ i. refl),
    );
  }

  pub soft_delete-HasRows : {k : ℕ} → k ≢ id → Keeps HasRows (soft_delete k)
  unfolding soft_delete
  soft_delete-HasRows {k} other = record {
    at = λ env w p. ground (
      arith,
      other_rows k (λ i. record i { terminated_at = some env.now }) w.instances other (λ i. refl),
    );
  }

  pub instance_get_by_id-HasRows : (k : ℕ) → Keeps HasRows (instance_get_by_id k)
  unfolding instance_get_by_id
  instance_get_by_id-HasRows k = same-HasRows _ (λ env w. ground arith)

  pub get_owned-HasRows : (k user : ℕ) → Keeps HasRows (get_owned k user)
  unfolding get_owned instance_get_by_id
  get_owned-HasRows k user = same-HasRows _ (λ env w. ground arith)

  pub plan_get_by_id-HasRows : (k : ℕ) → Keeps HasRows (plan_get_by_id k)
  unfolding plan_get_by_id
  plan_get_by_id-HasRows k = same-HasRows _ (λ env w. ground arith)

  pub list_running-HasRows : Keeps HasRows list_running
  unfolding list_running
  list_running-HasRows = same-HasRows _ (λ env w. ground arith)

  pub list_by_user-HasRows :
      (user offset limit : ℕ) → Keeps HasRows (list_by_user user offset limit)
  unfolding list_by_user
  list_by_user-HasRows user offset limit = same-HasRows _ (λ env w. ground arith)

  pub snapshot_create-HasRows : (s : Snapshot) → Keeps HasRows (snapshot_create s)
  unfolding snapshot_create
  snapshot_create-HasRows s = same-HasRows _ (λ env w. ground arith)

  pub snapshot_get_by_id-HasRows : (k : ℕ) → Keeps HasRows (snapshot_get_by_id k)
  unfolding snapshot_get_by_id
  snapshot_get_by_id-HasRows k = same-HasRows _ (λ env w. ground arith)

  pub snapshot_delete-HasRows : (k : ℕ) → Keeps HasRows (snapshot_delete k)
  unfolding snapshot_delete
  snapshot_delete-HasRows k = same-HasRows _ (λ env w. ground arith)

  pub call-HasRows : Keeps HasRows call
  call-HasRows = same-HasRows _ (λ env w. (refl, refl))

  pub new_uuid-HasRows : Keeps HasRows new_uuid
  new_uuid-HasRows = same-HasRows _ (λ env w. (refl, refl))

  pub ask_proxmox-HasRows : (task : Task) (vmid : ℤ) → Keeps HasRows (ask_proxmox task vmid)
  ask_proxmox-HasRows task vmid = same-HasRows _ (λ env w. (refl, refl))

  pub publish-HasRows : (m : Message) → Keeps HasRows (publish m)
  publish-HasRows m = same-HasRows _ (λ env w. (refl, refl))

  pub ruleset keeping = (
    Keeps-bind, Keeps-then, Keeps-if, Keeps-attempt, Keeps-ask, Keeps-or_else, Keeps-pure,
    Keeps-raise_if, update_status-HasRows, update_last_billed-HasRows, soft_delete-HasRows,
    instance_get_by_id-HasRows, get_owned-HasRows, plan_get_by_id-HasRows, list_running-HasRows,
    list_by_user-HasRows, snapshot_create-HasRows, snapshot_get_by_id-HasRows,
    snapshot_delete-HasRows, call-HasRows, new_uuid-HasRows, ask_proxmox-HasRows, publish-HasRows,
  )
