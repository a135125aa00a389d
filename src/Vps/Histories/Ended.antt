-- ===== src/Vps/Histories/Ended.antt =====
-- What becomes of a terminated server and of its reservation, whatever happens after.
use mathlib.Core.Path.{subst, sym}
use cloudmini_reseller.Common.{
  ℕ, not, ◌==◌, ◌≡◌, ◌≢◌, refl, ap, ◌∙◌, some, List, [], ◌∷◌, arith, All, select_where, find_where,
}
use cloudmini_reseller.Common.Int.{ℤ, ◌+ℤ◌}
use cloudmini_reseller.Common.Action.{Outcome, ok, err, ◌>>=◌, ◌>>◌, raise_if}
use cloudmini_reseller.Common.Keeps.{Keeps, Keeps-bind, Keeps-heed, Keeps-then, Keeps-raise_if}
use cloudmini_reseller.Vps.Entity.{failed, Plan, Node, Instance}
use cloudmini_reseller.Vps.World.{Env, World, Error, Action, plan_not_active}
use cloudmini_reseller.Vps.Repo.{
  is_instance, plan_get_by_id, reserve_resources, release_resources, instance_create,
  get_by_idempotency_key, update_status,
}
use cloudmini_reseller.Vps.Provision.{
  OrderRequest, OrderResponse, reserve_on, place, reuse, create_vps, select_node,
}
use cloudmini_reseller.Vps.Instances.Rows.{IsEnded, other_rows}
use cloudmini_reseller.Vps.Instances.History.{run-Stays}
use cloudmini_reseller.Vps.Histories.{Event, commands, orders, provisions, happen, happen_all}
use cloudmini_reseller.Vps.Histories.Reserving.{
  KeepsReserved, KeepsReserved-refl, IsSized, reserve_on-KeepsReserved,
}
use cloudmini_reseller.Vps.Histories.Working.{
  Good, plan_get_by_id-Good, get_by_idempotency_key-Good, select_node-Good,
  run_provision_worker-Good,
}

-- No UUID that is drawn is this id.
abbrev pub Draws : ℕ → Env → Type 0
Draws id env = (n : ℕ) → env.uuids n ≢ id

found-IsSized :
    (k : ℕ) (ps : List Plan) (p : Plan)
    → All IsSized ps
    → find_where (λ (p : Plan). p.id == k) ps ≡ some p
    → IsSized p
found-IsSized k [] p a e = cc
found-IsSized k (q ∷ ps) p a e = ground (arith, found-IsSized k ps p)

reserve_on-rows :
    (id : ℕ) (vmid : ℤ) (req : OrderRequest) (plan : Plan) (node : ℕ) (env : Env) (w : World)
    → env.uuids w.draws ≢ id
    → let w' = (reserve_on vmid req plan node env w).1 in
      (select_where (is_instance id) w'.instances ≡ select_where (is_instance id) w.instances)
      × (w'.plans ≡ w.plans)
unfolding reserve_on reserve_resources release_resources instance_create update_status
reserve_on-rows id vmid req plan node env w fresh =
    let others =
      other_rows id [] ([], []) (env.uuids w.draws) (λ i. record i { status = failed }) w.instances
        fresh (λ i. refl) in
    ground (arith, fresh, others)

module _ (id : ℕ) (rows : List Instance) (ms : List Node) (ended : All IsEnded rows) where
  plan_get_by_id-IsSized :
      (k : ℕ) (env : Env) (w : World) (p : Plan)
      → Good id rows ms ended w
      → (plan_get_by_id k env w).0 ≡ ok p
      → IsSized p
  unfolding plan_get_by_id
  plan_get_by_id-IsSized k env w p g e = ground (arith, found-IsSized k w.plans p g.2)

  module _ (env : Env) (fresh : Draws id env) where
    reserve_on-Good :
        (vmid : ℤ) (req : OrderRequest) (plan : Plan) (node : ℕ) (w : World)
        → IsSized plan
        → Good id rows ms ended w
        → Good id rows ms ended (reserve_on vmid req plan node env w).1
    reserve_on-Good vmid req plan node w sized g =
        let (same, plans) = reserve_on-rows id vmid req plan node env w (fresh w.draws) in
        (
          same ∙ g.0,
          reserve_on-KeepsReserved vmid req plan node env w ms sized g.1,
          subst (All IsSized) (sym plans) g.2,
        )

    -- In these surroundings only.
    here :
        {A : Type 0} (m : Action A)
        → Keeps (Good id rows ms ended) m
        → Keeps (Good id rows ms ended) (λ (_ : Env). m env)
    here m km = record { at = λ _ w g. km.at env w g }

    place-Good :
        (vmid_start : ℤ) (req : OrderRequest) (w : World)
        → Good id rows ms ended w
        → Good id rows ms ended (place vmid_start req env w).1
    unfolding place
    place-Good vmid_start req w g =
        let on_node : Plan → Node → Action OrderResponse =
          λ plan node _ w. reserve_on (vmid_start +ℤ env.vmids w.draws) req plan node.id env w in
        let choose : Plan → Action OrderResponse =
          λ plan. (λ (_ : Env). select_node plan env) >>= on_node plan in
        let chosen : (plan : Plan) → IsSized plan → Keeps (Good id rows ms ended) (choose plan) =
          λ plan sized.
            Keeps-bind (λ (_ : Env). select_node plan env) (on_node plan)
              (here (select_node plan) (select_node-Good id rows ms ended plan))
              (λ node. record {
                at = λ _ w g.
                    reserve_on-Good (vmid_start +ℤ env.vmids w.draws) req plan node.id w sized g;
              }) in
        (Keeps-heed IsSized (λ (_ : Env). plan_get_by_id req.plan_id env)
            (λ plan. raise_if (not plan.is_active) plan_not_active >> choose plan)
            (here (plan_get_by_id req.plan_id) (plan_get_by_id-Good id rows ms ended req.plan_id))
            (λ _. plan_get_by_id-IsSized req.plan_id env)
            (λ plan sized.
              Keeps-then (raise_if (not plan.is_active) plan_not_active) (choose plan)
                (Keeps-raise_if (not plan.is_active) plan_not_active) (chosen plan sized))).at
          env w g

    reuse-Good :
        (vmid_start : ℤ) (req : OrderRequest) (r : Outcome Error Instance) (w : World)
        → Good id rows ms ended w
        → Good id rows ms ended (reuse vmid_start req r env w).1
    reuse-Good vmid_start req (ok i) w g = g
    reuse-Good vmid_start req (err e) w g = place-Good vmid_start req w g

    create_vps-Good :
        (vmid_start : ℤ) (req : OrderRequest) (w : World)
        → Good id rows ms ended w
        → Good id rows ms ended (create_vps vmid_start req env w).1
    unfolding create_vps
    create_vps-Good vmid_start req w g =
        let (r, w') = get_by_idempotency_key req.idempotency_key env w in
        ground (
          arith,
          place-Good vmid_start req w g,
          reuse-Good vmid_start req r w'
              ((get_by_idempotency_key-Good id rows ms ended req.idempotency_key).at env w g),
        )

-- The rows of `id` stay these under whatever happens next.
module _ (id : ℕ) (rows : List Instance) (ms : List Node) (ended : All IsEnded rows) where
  happen-Good :
      (e : Event) (env : Env) (w : World)
      → Draws id env
      → Good id rows ms ended w
      → Good id rows ms ended (happen e env w)
  unfolding happen
  happen-Good (commands c) env w fresh g =
      let (same, quiet) =
        run-Stays id w (subst (All IsEnded) (sym g.0) ended) c env w (refl, refl) in
      (
        same ∙ g.0,
        subst (KeepsReserved ms) (sym (ap (λ x. x.0) quiet)) g.1,
        subst (All IsSized) (sym (ap (λ x. x.1) quiet)) g.2,
      )
  happen-Good (orders vmid_start req) env w fresh g =
      create_vps-Good id rows ms ended env fresh vmid_start req w g
  happen-Good (provisions k) env w fresh g =
      (run_provision_worker-Good id rows ms ended k).at env w g

  happen_all-Good :
      (es : List (Event × Env)) (w : World)
      → All (λ e. Draws id e.1) es
      → Good id rows ms ended w
      → Good id rows ms ended (happen_all es w)
  unfolding happen_all
  happen_all-Good [] w fresh g = g
  happen_all-Good ((e, env) ∷ es) w fresh g =
      happen_all-Good es (happen e env w) fresh.1 (happen-Good e env w fresh.0 g)

-- Terminated servers stay as they are, and their capacity stays taken. If all rows of a server have
-- a time of termination, if no plan asks for a negative amount, and if no UUID that is drawn is the
-- server's, then after any history of commands on servers, runs of the meter, orders and
-- provisionings, one after the other, whatever fails, these rows are as before, and the nodes are
-- those of before, none of which has less CPU, RAM or disk reserved.
pub happen_all-Ended :
    (id : ℕ) (es : List (Event × Env)) (w : World)
    → All IsEnded (select_where (is_instance id) w.instances)
    → All IsSized w.plans
    → All (λ e. Draws id e.1) es
    → (select_where (is_instance id) (happen_all es w).instances
        ≡ select_where (is_instance id) w.instances)
      × KeepsReserved w.nodes (happen_all es w).nodes
happen_all-Ended id es w ended sized fresh =
    let (same, kept, plans) =
      happen_all-Good id (select_where (is_instance id) w.instances) w.nodes ended es w fresh
        (refl, KeepsReserved-refl w.nodes, sized) in
    (same, kept)
