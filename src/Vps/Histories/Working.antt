-- ===== src/Vps/Histories/Working.antt =====
-- That the provisioning worker, services/vps-service/internal/usecase/provision_usecase.go, leaves the
-- rows of a terminated server and what nodes have reserved.
use mathlib.Core.Path.{subst, sym}
use cloudmini_reseller.Common.{
  ℕ, zero, suc, String, ◌≡◌, ◌≢◌, refl, ap, ◌∙◌, List, [], arith, All, select_where,
}
use cloudmini_reseller.Common.Int.{ℤ, pos}
use cloudmini_reseller.Common.Action.{Outcome, ok, err}
use cloudmini_reseller.Common.Keeps.{
  Keeps, Keeps-bind, Keeps-heed, Keeps-then, Keeps-attempt, Keeps-pure, Keeps-raise_if,
}
use cloudmini_reseller.Proxy.World.{BillingOp}
use cloudmini_reseller.Vps.Entity.{InstanceStatus, Plan, Node, Instance}
use cloudmini_reseller.Vps.World.{Env, World, Error, Action, Message, call, bill, publish}
use cloudmini_reseller.Vps.Repo.{
  is_instance, plan_get_by_id, list_online, release_resources, instance_get_by_id,
  get_by_idempotency_key, update_status, update_after_provisioning, provisioned,
}
use cloudmini_reseller.Vps.Provision.{
  select_node, wait_for_ip, fail, fail_after, or_fail, boot, announce, activate, provision,
  run_provision_worker,
}
use cloudmini_reseller.Vps.Instances.Rows.{IsEnded, other_rows, found_other}
use cloudmini_reseller.Vps.Histories.Reserving.{KeepsReserved, KeepsReserved-released_0, IsSized}

module _ (id : ℕ) (rows : List Instance) (ms : List Node) (ended : All IsEnded rows) where
  -- The rows of the server are these, no node has less reserved than here, and no plan asks for a
  -- negative amount.
  abbrev pub Good : World → Type 0
  Good w =
      (select_where (is_instance id) w.instances ≡ rows)
      × KeepsReserved ms w.nodes
      × All IsSized w.plans

  pub same-Good :
      {A : Type 0} (m : Action A)
      → ((env : Env) (w : World)
          → let w' = (m env w).1 in
            (w'.instances ≡ w.instances) × (w'.nodes ≡ w.nodes) × (w'.plans ≡ w.plans))
      → Keeps Good m
  same-Good m same = record {
    at = λ env w g.
        let (i, n, p) = same env w in
        (
          ap (select_where (is_instance id)) i ∙ g.0,
          subst (KeepsReserved ms) (sym n) g.1,
          subst (All IsSized) (sym p) g.2,
        );
  }

  call-Good : Keeps Good call
  call-Good = same-Good call (λ env w. (refl, refl, refl))

  publish-Good : (m : Message) → Keeps Good (publish m)
  publish-Good m = same-Good (publish m) (λ env w. (refl, refl, refl))

  bill-Good : (op : BillingOp) (user : ℕ) (amount : ℤ) (k : ℕ) → Keeps Good (bill op user amount k)
  bill-Good op user amount k = same-Good (bill op user amount k) (λ env w. (refl, refl, refl))

  pub plan_get_by_id-Good : (k : ℕ) → Keeps Good (plan_get_by_id k)
  unfolding plan_get_by_id
  plan_get_by_id-Good k = same-Good _ (λ env w. ground arith)

  instance_get_by_id-Good : (k : ℕ) → Keeps Good (instance_get_by_id k)
  unfolding instance_get_by_id
  instance_get_by_id-Good k = same-Good _ (λ env w. ground arith)

  pub get_by_idempotency_key-Good : (key : String) → Keeps Good (get_by_idempotency_key key)
  unfolding get_by_idempotency_key
  get_by_idempotency_key-Good key = same-Good _ (λ env w. ground arith)

  pub select_node-Good : (plan : Plan) → Keeps Good (select_node plan)
  unfolding select_node list_online
  select_node-Good plan = same-Good _ (λ env w. ground arith)

  update_status-Good : {k : ℕ} (s : InstanceStatus) → k ≢ id → Keeps Good (update_status k s)
  unfolding update_status
  update_status-Good {k} s other = record {
    at = λ env w g. ground (
      arith,
      other_rows id [] ([], []) k (λ i. record i { status = s }) w.instances other (λ i. refl),
    );
  }

  release_0-Good : (node : ℕ) → Keeps Good (release_resources node (pos 0) (pos 0) (pos 0))
  unfolding release_resources
  release_0-Good node = record {
    at = λ env w g. ground (arith, KeepsReserved-released_0 node ms w.nodes g.1);
  }

  ruleset steps = (
    Keeps-bind, Keeps-then, Keeps-attempt, Keeps-pure, Keeps-raise_if, call-Good, publish-Good,
    bill-Good, update_status-Good, release_0-Good,
  )

  module _ (i : Instance) (other : i.id ≢ id) where
    fail-Good : Keeps Good (fail i)
    fail-Good = search steps depth 12

    after_failure :
        {A : Type 0} (r : Outcome Error A) (env : Env) (w : World)
        → Good w
        → Good (fail_after i r env w).1
    after_failure (ok a) env w g = g
    after_failure (err e) env w g = fail-Good.at env w g

    or_fail-Good : {A : Type 0} (m : Action A) → Keeps Good m → Keeps Good (or_fail i m)
    or_fail-Good m km = record {
      at = λ env w g. after_failure (m env w).0 env (m env w).1 (km.at env w g);
    }

    boot-Good : Keeps Good (boot i)
    unfolding boot
    boot-Good = search (steps, or_fail-Good) depth 14

    wait_for_ip-Good : (n : ℕ) → Keeps Good (wait_for_ip n)
    unfolding wait_for_ip
    wait_for_ip-Good zero = record { at = λ env w g. g }
    wait_for_ip-Good (suc n) = record {
      at = λ env w g.
          ground (arith, (wait_for_ip-Good n).at env (record w { calls = suc w.calls }) g);
    }

    update_after_provisioning-Good :
        (ip : String)
        → Keeps Good (λ env. update_after_provisioning i.id i.vmid ip i.root_password env.now env)
    unfolding update_after_provisioning
    update_after_provisioning-Good ip = record {
      at = λ env w g. ground (
        arith,
        other_rows id [] ([], []) i.id (provisioned i.vmid ip i.root_password env.now) w.instances
            other (λ i. refl),
      );
    }

    announce-Good : (plan : Plan) → Keeps Good (announce i plan)
    announce-Good plan = search steps depth 12

    activate-Good : (plan : Plan) (ip : String) → Keeps Good (activate i plan ip)
    unfolding activate
    activate-Good plan ip =
        Keeps-then _ _ (or_fail-Good _ (update_after_provisioning-Good ip)) (announce-Good plan)

    provision-Good : (plan : Plan) → Keeps Good (provision i plan)
    unfolding provision
    provision-Good plan =
        let wait : Action String = λ env w. wait_for_ip env.polls env w in
        Keeps-then _ _ boot-Good (
          Keeps-bind (or_fail i wait) (activate i plan)
            (or_fail-Good wait (record { at = λ env w g. (wait_for_ip-Good env.polls).at env w g }))
            (activate-Good plan))

  instance_get_by_id-other :
      (k : ℕ) (env : Env) (w : World) (i : Instance)
      → Good w
      → (instance_get_by_id k env w).0 ≡ ok i
      → i.id ≢ id
  unfolding instance_get_by_id
  instance_get_by_id-other k env w i g e =
      ground
        (arith, found_other id [] ([], []) k w.instances i (subst (All IsEnded) (sym g.0) ended))

  pub run_provision_worker-Good : (k : ℕ) → Keeps Good (run_provision_worker k)
  unfolding run_provision_worker
  run_provision_worker-Good k =
      Keeps-heed (λ i. i.id ≢ id) (instance_get_by_id k) _ (instance_get_by_id-Good k)
        (instance_get_by_id-other k)
        (λ i other.
          Keeps-bind _ _ (plan_get_by_id-Good i.plan_id) (λ plan. provision-Good i other plan))
