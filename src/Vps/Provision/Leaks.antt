-- ===== src/Vps/Provision/Leaks.antt =====
-- What the worker gives back when it fails.
use cloudmini_reseller.Common.{ℕ, String, Bool, ◌≡◌, ◌∙◌, ap, ◌⊎◌, inl, inr, ◌∷◌, arith, All}
use mathlib.Core.Path.{subst, sym}
use cloudmini_reseller.Common.Action.{Outcome, ok, err, ◌>>=◌}
use cloudmini_reseller.Vps.Entity.{Plan, Instance}
use cloudmini_reseller.Vps.World.{Env, World, Error, Action}
use cloudmini_reseller.Vps.Repo.{update_after_provisioning, plan_get_by_id, instance_get_by_id}
use cloudmini_reseller.Vps.Provision.{
  wait_for_ip, or_fail, boot, activate, announce, provision, run_provision_worker,
}
use cloudmini_reseller.Vps.Provision.Steps.{
  IsReserved, Leaves, next, nothing_released, wait_for_ip-Same, or_fail-Leaves, boot-Leaves,
}

-- What a failing worker leaves: all reservations, and all holds, for at most an amount of 0 is asked
-- to be released.
abbrev pub Leaks : {A : Type 0} → World → Outcome Error A → World → Type 0
Leaks w (ok a) w' = Unit
Leaks w (err e) w' =
    (w'.nodes ≡ w.nodes)
    × ((w'.billing ≡ w.billing)
        ⊎ ((i : Instance) × ((done : Bool) × (w'.billing ≡ nothing_released i done ∷ w.billing))))

moved-Leaks :
    {A : Type 0} (r : Outcome Error A) (w w' w'' : World)
    → w'.nodes ≡ w.nodes
    → w'.billing ≡ w.billing
    → Leaks w' r w''
    → Leaks w r w''
moved-Leaks (ok a) w w' w'' nodes billing leaks = tt
moved-Leaks (err e) w w' w'' nodes billing (nodes', inl billing') =
    (nodes' ∙ nodes, inl (billing' ∙ billing))
moved-Leaks (err e) w w' w'' nodes billing (nodes', inr (i, (done, billing'))) =
    (nodes' ∙ nodes, inr (i, (done, billing' ∙ ap (λ b. nothing_released i done ∷ b) billing)))

module _ (i : Instance) (env : Env) where
  -- Until the worker succeeds, it has given nothing back.
  Leaves-Leaks : {A : Type 0} (r : Outcome Error A) (w w' : World) → Leaves i w r w' → Leaks w r w'
  Leaves-Leaks (ok a) w w' leaves = tt
  Leaves-Leaks (err e) w w' (nodes, rest) = (nodes, inr (i, rest))

  then-Leaks :
      {A B : Type 0} (r : Outcome Error A) (k : A → Action B) (w w' : World)
      → Leaves i w r w'
      → ((a : A)
          → (w'.nodes ≡ w.nodes)
          → (w'.billing ≡ w.billing)
          → let (r', w'') = k a env w' in Leaks w r' w'')
      → let (r', w'') = next r k env w' in Leaks w r' w''
  then-Leaks (ok a) k w w' (nodes, billing) rest = rest a nodes billing
  then-Leaks {A} (err e) k w w' leaves rest = Leaves-Leaks {A = A} (err e) w w' leaves

  update_after_provisioning-Same :
      (ip : String) (w : World)
      → let w' = (update_after_provisioning i.id i.vmid ip i.root_password env.now env w).1 in
        (w'.nodes ≡ w.nodes) × (w'.billing ≡ w.billing)
  unfolding update_after_provisioning
  update_after_provisioning-Same ip w = ground arith

  activate-Leaks :
      (plan : Plan) (ip : String) (w : World)
      → All IsReserved w.nodes
      → let (r, w') = activate i plan ip env w in Leaks w r w'
  unfolding activate
  activate-Leaks plan ip w reserved =
      let (nodes, billing) = update_after_provisioning-Same ip w in
      let update : Action (Unit {0}) =
        λ env w. update_after_provisioning i.id i.vmid ip i.root_password env.now env w in
      then-Leaks (or_fail i update env w).0 (λ _. announce i plan) w (or_fail i update env w).1
        (or_fail-Leaves i env update w reserved nodes billing) (λ a nodes billing. tt)

  provision-Leaks :
      (plan : Plan) (w : World)
      → All IsReserved w.nodes
      → let (r, w') = provision i plan env w in Leaks w r w'
  unfolding provision
  provision-Leaks plan w reserved =
      let wait : Action String = λ env w. wait_for_ip env.polls env w in
      let w1 = (boot i env w).1 in
      then-Leaks (boot i env w).0 (λ _. or_fail i wait >>= activate i plan) w w1
        (boot-Leaves i env w reserved)
        (λ a nodes billing.
          let kept = subst (All IsReserved) (sym nodes) reserved in
          let (nodes', billing') = wait_for_ip-Same env.polls env w1 in
          let w2 = (or_fail i wait env w1).1 in
          moved-Leaks _ w w1 _ nodes billing (
            then-Leaks (or_fail i wait env w1).0 (activate i plan) w1 w2
              (or_fail-Leaves i env wait w1 kept nodes' billing')
              (λ ip nodes billing.
                moved-Leaks _ w1 w2 _ nodes billing
                  (activate-Leaks plan ip w2 (subst (All IsReserved) (sym nodes) kept)))))

module _ (env : Env) where
  look-Leaks :
      {A B : Type 0} (r : Outcome Error A) (k : A → Action B) (w w' : World)
      → All IsReserved w.nodes
      → (w'.nodes ≡ w.nodes) × (w'.billing ≡ w.billing)
      → ((a : A) → All IsReserved w'.nodes → let (r', w'') = k a env w' in Leaks w' r' w'')
      → let (r', w'') = next r k env w' in Leaks w r' w''
  look-Leaks (ok a) k w w' reserved (nodes, billing) rest =
      moved-Leaks _ w w' _ nodes billing (rest a (subst (All IsReserved) (sym nodes) reserved))
  look-Leaks (err e) k w w' reserved (nodes, billing) rest = (nodes, inl billing)

  instance_get_by_id-Same :
      (id : ℕ) (w : World)
      → let w' = (instance_get_by_id id env w).1 in (w'.nodes ≡ w.nodes) × (w'.billing ≡ w.billing)
  unfolding instance_get_by_id
  instance_get_by_id-Same id w = ground arith

  plan_get_by_id-Same :
      (id : ℕ) (w : World)
      → let w' = (plan_get_by_id id env w).1 in (w'.nodes ≡ w.nodes) × (w'.billing ≡ w.billing)
  unfolding plan_get_by_id
  plan_get_by_id-Same id w = ground arith

-- A worker that fails, at whatever step, gives nothing back: if no reservation is negative, all
-- nodes keep what they had reserved, and billing-service is asked to release nothing, or an amount
-- of 0.
pub run_provision_worker-Leaks :
    (id : ℕ) (env : Env) (w : World)
    → All IsReserved w.nodes
    → let (r, w') = run_provision_worker id env w in Leaks w r w'
unfolding run_provision_worker
run_provision_worker-Leaks id env w reserved =
    let w1 = (instance_get_by_id id env w).1 in
    look-Leaks env (instance_get_by_id id env w).0 (λ i. plan_get_by_id i.plan_id >>= provision i) w
      w1 reserved (instance_get_by_id-Same env id w)
      (λ i kept.
        look-Leaks env (plan_get_by_id i.plan_id env w1).0 (provision i) w1
          (plan_get_by_id i.plan_id env w1).1 kept (plan_get_by_id-Same env i.plan_id w1)
          (λ plan kept. provision-Leaks i env plan (plan_get_by_id i.plan_id env w1).1 kept))
