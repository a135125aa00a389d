-- ===== src/Vps/Instances/Ended.antt =====
-- What leaves a terminated server, and the nodes and plans, as they are.
use cloudmini_reseller.Common.{ℕ, String, ◌≡◌, ◌≢◌, refl, List, [], ◌∷◌, arith, All, if◌then◌else◌}
use mathlib.Core.Path.{subst, sym}
use cloudmini_reseller.Common.Action.{ok, ◌>>=◌, pure, attempt}
use cloudmini_reseller.Common.Keeps.{
  Keeps, Keeps-bind, Keeps-heed, Keeps-then, Keeps-if, Keeps-attempt, Keeps-ask, Keeps-pure,
}
use cloudmini_reseller.Vps.Entity.{Plan, Node, Instance}
use cloudmini_reseller.Vps.World.{Env, World, Action, publish, usage_report}
use cloudmini_reseller.Vps.Repo.{
  is_running, instance_get_by_id, update_last_billed, list_running, snapshot_create,
}
use cloudmini_reseller.Vps.Instances.{
  get_owned, start_instance, stop_instance, reboot_instance, suspend_instance, resume_instance,
  terminate_instance, create_snapshot, delete_snapshot, report, meter, meter_all, run_hourly_meter,
  is_too_soon, usage_of, suspend_all, handle_wallet_empty,
}
use cloudmini_reseller.Vps.Instances.Rows.{
  IsEnded, HasRows, keeping, same-HasRows, found_other, selected_others, update_last_billed-HasRows,
  instance_get_by_id-HasRows, get_owned-HasRows, plan_get_by_id-HasRows, list_running-HasRows,
  list_by_user-HasRows, call-HasRows,
}

module _ (id : ℕ) (rows : List Instance) (ns : List Node × List Plan)
    (ended : All IsEnded rows) where
  abbrev Stays : World → Type 0
  Stays = HasRows id rows ns

  -- What a look-up finds is another server.
  instance_get_by_id-other :
      (k : ℕ) (env : Env) (w : World) (i : Instance)
      → Stays w
      → (instance_get_by_id k env w).0 ≡ ok i
      → k ≢ id
  unfolding instance_get_by_id
  instance_get_by_id-other k env w i p e =
      ground (arith, found_other id rows ns k w.instances i (subst (All IsEnded) (sym p.0) ended))

  get_owned-other :
      (k user : ℕ) (env : Env) (w : World) (i : Instance)
      → Stays w
      → (get_owned k user env w).0 ≡ ok i
      → k ≢ id
  unfolding get_owned instance_get_by_id
  get_owned-other k user env w i p e =
      ground (arith, found_other id rows ns k w.instances i (subst (All IsEnded) (sym p.0) ended))

  -- The rest of an operation that looks a server up is about another server.
  pub owned-HasRows :
      {A : Type 0} (k user : ℕ) (rest : Instance → Action A)
      → ((i : Instance) → k ≢ id → Keeps Stays (rest i))
      → Keeps Stays (get_owned k user >>= rest)
  owned-HasRows k user rest h =
      Keeps-heed (λ _. k ≢ id) (get_owned k user) rest (get_owned-HasRows id rows ns k user)
        (get_owned-other k user) h

  pub found-HasRows :
      {A : Type 0} (k : ℕ) (rest : Instance → Action A)
      → ((i : Instance) → k ≢ id → Keeps Stays (rest i))
      → Keeps Stays (instance_get_by_id k >>= rest)
  found-HasRows k rest h =
      Keeps-heed (λ _. k ≢ id) (instance_get_by_id k) rest (instance_get_by_id-HasRows id rows ns k)
        (instance_get_by_id-other k) h

  ruleset owning = (keeping, owned-HasRows, found-HasRows)

  pub start_instance-HasRows : (k user : ℕ) → Keeps Stays (start_instance k user)
  unfolding start_instance
  start_instance-HasRows k user = search owning depth 12

  pub stop_instance-HasRows : (k user : ℕ) → Keeps Stays (stop_instance k user)
  unfolding stop_instance
  stop_instance-HasRows k user = search owning depth 12

  pub reboot_instance-HasRows : (k user : ℕ) → Keeps Stays (reboot_instance k user)
  unfolding reboot_instance
  reboot_instance-HasRows k user = search owning depth 12

  pub suspend_instance-HasRows : (k : ℕ) (reason : String) → Keeps Stays (suspend_instance k reason)
  unfolding suspend_instance
  suspend_instance-HasRows k reason = search owning depth 12

  pub resume_instance-HasRows : (k user : ℕ) → Keeps Stays (resume_instance k user)
  unfolding resume_instance
  resume_instance-HasRows k user = search owning depth 12

  pub terminate_instance-HasRows : (k user : ℕ) → Keeps Stays (terminate_instance k user)
  unfolding terminate_instance
  terminate_instance-HasRows k user = search owning depth 14 fits 9000

  pub create_snapshot-HasRows :
      (k user : ℕ) (name desc : String) → Keeps Stays (create_snapshot k user name desc)
  unfolding create_snapshot get_owned instance_get_by_id snapshot_create
  create_snapshot-HasRows k user name desc =
      same-HasRows id rows ns (create_snapshot k user name desc) (λ env w. ground arith)

  pub delete_snapshot-HasRows : (k snap user : ℕ) → Keeps Stays (delete_snapshot k snap user)
  unfolding delete_snapshot
  delete_snapshot-HasRows k snap user = search owning depth 12

  pub report-HasRows : (i : Instance) (plan : Plan) → i.id ≢ id → Keeps Stays (report i plan)
  unfolding report
  report-HasRows i plan other =
      let told : Action (Unit {0}) = λ env. publish (usage_report (usage_of env i plan)) env in
      let billed : Action (Unit {0}) = λ env. attempt (update_last_billed i.id env.now) env in
      Keeps-then _ _ (call-HasRows id rows ns) (
        Keeps-then told billed (same-HasRows id rows ns told (λ env w. (refl, refl))) (
          Keeps-ask (λ e. attempt (update_last_billed i.id e.now))
            (λ e. Keeps-attempt _ (update_last_billed-HasRows id rows ns e.now other))))

  pub meter-HasRows : (i : Instance) → i.id ≢ id → Keeps Stays (meter i)
  unfolding meter
  meter-HasRows i other = Keeps-bind _ _ (plan_get_by_id-HasRows id rows ns i.plan_id) (λ plan.
      Keeps-ask (λ e. if is_too_soon e.now i.last_billed_at then pure tt else report i plan)
        (λ e. Keeps-if _ _ _ (Keeps-pure tt) (report-HasRows i plan other)))

  pub meter_all-HasRows :
      (is : List Instance) → All (λ i. i.id ≢ id) is → Keeps Stays (meter_all is)
  unfolding meter_all
  meter_all-HasRows [] a = search owning
  meter_all-HasRows (i ∷ is) a =
      Keeps-then _ _ (Keeps-attempt _ (meter-HasRows i a.0)) (meter_all-HasRows is a.1)

  pub suspend_all-HasRows : (is : List Instance) → Keeps Stays (suspend_all is)
  unfolding suspend_all
  suspend_all-HasRows [] = search owning
  suspend_all-HasRows (i ∷ is) =
      Keeps-then _ _
        (Keeps-if _ _ _ (Keeps-attempt _ (suspend_instance-HasRows i.id _)) (Keeps-pure tt))
        (suspend_all-HasRows is)

  list_running-others :
      (env : Env) (w : World) (is : List Instance)
      → Stays w
      → (list_running env w).0 ≡ ok is
      → All (λ i. i.id ≢ id) is
  unfolding list_running
  list_running-others env w is p e =
      let others =
        selected_others id rows ns (λ i. is_running i.status) w.instances
          (subst (All IsEnded) (sym p.0) ended) in
      ground (arith, others)

  pub run_hourly_meter-HasRows : Keeps Stays run_hourly_meter
  unfolding run_hourly_meter
  run_hourly_meter-HasRows =
      Keeps-heed (All (λ i. i.id ≢ id)) list_running meter_all (list_running-HasRows id rows ns)
        list_running-others meter_all-HasRows

  pub handle_wallet_empty-HasRows : (user : ℕ) → Keeps Stays (handle_wallet_empty user)
  unfolding handle_wallet_empty
  handle_wallet_empty-HasRows user =
      Keeps-bind _ _ (list_by_user-HasRows id rows ns user 0 100) (λ r. suspend_all-HasRows r.0)
