-- ===== src/Vps/Instances/Metering.antt =====
-- What the meter reports of a server, against the time of its last billing.
use cloudmini_reseller.Common.{
  ℕ, ◌≤◌, String, Bool, ◌==◌, ◌≡◌, refl, Option, none, some, List, [], ◌∷◌, arith, if◌then◌else◌,
  update_where, count_where,
}
use cloudmini_reseller.Common.Int.{ℤ, pos, ◌+ℤ◌}
use cloudmini_reseller.Common.Keeps.{
  Keeps, Keeps-bind, Keeps-then, Keeps-if, Keeps-attempt, Keeps-or_else, Keeps-pure, Keeps-raise_if,
}
use cloudmini_reseller.Vps.Entity.{InstanceStatus, Instance}
use cloudmini_reseller.Vps.World.{
  Env, World, Action, Message, usage_report, state_changed, suspended_for, terminated_for, Task,
  ask_proxmox, call, publish,
}
use cloudmini_reseller.Vps.Repo.{
  is_instance, instance_get_by_id, update_status, list_by_user, soft_delete, snapshot_create,
  snapshot_get_by_id, snapshot_delete,
}
use cloudmini_reseller.Vps.Instances.{
  get_owned, start_instance, stop_instance, reboot_instance, suspend_instance, resume_instance,
  terminate_instance, create_snapshot, delete_snapshot, suspend_all, handle_wallet_empty,
}

module _ (id : ℕ) where
  -- The seconds that were reported of the server.
  abbrev pub reported : List Message → ℤ
  reported [] = pos 0
  reported (usage_report u ∷ ms) =
      let rest = reported ms in if u.instance_id == id then u.seconds +ℤ rest else rest
  reported (_ ∷ ms) = reported ms

  abbrev pub last_billed : List Instance → Option ℤ
  last_billed [] = none
  last_billed (i ∷ is) =
      let rest = last_billed is in if is_instance id i then i.last_billed_at else rest

  -- The server has at most one row, and from `start` to its last billing all time is reported.
  abbrev pub IsMetered : ℤ → World → Type 0
  IsMetered start w =
      (count_where (is_instance id) w.instances ≤ 1)
      × (last_billed w.instances ≡ some (start +ℤ reported w.messages))

  pub count-update_where :
      (p : Instance → Bool) (f : Instance → Instance) (is : List Instance)
      → ((i : Instance) → (f i).id ≡ i.id)
      → count_where (is_instance id) (update_where p f is) ≡ count_where (is_instance id) is
  count-update_where p f [] same = refl
  count-update_where p f (i ∷ is) same = ground (arith, same i, count-update_where p f is same)

  last-update_where :
      (p : Instance → Bool) (f : Instance → Instance) (is : List Instance)
      → ((i : Instance) → ((f i).id ≡ i.id) × ((f i).last_billed_at ≡ i.last_billed_at))
      → last_billed (update_where p f is) ≡ last_billed is
  last-update_where p f [] same = refl
  last-update_where p f (i ∷ is) same = ground (arith, same i, last-update_where p f is same)

module _ (id : ℕ) (start : ℤ) where
  abbrev pub Metered : World → Type 0
  Metered = IsMetered id start

  same-Metered :
      {A : Type 0} (m : Action A)
      → ((env : Env) (w : World)
          → ((m env w).1.instances ≡ w.instances)
            × (reported id (m env w).1.messages ≡ reported id w.messages))
      → Keeps Metered m
  same-Metered m same = record { at = λ env w p. ground (arith, same env w) }

  update_status-Metered : (k : ℕ) (s : InstanceStatus) → Keeps Metered (update_status k s)
  unfolding update_status
  update_status-Metered k s = record {
    at = λ env w p.
        let f : Instance → Instance = λ i. record i { status = s } in
        ground (
          arith,
          count-update_where id (is_instance k) f w.instances (λ i. refl),
          last-update_where id (is_instance k) f w.instances (λ i. (refl, refl)),
        );
  }

  soft_delete-Metered : (k : ℕ) → Keeps Metered (soft_delete k)
  unfolding soft_delete
  soft_delete-Metered k = record {
    at = λ env w p.
        let f : Instance → Instance = λ i. record i { terminated_at = some env.now } in
        ground (
          arith,
          count-update_where id (is_instance k) f w.instances (λ i. refl),
          last-update_where id (is_instance k) f w.instances (λ i. (refl, refl)),
        );
  }

  instance_get_by_id-Metered : (k : ℕ) → Keeps Metered (instance_get_by_id k)
  unfolding instance_get_by_id
  instance_get_by_id-Metered k = same-Metered _ (λ env w. ground arith)

  get_owned-Metered : (k user : ℕ) → Keeps Metered (get_owned k user)
  unfolding get_owned instance_get_by_id
  get_owned-Metered k user = same-Metered _ (λ env w. ground arith)

  list_by_user-Metered : (user offset limit : ℕ) → Keeps Metered (list_by_user user offset limit)
  unfolding list_by_user
  list_by_user-Metered user offset limit = same-Metered _ (λ env w. ground arith)

  call-Metered : Keeps Metered call
  call-Metered = same-Metered _ (λ env w. (refl, refl))

  ask_proxmox-Metered : (task : Task) (vmid : ℤ) → Keeps Metered (ask_proxmox task vmid)
  ask_proxmox-Metered task vmid = same-Metered _ (λ env w. (refl, refl))

  -- All messages but the reports of usage.
  changed-Metered :
      (k : ℕ) (from to : InstanceStatus) → Keeps Metered (publish (state_changed k from to))
  changed-Metered k from to = same-Metered _ (λ env w. (refl, refl))

  suspended-Metered : (k : ℕ) (reason : String) → Keeps Metered (publish (suspended_for k reason))
  suspended-Metered k reason = same-Metered _ (λ env w. (refl, refl))

  terminated-Metered : (k user : ℕ) → Keeps Metered (publish (terminated_for k user))
  terminated-Metered k user = same-Metered _ (λ env w. (refl, refl))

  ruleset keeping = (
    Keeps-bind, Keeps-then, Keeps-if, Keeps-attempt, Keeps-or_else, Keeps-pure, Keeps-raise_if,
    update_status-Metered, soft_delete-Metered, instance_get_by_id-Metered, get_owned-Metered,
    list_by_user-Metered, call-Metered, ask_proxmox-Metered, changed-Metered, suspended-Metered,
    terminated-Metered,
  )

  pub start_instance-Metered : (k user : ℕ) → Keeps Metered (start_instance k user)
  unfolding start_instance
  start_instance-Metered k user = search keeping depth 12

  pub stop_instance-Metered : (k user : ℕ) → Keeps Metered (stop_instance k user)
  unfolding stop_instance
  stop_instance-Metered k user = search keeping depth 12

  pub reboot_instance-Metered : (k user : ℕ) → Keeps Metered (reboot_instance k user)
  unfolding reboot_instance
  reboot_instance-Metered k user = search keeping depth 12

  pub suspend_instance-Metered :
      (k : ℕ) (reason : String) → Keeps Metered (suspend_instance k reason)
  unfolding suspend_instance
  suspend_instance-Metered k reason = search keeping depth 12

  pub resume_instance-Metered : (k user : ℕ) → Keeps Metered (resume_instance k user)
  unfolding resume_instance
  resume_instance-Metered k user = search keeping depth 12

  pub terminate_instance-Metered : (k user : ℕ) → Keeps Metered (terminate_instance k user)
  unfolding terminate_instance
  terminate_instance-Metered k user = search keeping depth 14 fits 9000

  pub create_snapshot-Metered :
      (k user : ℕ) (name desc : String) → Keeps Metered (create_snapshot k user name desc)
  unfolding create_snapshot get_owned instance_get_by_id snapshot_create
  create_snapshot-Metered k user name desc = same-Metered _ (λ env w. ground arith)

  pub delete_snapshot-Metered : (k snap user : ℕ) → Keeps Metered (delete_snapshot k snap user)
  unfolding delete_snapshot get_owned instance_get_by_id snapshot_get_by_id snapshot_delete
  delete_snapshot-Metered k snap user = same-Metered _ (λ env w. ground arith)

  suspend_all-Metered : (is : List Instance) → Keeps Metered (suspend_all is)
  unfolding suspend_all
  suspend_all-Metered [] = search keeping
  suspend_all-Metered (i ∷ is) =
      Keeps-then _ _
        (Keeps-if _ _ _ (Keeps-attempt _ (suspend_instance-Metered i.id _)) (Keeps-pure tt))
        (suspend_all-Metered is)

  pub handle_wallet_empty-Metered : (user : ℕ) → Keeps Metered (handle_wallet_empty user)
  unfolding handle_wallet_empty
  handle_wallet_empty-Metered user =
      Keeps-bind _ _ (list_by_user-Metered user 0 100) (λ r. suspend_all-Metered r.0)
