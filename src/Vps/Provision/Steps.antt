-- ===== src/Vps/Provision/Steps.antt =====
-- The steps of the provisioning worker: what each does to the reservations of the nodes and to the
-- holds, if it goes on and if it fails.
use cloudmini_reseller.Common.{
  ℕ, zero, suc, Bool, not, ◌≡◌, ◌∙◌, ap, refl, List, [], ◌∷◌, arith, All, update_where,
}
use mathlib.Core.Path.{subst, sym}
use cloudmini_reseller.Common.Int.{ℤ, pos, ◌≤ℤ◌, ◌-ℤ◌, -ℤ_parts, eq_of_parts}
use cloudmini_reseller.Common.Action.{Outcome, ok, err, ◌>>◌, ◌>>=◌}
use cloudmini_reseller.Proxy.World.{BillingCall, release}
use cloudmini_reseller.Vps.Entity.{InstanceStatus, pending, provisioning, booting, Node, Instance}
use cloudmini_reseller.Vps.World.{Env, World, Error, Action, call}
use cloudmini_reseller.Vps.Repo.{is_node, released, greatest_zero, release_resources, update_status}
use cloudmini_reseller.Vps.Provision.{wait_for_ip, fail, fail_after, or_fail, move_to, boot}

abbrev pub IsReserved : Node → Type 0
IsReserved n =
    (pos 0 ≤ℤ n.reserved_cpu) × (pos 0 ≤ℤ n.reserved_ram_mb) × (pos 0 ≤ℤ n.reserved_disk_gb)

greatest_zero_sub_0 : (a : ℤ) → pos 0 ≤ℤ a → greatest_zero (a -ℤ pos 0) ≡ a
greatest_zero_sub_0 a h = ground (arith, -ℤ_parts a (pos 0), eq_of_parts (a -ℤ pos 0) a)

update_where-released_0 :
    (id : ℕ) (ns : List Node)
    → All IsReserved ns
    → update_where (is_node id) (released (pos 0) (pos 0) (pos 0)) ns ≡ ns
update_where-released_0 id [] a = refl
update_where-released_0 id (n ∷ ns) a = ground (
  arith,
  greatest_zero_sub_0 n.reserved_cpu a.0.0,
  greatest_zero_sub_0 n.reserved_ram_mb a.0.1,
  greatest_zero_sub_0 n.reserved_disk_gb a.0.2,
  update_where-released_0 id ns a.1,
)

pub wait_for_ip-Same :
    (k : ℕ) (env : Env) (w : World)
    → let w' = (wait_for_ip k env w).1 in (w'.nodes ≡ w.nodes) × (w'.billing ≡ w.billing)
unfolding wait_for_ip
wait_for_ip-Same zero env w = (refl, refl)
wait_for_ip-Same (suc k) env w =
    ground (arith, wait_for_ip-Same k env (record w { calls = suc w.calls }))

abbrev pub nothing_released : Instance → Bool → BillingCall
nothing_released i done = record {
  op = release;
  user = i.user_id;
  amount = pos 0;
  order = i.id;
  done = done;
}

-- A part of the worker that goes on has changed no reservation and no hold; one that fails has
-- asked to release an amount of 0.
abbrev pub Leaves : {A : Type 0} → Instance → World → Outcome Error A → World → Type 0
Leaves i w (ok a) w' = (w'.nodes ≡ w.nodes) × (w'.billing ≡ w.billing)
Leaves i w (err e) w' =
    (w'.nodes ≡ w.nodes) × ((done : Bool) × (w'.billing ≡ nothing_released i done ∷ w.billing))

fail-Leaves :
    (i : Instance) (env : Env) (w : World)
    → All IsReserved w.nodes
    → let w' = (fail i env w).1 in
      (w'.nodes ≡ w.nodes) × ((done : Bool) × (w'.billing ≡ nothing_released i done ∷ w.billing))
unfolding update_status release_resources
fail-Leaves i env w a = (
  ground (arith, update_where-released_0 i.node_id w.nodes a),
  (not (env.fails (suc (suc w.calls))), ground arith),
)

abbrev pub next : {A B : Type 0} → Outcome Error A → (A → Action B) → Action B
next r k env w = elim r [ ok a ↦ k a env w | err e ↦ (err e, w) ]

module _ (i : Instance) (env : Env) where
  after_fail :
      {A : Type 0} (r : Outcome Error A) (w w' : World)
      → All IsReserved w.nodes
      → w'.nodes ≡ w.nodes
      → w'.billing ≡ w.billing
      → let (r', w'') = fail_after i r env w' in Leaves i w r' w''
  after_fail (ok a) w w' reserved nodes billing = (nodes, billing)
  after_fail (err e) w w' reserved nodes billing =
      let (nodes', (done, billing')) =
        fail-Leaves i env w' (subst (All IsReserved) (sym nodes) reserved) in
      (nodes' ∙ nodes, (done, billing' ∙ ap (λ b. nothing_released i done ∷ b) billing))

  weaken :
      {A : Type 0} (r : Outcome Error A) (w w' w'' : World)
      → w'.nodes ≡ w.nodes
      → w'.billing ≡ w.billing
      → Leaves i w' r w''
      → Leaves i w r w''
  weaken (ok a) w w' w'' nodes billing (nodes', billing') = (nodes' ∙ nodes, billing' ∙ billing)
  weaken (err e) w w' w'' nodes billing (nodes', (done, billing')) =
      (nodes' ∙ nodes, (done, billing' ∙ ap (λ b. nothing_released i done ∷ b) billing))

  -- One call of the worker.
  pub or_fail-Leaves :
      {A : Type 0} (m : Action A) (w : World)
      → All IsReserved w.nodes
      → (m env w).1.nodes ≡ w.nodes
      → (m env w).1.billing ≡ w.billing
      → let (r, w') = or_fail i m env w in Leaves i w r w'
  or_fail-Leaves m w reserved nodes billing =
      after_fail (m env w).0 w (m env w).1 reserved nodes billing

  then-Leaves :
      {A B : Type 0} (r : Outcome Error A) (k : A → Action B) (w w' : World)
      → All IsReserved w.nodes
      → Leaves i w r w'
      → ((a : A) → All IsReserved w'.nodes → let (r', w'') = k a env w' in Leaves i w' r' w'')
      → let (r', w'') = next r k env w' in Leaves i w r' w''
  then-Leaves (ok a) k w w' reserved (nodes, billing) rest =
      weaken (k a env w').0 w w' (k a env w').1 nodes billing
        (rest a (subst (All IsReserved) (sym nodes) reserved))
  then-Leaves (err e) k w w' reserved leaves rest = leaves

  move_to-Same :
      (from to : InstanceStatus) (w : World)
      → let w' = (move_to i from to env w).1 in (w'.nodes ≡ w.nodes) × (w'.billing ≡ w.billing)
  unfolding update_status
  move_to-Same from to w = ground arith

  call-Leaves :
      (w : World) → All IsReserved w.nodes → let (r, w') = or_fail i call env w in Leaves i w r w'
  call-Leaves w reserved = or_fail-Leaves call w reserved refl refl

  started-Leaves :
      (w : World)
      → All IsReserved w.nodes
      → let (r, w') = (move_to i provisioning booting >> or_fail i call) env w in Leaves i w r w'
  started-Leaves w reserved =
      let (nodes, billing) = move_to-Same provisioning booting w in
      weaken _ w (move_to i provisioning booting env w).1 _ nodes billing
        (call-Leaves _ (subst (All IsReserved) (sym nodes) reserved))

  bind-Leaves :
      {A B : Type 0} (m : Action A) (k : A → Action B) (w : World)
      → All IsReserved w.nodes
      → (let (r, w') = m env w in Leaves i w r w')
      → ((a : A) (w' : World)
          → All IsReserved w'.nodes
          → let (r, w'') = k a env w' in Leaves i w' r w'')
      → let (r, w') = (m >>= k) env w in Leaves i w r w'
  bind-Leaves m k w reserved leaves rest =
      then-Leaves (m env w).0 k w (m env w).1 reserved leaves (λ a. rest a (m env w).1)

  call_then-Leaves :
      {B : Type 0} (m : Action B) (w : World)
      → All IsReserved w.nodes
      → ((w' : World) → All IsReserved w'.nodes → let (r, w'') = m env w' in Leaves i w' r w'')
      → let (r, w') = (or_fail i call >> m) env w in Leaves i w r w'
  call_then-Leaves m w reserved rest =
      bind-Leaves (or_fail i call) (λ _. m) w reserved (call-Leaves w reserved) (λ _. rest)

  pub boot-Leaves :
      (w : World) → All IsReserved w.nodes → let (r, w') = boot i env w in Leaves i w r w'
  unfolding boot
  boot-Leaves w reserved =
      let (nodes, billing) = move_to-Same pending provisioning w in
      let start = move_to i provisioning booting >> or_fail i call in
      weaken _ w (move_to i pending provisioning env w).1 _ nodes billing (
        call_then-Leaves (or_fail i call >> (or_fail i call >> start)) _
          (subst (All IsReserved) (sym nodes) reserved)
          (λ w' kept.
            call_then-Leaves (or_fail i call >> start) w' kept
              (λ w' kept. call_then-Leaves start w' kept started-Leaves)))
