-- ===== src/Vps/Instances/Charging.antt =====
-- The hourly meter reports the time since a server's last billing once.
use cloudmini_reseller.Common.{
  ℕ, suc, ◌≤◌, Bool, true, false, not, ◌&&◌, ◌==◌, ◌≡◌, refl, ap, Option, none, some, Option-cases,
  Bool-cases, inl, inr, List, [], ◌∷◌, arith, All, if◌then◌else◌, is_none, select_where,
  update_where, find_where, count_where,
}
use mathlib.Core.Path.{subst, sym}
use cloudmini_reseller.Common.Int.{
  ℤ, pos_part, neg_part, ◌+ℤ◌, ◌-ℤ◌, +ℤ_parts, -ℤ_parts, eq_of_parts,
}
use cloudmini_reseller.Vps.Entity.{Plan, Instance}
use cloudmini_reseller.Vps.World.{IsReliable, Env, World}
use cloudmini_reseller.Vps.Repo.{
  is_instance, is_running, plan_get_by_id, update_last_billed, list_running,
}
use cloudmini_reseller.Vps.Instances.{elapsed, report, meter, meter_all, run_hourly_meter}
use cloudmini_reseller.Vps.Instances.Metering.{reported, last_billed, Metered, count-update_where}

module _ (id : ℕ) (start : ℤ) where
  -- The rows that are yet to be metered: the server is at most once among them, as it stands in the
  -- table.
  abbrev Pending : List Instance → World → Type 0
  Pending is w =
      (count_where (is_instance id) is ≤ 1)
      × All (λ i. is_instance id i ≡ true → i.last_billed_at ≡ last_billed id w.instances) is

  last-set :
      (now : ℤ) (k : ℕ) (is : List Instance)
      → last_billed id
          (update_where (is_instance k) (λ i. record i { last_billed_at = some now }) is)
        ≡ (if (k == id) && not (count_where (is_instance id) is == 0)
            then some now
            else last_billed id is)
  last-set now k [] = ground arith
  last-set now k (i ∷ is) = ground (arith, last-set now k is)

  elapsed_sum : (s r t n : ℤ) → t ≡ s +ℤ r → n ≡ s +ℤ ((n -ℤ t) +ℤ r)
  elapsed_sum s r t n e = eq_of_parts n _ (
      omega (
        arith,
        ap pos_part e,
        ap neg_part e,
        +ℤ_parts s r,
        +ℤ_parts s ((n -ℤ t) +ℤ r),
        +ℤ_parts (n -ℤ t) r,
        -ℤ_parts n t,
      ))

  billed_sum : (s r now : ℤ) (t : Option ℤ) → t ≡ some (s +ℤ r) → now ≡ s +ℤ (elapsed now t +ℤ r)
  billed_sum s r now none e = cc
  billed_sum s r now (some t) e = ground (arith, elapsed_sum s r t now)

  count-last :
      (is : List Instance) (t : ℤ)
      → last_billed id is ≡ some t
      → (count_where (is_instance id) is == 0) ≡ false
  count-last [] t e = cc
  count-last (i ∷ is) t e = ground (arith, count-last is t)

  report-Metered :
      (i : Instance) (plan : Plan) (env : Env) (w : World)
      → IsReliable env
      → (is_instance id i ≡ true → i.last_billed_at ≡ last_billed id w.instances)
      → Metered id start w
      → Metered id start (report i plan env w).1
  unfolding report update_last_billed
  report-Metered i plan env w up as_stored p =
      let now = env.now in
      let r = reported id w.messages in
      let f : Instance → Instance = λ j. record j { last_billed_at = some now } in
      ground (
        arith,
        up w.calls,
        up (suc w.calls),
        last-set now i.id w.instances,
        count-last w.instances (start +ℤ r),
        count-update_where id (is_instance i.id) f w.instances (λ j. refl),
        billed_sum start r now i.last_billed_at,
      )

  meter-Metered :
      (i : Instance) (env : Env) (w : World)
      → IsReliable env
      → (is_instance id i ≡ true → i.last_billed_at ≡ last_billed id w.instances)
      → Metered id start w
      → Metered id start (meter i env w).1
  unfolding meter plan_get_by_id
  meter-Metered i env w up as_stored p =
      let w' = record w { calls = suc w.calls } in
      elim (Option-cases (find_where (λ (plan : Plan). plan.id == i.plan_id) w.plans)) [
        | inl none_found ↦ ground arith
        | inr (plan, found) ↦ ground (arith, report-Metered i plan env w' up as_stored p)
      ]

  meter-last :
      (i : Instance) (env : Env) (w : World)
      → is_instance id i ≡ false
      → last_billed id (meter i env w).1.instances ≡ last_billed id w.instances
  unfolding meter plan_get_by_id report update_last_billed
  meter-last i env w other = ground (arith, last-set env.now i.id w.instances)

  abbrev AsStored : Option ℤ → Instance → Type 0
  AsStored t i = is_instance id i ≡ true → i.last_billed_at ≡ t

  none_left :
      (is : List Instance) (t : Option ℤ)
      → count_where (is_instance id) is ≤ 0
      → All (AsStored t) is
  none_left [] t c = tt
  none_left (i ∷ is) t c = ground (arith, none_left is t)

  selected_once :
      (p : Instance → Bool) (is : List Instance)
      → count_where (is_instance id) (select_where p is) ≤ count_where (is_instance id) is
  selected_once p [] = omega arith
  selected_once p (i ∷ is) = ground (arith, selected_once p is)

  selected-AsStored :
      (p : Instance → Bool) (is : List Instance)
      → count_where (is_instance id) is ≤ 1
      → All (AsStored (last_billed id is)) (select_where p is)
  selected-AsStored p [] c = tt
  selected-AsStored p (i ∷ is) c = elim (Bool-cases (is_instance id i)) [
    | inl this ↦
        let none_more : count_where (is_instance id) (select_where p is) ≤ 0 =
          ground (arith, selected_once p is) in
        let left = none_left (select_where p is) i.last_billed_at none_more in ground (arith, left)
    | inr other ↦ ground (arith, selected-AsStored p is)
  ]

  meter-Pending :
      (i : Instance) (is : List Instance) (env : Env) (w : World)
      → Pending (i ∷ is) w
      → Pending is (meter i env w).1
  meter-Pending i is env w (once, (here, rest)) = elim (Bool-cases (is_instance id i)) [
    | inl this ↦
        let none_more : count_where (is_instance id) is ≤ 0 = ground arith in
        (omega (arith, none_more), none_left is _ none_more)
    | inr other ↦
        (ground arith, subst (λ t. All (AsStored t) is) (sym (meter-last i env w other)) rest)
  ]

  meter_all-Metered :
      (is : List Instance) (env : Env) (w : World)
      → IsReliable env
      → Pending is w
      → Metered id start w
      → Metered id start (meter_all is env w).1
  unfolding meter_all
  meter_all-Metered [] env w up pending p = p
  meter_all-Metered (i ∷ is) env w up pending p =
      meter_all-Metered is env (meter i env w).1 up (meter-Pending i is env w pending)
        (meter-Metered i env w up pending.1.0 p)

  pub run_hourly_meter-Metered :
      (env : Env) (w : World)
      → IsReliable env
      → Metered id start w
      → Metered id start (run_hourly_meter env w).1
  unfolding run_hourly_meter list_running
  run_hourly_meter-Metered env w up p =
      let listed = λ (i : Instance). is_running i.status && is_none i.terminated_at in
      let is = select_where listed w.instances in
      let once : count_where (is_instance id) is ≤ 1 =
        omega (arith, p.0, selected_once listed w.instances) in
      ground (
        arith,
        up w.calls,
        meter_all-Metered is env (record w { calls = suc w.calls }) up
            (once, selected-AsStored listed w.instances p.0) p,
      )
