-- ===== src/Vps/Provision/Orders.antt =====
-- What an order for a server reserves and holds.
use cloudmini_reseller.Common.{
  ℕ, suc, ◌+◌, true, false, ◌≡◌, refl, Bool-cases, List, [], ◌∷◌, arith, All, update_where,
  select_where, any, inl, inr,
}
use cloudmini_reseller.Common.Int.{ℤ, pos, ◌≤ℤ◌, ◌+ℤ◌, ◌-ℤ◌, +ℤ_parts, -ℤ_parts, eq_of_parts}
use cloudmini_reseller.Common.Action.{Outcome, ok, err}
use cloudmini_reseller.Proxy.World.{BillingCall, hold}
use cloudmini_reseller.Vps.Entity.{Plan, Node}
use cloudmini_reseller.Vps.World.{Env, World, Error}
use cloudmini_reseller.Vps.Repo.{
  has_key, is_node, reserved, released, greatest_zero, reserve_resources, release_resources,
  instance_create, update_status,
}
use cloudmini_reseller.Vps.Provision.{OrderRequest, OrderResponse, reserve_on}
use cloudmini_reseller.Vps.Provision.Steps.{IsReserved}

greatest_zero_back : (a b : ℤ) → pos 0 ≤ℤ a → greatest_zero ((a +ℤ b) -ℤ b) ≡ a
greatest_zero_back a b h =
    ground (arith, -ℤ_parts (a +ℤ b) b, +ℤ_parts a b, eq_of_parts ((a +ℤ b) -ℤ b) a)

update_where-back :
    (id : ℕ) (cpu ram disk : ℤ) (ns : List Node)
    → All IsReserved ns
    → update_where
        (is_node id)
        (released cpu ram disk)
        (update_where (is_node id) (reserved cpu ram disk) ns)
      ≡ ns
update_where-back id cpu ram disk [] a = refl
update_where-back id cpu ram disk (n ∷ ns) a = ground (
  arith,
  greatest_zero_back n.reserved_cpu cpu a.0.0,
  greatest_zero_back n.reserved_ram_mb ram a.0.1,
  greatest_zero_back n.reserved_disk_gb disk a.0.2,
  update_where-back id cpu ram disk ns a.1,
)

-- The requests that billing-service carried out.
abbrev pub carried_out : World → List BillingCall
carried_out w = select_where (λ c. c.done) w.billing

abbrev pub the_hold : OrderRequest → Plan → ℕ → BillingCall
the_hold req plan id = record {
  op = hold;
  user = req.user_id;
  amount = plan.hourly_rate;
  order = id;
  done = true;
}

-- A new server has the resources of its plan on its node; an error leaves what was reserved.
abbrev pub nodes_after : Plan → ℕ → List Node → Outcome Error OrderResponse → List Node
nodes_after plan node ns (ok a) =
    update_where (is_node node) (reserved plan.cpu plan.ram_mb plan.disk_gb) ns
nodes_after plan node ns (err e) = ns

-- A new server has a hold of its first hour; an error leaves no hold.
abbrev pub billing_after :
    OrderRequest → Plan → List BillingCall → Outcome Error OrderResponse → List BillingCall
billing_after req plan bs (ok a) = the_hold req plan a.instance_id ∷ bs
billing_after req plan bs (err e) = bs

abbrev pub Reserves : OrderRequest → Plan → ℕ → World → Outcome Error OrderResponse → World → Type 0
Reserves req plan node w r w' =
    (w'.nodes ≡ nodes_after plan node w.nodes r)
    × (carried_out w' ≡ billing_after req plan (carried_out w) r)

-- At most one call fails.
abbrev pub FailsOnce : Env → Type 0
FailsOnce env = (m n : ℕ) → env.fails m ≡ true → env.fails n ≡ true → m ≡ n

works_after :
    (env : Env) (m k : ℕ) → FailsOnce env → env.fails m ≡ true → env.fails (suc (k + m)) ≡ false
works_after env m k once failed = ground (arith, once m (suc (k + m)))

pub reserve_on-Reserves :
    (vmid : ℤ) (req : OrderRequest) (plan : Plan) (node : ℕ) (env : Env) (w : World)
    → FailsOnce env
    → any (has_key req.idempotency_key) w.instances ≡ false
    → All IsReserved w.nodes
    → let (r, w') = reserve_on vmid req plan node env w in Reserves req plan node w r w'
unfolding reserve_on reserve_resources release_resources instance_create update_status
reserve_on-Reserves vmid req plan node env w once new kept =
    let n = w.calls in
    let n3 = suc (suc (suc n)) in
    let back = update_where-back node plan.cpu plan.ram_mb plan.disk_gb w.nodes kept in
    elim (Bool-cases (env.fails n)) [
      | inl f0 ↦ ground arith
      | inr f0 ↦ elim (Bool-cases (env.fails (suc n))) [
        | inl f1 ↦ ground (arith, works_after env (suc n) 0 once f1, back)
        | inr f1 ↦ elim (Bool-cases (env.fails (suc (suc n)))) [
          | inl f2 ↦ ground (arith, works_after env (suc (suc n)) 0 once f2, back)
          | inr f2 ↦ elim (Bool-cases (env.fails n3)) [
            | inl f3 ↦ ground (arith, works_after env n3 1 once f3, back)
            | inr f3 ↦ ground arith
          ]
        ]
      ]
    ]
