-- ===== src/Vps/Provision/Placement.antt =====
-- Where an order for a server is placed.
use cloudmini_reseller.Common.{
  ℕ, suc, String, Bool, true, false, ◌≡◌, refl, Bool-cases, Option-cases, List, [], ◌∷◌, arith, All,
  select_where, any, find_where, some, none, str_eq, ◌==◌, inl, inr,
}
use mathlib.Core.Path.{subst, sym}
use cloudmini_reseller.Common.Int.{ℤ, ◌+ℤ◌}
use cloudmini_reseller.Common.Action.{Outcome, ok, err}
use cloudmini_reseller.Vps.Entity.{Plan, Node, Instance}
use cloudmini_reseller.Vps.World.{Env, World, Error}
use cloudmini_reseller.Vps.Repo.{plan_get_by_id, list_online, get_by_idempotency_key, has_key}
use cloudmini_reseller.Vps.Provision.{
  OrderRequest, OrderResponse, fits, less_loaded, head_or, reserve_on, place, create_vps,
  select_node,
}
use cloudmini_reseller.Vps.Provision.Steps.{IsReserved}
use cloudmini_reseller.Vps.Provision.Orders.{carried_out, Reserves, FailsOnce, reserve_on-Reserves}

-- The online nodes with the headroom that the plan asks for.
abbrev pub candidates : Plan → List Node → List Node
candidates plan ns = select_where (fits plan) (select_where (λ n. n.is_online) ns)

-- The node that is chosen is one of those that were sorted.
head_listed :
    (n : Node) (ns ss : List Node)
    → ((p : Node → Bool) → any p ss ≡ any p (n ∷ ns))
    → any (λ m. m.id == (head_or n ss).id) (n ∷ ns) ≡ true
head_listed n ns [] same = ground arith
head_listed n ns (m ∷ ms) same = ground (arith, same (λ k. k.id == m.id))

-- The order is placed on a node that is online and has the headroom; an error leaves the
-- reservations and the holds.
abbrev pub Placed : OrderRequest → World → Outcome Error OrderResponse → World → Type 0
Placed req w (ok a) w' =
    (plan : Plan) × ((node : ℕ) × (find_where (λ (p : Plan). p.id == req.plan_id) w.plans
        ≡ some plan)
      × (plan.is_active ≡ true)
      × (any (λ m. m.id == node) (candidates plan w.nodes) ≡ true)
      × Reserves req plan node w (ok a) w')
Placed req w (err e) w' = (w'.nodes ≡ w.nodes) × (carried_out w' ≡ carried_out w)

-- sort.Slice permutes the nodes it is given.
abbrev pub Permutes : Env → Type 0
Permutes env = (p : Node → Bool) (ns : List Node) → any p (env.sort less_loaded ns) ≡ any p ns

abbrev is_err : Outcome Error OrderResponse → Bool
is_err (ok a) = false
is_err (err e) = true

refused :
    (req : OrderRequest) (w : World) (r : Outcome Error OrderResponse) (w' : World)
    → is_err r ≡ true
    → (w'.nodes ≡ w.nodes) × (w'.billing ≡ w.billing)
    → Placed req w r w'
refused req w (ok a) w' e same = cc
refused req w (err e) w' refusal same = ground (arith, same)

accepted :
    (req : OrderRequest) (plan : Plan) (node : ℕ) (w : World) (r : Outcome Error OrderResponse)
    (w' : World)
    → find_where (λ (p : Plan). p.id == req.plan_id) w.plans ≡ some plan
    → plan.is_active ≡ true
    → any (λ m. m.id == node) (candidates plan w.nodes) ≡ true
    → Reserves req plan node w r w'
    → Placed req w r w'
accepted req plan node w (ok a) w' found active fit reserves =
    (plan, (node, found, active, fit, reserves))
accepted req plan node w (err e) w' found active fit reserves = reserves

module _ (req : OrderRequest) (vmid : ℤ) (env : Env) (w : World) where
  -- From the list of the candidates on; two calls have been made.
  on_candidates :
      (plan : Plan) (ns : List Node)
      → candidates plan w.nodes ≡ ns
      → env.fails w.calls ≡ false
      → env.fails (suc w.calls) ≡ false
      → find_where (λ (p : Plan). p.id == req.plan_id) w.plans ≡ some plan
      → plan.is_active ≡ true
      → FailsOnce env
      → Permutes env
      → any (has_key req.idempotency_key) w.instances ≡ false
      → All IsReserved w.nodes
      → let (r, w') = place vmid req env w in Placed req w r w'
  unfolding place plan_get_by_id select_node list_online
  on_candidates plan [] none_fit f0 f1 found active once sorts new kept =
      refused req w _ _ (ground arith) (ground arith)
  on_candidates plan (n ∷ ns) listed f0 f1 found active once sorts new kept =
      let h = head_or n (env.sort less_loaded (n ∷ ns)) in
      let w₂ = record w { calls = suc (suc w.calls) } in
      let reached : place vmid req env w
          ≡ reserve_on (vmid +ℤ env.vmids w.draws) req plan h.id env w₂ =
        ground arith in
      let fit : any (λ m. m.id == h.id) (candidates plan w.nodes) ≡ true =
        subst (λ ms. any (λ m. m.id == h.id) ms ≡ true) (sym listed)
          (head_listed n ns (env.sort less_loaded (n ∷ ns)) (λ p. sorts p (n ∷ ns))) in
      subst (λ p. Placed req w p.0 p.1) (sym reached)
        (accepted req plan h.id w _ _ found active fit
          (reserve_on-Reserves (vmid +ℤ env.vmids w.draws) req plan h.id env w₂ once new kept))

  place-Placed :
      FailsOnce env
      → Permutes env
      → any (has_key req.idempotency_key) w.instances ≡ false
      → All IsReserved w.nodes
      → let (r, w') = place vmid req env w in Placed req w r w'
  unfolding place plan_get_by_id select_node list_online
  place-Placed once sorts new kept =
      elim (Option-cases (find_where (λ (p : Plan). p.id == req.plan_id) w.plans)) [
        | inl no_plan ↦ refused req w _ _ (ground arith) (ground arith)
        | inr (plan, found) ↦ elim (Bool-cases (plan.is_active)) [
          | inr inactive ↦ refused req w _ _ (ground arith) (ground arith)
          | inl active ↦ elim (Bool-cases (env.fails w.calls)) [
            | inl f0 ↦ refused req w _ _ (ground arith) (ground arith)
            | inr f0 ↦ elim (Bool-cases (env.fails (suc w.calls))) [
              | inl f1 ↦ refused req w _ _ (ground arith) (ground arith)
              | inr f1 ↦
                  on_candidates plan (candidates plan w.nodes) refl f0 f1 found active once sorts
                    new kept
            ]
          ]
        ]
      ]

no_key :
    (key : String) (is : List Instance)
    → any (has_key key) is ≡ false
    → find_where (has_key key) is ≡ none
no_key key [] new = refl
no_key key (i ∷ is) new = ground (arith, no_key key is)

-- An order for a server with a new idempotency key is all or nothing: if at most one call fails,
-- no reservation is negative and the sort only permutes, then an order that ends well has reserved
-- the resources of its plan, which is active, on an online node with the headroom, and holds its
-- first hour; one that ends in an error has left all reservations, and holds nothing.
pub create_vps-Placed :
    (vmid : ℤ) (req : OrderRequest) (env : Env) (w : World)
    → FailsOnce env
    → Permutes env
    → any (has_key req.idempotency_key) w.instances ≡ false
    → All IsReserved w.nodes
    → let (r, w') = create_vps vmid req env w in Placed req w r w'
unfolding create_vps get_by_idempotency_key
create_vps-Placed vmid req env w once sorts new kept =
    let w₁ = record w { calls = suc w.calls } in
    elim (Bool-cases (str_eq req.idempotency_key "")) [
      | inl keyless ↦
          let same : create_vps vmid req env w ≡ place vmid req env w = ground arith in
          subst (λ p. Placed req w p.0 p.1) (sym same)
            (place-Placed req vmid env w once sorts new kept)
      | inr keyed ↦
          let same : create_vps vmid req env w ≡ place vmid req env w₁ =
            ground (arith, no_key req.idempotency_key w.instances new) in
          subst (λ p. Placed req w p.0 p.1) (sym same)
            (place-Placed req vmid env w₁ once sorts new kept)
    ]
