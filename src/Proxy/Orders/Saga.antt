-- ===== src/Proxy/Orders/Saga.antt =====
-- How CreateOrder pays: what it sent to billing-service when it ends.
use cloudmini_reseller.Common.{
  ℕ, suc, String, str_eq, Bool, true, false, ◌≡◌, ◌⊎◌, inl, inr, refl, ap, ◌∙◌, Option, none, some,
  List, [], ◌∷◌, arith, find_where, any, Option-cases, ◌==◌,
}
use mathlib.Core.Path.{subst}
use cloudmini_reseller.Common.Int.{◌*ℤ◌}
use cloudmini_reseller.Common.Action.{Outcome, ok, err}
use cloudmini_reseller.Proxy.Entity.{Order, Product, processing, active}
use cloudmini_reseller.Proxy.World.{
  Env, World, Error, BillingCall, BillingOp, hold, confirm, release,
}
use cloudmini_reseller.Proxy.Orders.{
  CreateOrderRequest, active_providers, settle_opened, reuse, create_unless, select_provider,
  open_order, prepare, await, activate, settle, place_order, create_order, at_least_one,
}
use cloudmini_reseller.Proxy.Repo.{
  order_create, get_by_idempotency_key, update_status, update_after_purchase, product_get_by_id,
  provider_get_by_id, has_key,
}

abbrev pub asked : BillingOp → Order → Bool → BillingCall
asked op o done = record {
  op = op;
  user = o.user_id;
  amount = o.total_amount;
  order = o.id;
  done = done;
}

-- What an order has cost when the saga ends.
abbrev pub Ends : Order → List BillingCall → Outcome Error Order → List BillingCall → Type 0
Ends o before (err e) after =
    (after ≡ asked hold o false ∷ before)
    ⊎ ((done : Bool) × (after ≡ asked release o done ∷ asked hold o true ∷ before))
Ends o before (ok o') after =
    ((o'.status ≡ processing) × (after ≡ asked hold o true ∷ before))
    ⊎ ((o'.status ≡ active)
        × ((done : Bool) × (after ≡ asked confirm o done ∷ asked hold o true ∷ before)))

pub settle-Ends :
    (product : Product) (o : Order) (env : Env) (w : World)
    → let (r, w') = settle product o env w in Ends o w.billing r w'.billing
unfolding settle await activate update_status update_after_purchase
settle-Ends product o env w = ground arith

-- The steps before the hold cost nothing and buy nothing.
abbrev pub Costless : World → World → Type 0
Costless w w' = (w'.billing ≡ w.billing) × (w'.vendor ≡ w.vendor)

-- The new row: its key was free, its owner asked for it, it costs the quantity times the price.
abbrev pub Opens : CreateOrderRequest → List Order → Order → Type 0
Opens req before o =
    (any (has_key req.idempotency_key) before ≡ false)
    × (o.user_id ≡ req.user_id)
    × (o.total_amount ≡ o.unit_price *ℤ at_least_one req.quantity)

-- What `prepare` leaves: one row more, or no change.
abbrev Prepared : CreateOrderRequest → World → Outcome Error (Product × Order) → World → Type 0
Prepared req w (ok (product, o)) w' =
    (w'.orders ≡ o ∷ w.orders) × Opens req w.orders o × Costless w w'
Prepared req w (err e) w' = (w'.orders ≡ w.orders) × Costless w w'

active_providers-Costless :
    (ids : List (Option ℕ)) (env : Env) (w : World)
    → let w' = (active_providers ids env w).1 in (w'.orders ≡ w.orders) × Costless w w'
unfolding active_providers provider_get_by_id
active_providers-Costless [] env w = (refl, (refl, refl))
active_providers-Costless (none ∷ ids) env w = active_providers-Costless ids env w
active_providers-Costless (some id ∷ ids) env w =
    ground (arith, active_providers-Costless ids env (provider_get_by_id id env w).1)

select_provider-Costless :
    (ids : List (Option ℕ)) (env : Env) (w : World)
    → let w' = (select_provider ids env w).1 in (w'.orders ≡ w.orders) × Costless w w'
unfolding select_provider
select_provider-Costless ids env w = ground (arith, active_providers-Costless ids env w)

open_order-Prepared :
    (req : CreateOrderRequest) (product : Product) (env : Env) (w : World)
    → let (r, w') = open_order req product env w in Prepared req w r w'
unfolding open_order order_create
open_order-Prepared req product env w =
    ground (arith, select_provider-Costless product.provider_ids env w)

prepare-Prepared :
    (req : CreateOrderRequest) (env : Env) (w : World)
    → let (r, w') = prepare req env w in Prepared req w r w'
unfolding prepare product_get_by_id
prepare-Prepared req env w =
    elim (Option-cases (find_where (λ (p : Product). p.id == req.product_id) w.products)) [
      | inl e ↦ ground arith
      | inr (product, e) ↦
          ground (arith, open_order-Prepared req product env (record w { calls = suc w.calls }))
    ]

-- What CreateOrder comes to: it changes no row and asks for no money and no proxy, or it opens an
-- order and runs its saga.
abbrev pub Pays : CreateOrderRequest → World → Outcome Error Order → World → Type 0
Pays req w r w' =
    ((w'.orders ≡ w.orders) × Costless w w')
    ⊎ ((o : Order) × Opens req w.orders o × Ends o w.billing r w'.billing)

-- The same rows and the same requests.
abbrev pub Same : World → World → Type 0
Same w w' = (w'.orders ≡ w.orders) × Costless w w'

settle_opened-Pays :
    (req : CreateOrderRequest) (r : Outcome Error (Product × Order)) (env : Env) (w₀ w w' : World)
    → Same w₀ w
    → Prepared req w r w'
    → let (r', w'') = settle_opened r env w' in Pays req w₀ r' w''
settle_opened-Pays req (ok (product, o)) env w₀ w w' (rows, (costs, sales))
      (row, opens, (costs', sales')) =
    inr (
      o,
      subst (λ os. Opens req os o) rows opens,
      subst (λ b. Ends o b (settle product o env w').0 (settle product o env w').1.billing)
          (costs' ∙ costs) (settle-Ends product o env w'),
    )
settle_opened-Pays req (err e) env w₀ w w' (rows, (costs, sales)) (rows', (costs', sales')) =
    inl (rows' ∙ rows, (costs' ∙ costs, sales' ∙ sales))

place_order-Pays :
    (req : CreateOrderRequest) (env : Env) (w₀ w : World)
    → Same w₀ w
    → let (r, w') = place_order req env w in Pays req w₀ r w'
unfolding place_order
place_order-Pays req env w₀ w same =
    settle_opened-Pays req (prepare req env w).0 env w₀ w _ same (prepare-Prepared req env w)

get_by_idempotency_key-Same :
    (key : String) (env : Env) (w : World) → Same w (get_by_idempotency_key key env w).1
unfolding get_by_idempotency_key
get_by_idempotency_key-Same key env w = ground arith

reuse-Pays :
    (req : CreateOrderRequest) (r : Outcome Error Order) (env : Env) (w₀ w : World)
    → Same w₀ w
    → let (r', w') = reuse req r env w in Pays req w₀ r' w'
reuse-Pays req (ok o) env w₀ w same = inl same
reuse-Pays req (err e) env w₀ w same = place_order-Pays req env w₀ w same

create_unless-Pays :
    (keyless : Bool) (req : CreateOrderRequest) (env : Env) (w : World)
    → let (r, w') = create_unless keyless req env w in Pays req w r w'
create_unless-Pays true req env w = place_order-Pays req env w w (refl, (refl, refl))
create_unless-Pays false req env w =
    reuse-Pays req (get_by_idempotency_key req.idempotency_key env w).0 env w _
      (get_by_idempotency_key-Same req.idempotency_key env w)

-- Whatever calls fail, CreateOrder either changes no row and asks for no money and no proxy, or
-- opens an order of the user, under a key that was free and for the quantity times the price, and
-- then: an error ends with a refused hold, or a hold and the request to release it; an order that
-- is returned as processing has exactly its hold; one that is returned as active has exactly its
-- hold and the request to confirm it.
pub create_order-Pays :
    (req : CreateOrderRequest) (env : Env) (w : World)
    → let (r, w') = create_order req env w in Pays req w r w'
unfolding create_order
create_order-Pays req env w = create_unless-Pays (str_eq req.idempotency_key "") req env w

-- A request whose key some order has opens none, whatever calls fail: no row changes, and no money
-- and no proxy is asked for.
pub create_order_again :
    (req : CreateOrderRequest) (env : Env) (w : World)
    → any (has_key req.idempotency_key) w.orders ≡ true
    → Same w (create_order req env w).1
create_order_again req env w taken = elim (create_order-Pays req env w) [
  | inl same ↦ same
  | inr (o, opens, ends) ↦ cc
]

abbrev pub IsRefused : Outcome Error Order → Type 0
IsRefused (ok o) = ⊥
IsRefused (err e) = Unit

settle_opened-IsRefused :
    (req : CreateOrderRequest) (r : Outcome Error (Product × Order)) (env : Env) (w w' : World)
    → any (has_key req.idempotency_key) w.orders ≡ true
    → Prepared req w r w'
    → IsRefused (settle_opened r env w').0
settle_opened-IsRefused req (ok (product, o)) env w w' taken (row, opens, rest) = cc
settle_opened-IsRefused req (err e) env w w' taken same = tt

create_unless-IsRefused :
    (keyless : Bool) (req : CreateOrderRequest) (env : Env) (w : World)
    → keyless ≡ true
    → any (has_key req.idempotency_key) w.orders ≡ true
    → IsRefused (create_unless keyless req env w).0
unfolding place_order
create_unless-IsRefused true req env w e taken =
    settle_opened-IsRefused req (prepare req env w).0 env w _ taken (prepare-Prepared req env w)
create_unless-IsRefused false req env w e taken = cc

-- Once there is an order without a key, every further request without a key ends with an error.
create_order_keyless :
    (req : CreateOrderRequest) (env : Env) (w : World)
    → req.idempotency_key ≡ ""
    → any (has_key "") w.orders ≡ true
    → IsRefused (create_order req env w).0
unfolding create_order
create_order_keyless req env w keyless taken =
    create_unless-IsRefused (str_eq req.idempotency_key "") req env w
      (ap (λ k. str_eq k "") keyless) (ap (λ k. any (has_key k) w.orders) keyless ∙ taken)
