-- ===== src/Proxy/Lifecycle/Closing.antt =====
-- Orders that have ended: no command takes them up again.
use cloudmini_reseller.Common.{
  ℕ, suc, String, Bool, true, false, ◌≡◌, ◌≢◌, inl, inr, refl, Option, none, some, List, [], ◌∷◌,
  arith, All, find_where, update_where, Option-cases, ◌==◌,
}
use cloudmini_reseller.Common.Int.{ℤ, pos}
use cloudmini_reseller.Proxy.Orders.{add_days}
use cloudmini_reseller.Proxy.Entity.{
  Product, Order, OrderStatus, active, suspended, cancelled, failed, refunded,
}
use cloudmini_reseller.Proxy.World.{Env, World}
use cloudmini_reseller.Proxy.Repo.{
  get_by_id, get_by_provider_order_id, update_status, update_order, update_after_purchase,
  product_get_by_id, is_order, set_status, set_overrides, set_purchase, effective_expiry,
  has_provider_id,
}
use cloudmini_reseller.Proxy.Lifecycle.{
  Proxy, cancel_order, renew_order, renew_to, renew_found, fulfilled_expiry, lock_order,
  unlock_order, fulfill, fulfill_from_proxy_cheap,
}

abbrev pub is_final : OrderStatus → Bool
is_final cancelled = true
is_final failed = true
is_final refunded = true
is_final _ = false

abbrev pub IsFinal : OrderStatus → Type 0
IsFinal s = is_final s ≡ true

-- The rows with this id have this status.
abbrev pub Closed : ℕ → OrderStatus → Order → Type 0
Closed id s o = o.id ≡ id → o.status ≡ s

found_id : (id : ℕ) (os : List Order) (o : Order) → find_where (is_order id) os ≡ some o → o.id ≡ id
found_id id [] o e = cc
found_id id (x ∷ os) o e = ground (arith, found_id id os o)

abbrev or_zero : Option ℤ → ℤ
or_zero none = pos 0
or_zero (some a) = a

abbrev duration_of : Option Product → Option ℤ
duration_of none = none
duration_of (some p) = p.duration_days

module _ (id : ℕ) (s : OrderStatus) where
  pub update_where-Closed :
      (f : Order → Order)
      → ((o : Order) → (f o).id ≡ o.id)
      → (id' : ℕ) (os : List Order) → id' ≢ id
      → All (Closed id s) os
      → All (Closed id s) (update_where (is_order id') f os)
  update_where-Closed f same id' [] other a = tt
  update_where-Closed f same id' (o ∷ os) other a =
      ground (arith, same o, update_where-Closed f same id' os other a.1)

  find_where-Closed :
      (p : Order → Bool) (os : List Order) (o : Order)
      → find_where p os ≡ some o
      → All (Closed id s) os
      → Closed id s o
  find_where-Closed p [] o e a = cc
  find_where-Closed p (x ∷ os) o e a = ground (arith, find_where-Closed p os o)

  pub cancel_order-Closed :
      (id' user : ℕ) (env : Env) (w : World)
      → IsFinal s
      → All (Closed id s) w.orders
      → All (Closed id s) (cancel_order id' user env w).1.orders
  unfolding cancel_order get_by_id update_status
  cancel_order-Closed id' user env w final a =
      elim (Option-cases (find_where (is_order id') w.orders)) [
        | inl e ↦ ground arith
        | inr (o, e) ↦ ground (
          arith,
          final,
          found_id id' w.orders o e,
          find_where-Closed (is_order id') w.orders o e a,
          update_where-Closed (set_status cancelled) (λ o. refl) o.id w.orders,
        )
      ]

  pub lock_order-Closed :
      (id' : ℕ) (env : Env) (w : World)
      → IsFinal s
      → All (Closed id s) w.orders
      → All (Closed id s) (lock_order id' env w).1.orders
  unfolding lock_order get_by_id update_status
  lock_order-Closed id' env w final a = elim (Option-cases (find_where (is_order id') w.orders)) [
    | inl e ↦ ground arith
    | inr (o, e) ↦ ground (
      arith,
      final,
      found_id id' w.orders o e,
      find_where-Closed (is_order id') w.orders o e a,
      update_where-Closed (set_status suspended) (λ o. refl) id' w.orders,
    )
  ]

  pub unlock_order-Closed :
      (id' : ℕ) (env : Env) (w : World)
      → IsFinal s
      → All (Closed id s) w.orders
      → All (Closed id s) (unlock_order id' env w).1.orders
  unfolding unlock_order get_by_id update_status
  unlock_order-Closed id' env w final a = elim (Option-cases (find_where (is_order id') w.orders)) [
    | inl e ↦ ground arith
    | inr (o, e) ↦ ground (
      arith,
      final,
      found_id id' w.orders o e,
      find_where-Closed (is_order id') w.orders o e a,
      update_where-Closed (set_status active) (λ o. refl) id' w.orders,
    )
  ]

  renew_to-Closed :
      (o : Order) (expiry : ℤ) (env : Env) (w : World)
      → o.id ≢ id
      → All (Closed id s) w.orders
      → All (Closed id s) (renew_to o expiry env w).1.orders
  unfolding renew_to update_status update_order update_after_purchase
  renew_to-Closed o expiry env w other a =
      let bought =
        update_where (is_order o.id)
          (set_purchase o.provider_order_id o.credentials o.activated_at (some expiry)) w.orders in
      let cleared = update_where (is_order o.id) (set_overrides none none o.admin_note) bought in
      let kept-bought =
        update_where-Closed
          (set_purchase o.provider_order_id o.credentials o.activated_at (some expiry)) (λ o. refl)
          o.id w.orders other a in
      let kept-cleared =
        update_where-Closed (set_overrides none none o.admin_note) (λ o. refl) o.id bought other
          kept-bought in
      ground (
        arith,
        kept-bought,
        kept-cleared,
        update_where-Closed (set_status active) (λ o. refl) o.id bought other kept-bought,
        update_where-Closed (set_status active) (λ o. refl) o.id cleared other kept-cleared,
      )

  renew_found-Closed :
      (o : Order) (env : Env) (w : World)
      → o.id ≢ id
      → All (Closed id s) w.orders
      → All (Closed id s) (renew_found o env w).1.orders
  unfolding renew_found product_get_by_id
  renew_found-Closed o env w other a = ground (
    arith,
    renew_to-Closed o
        (add_days (or_zero (effective_expiry o))
          (or_zero (duration_of (find_where (λ (p : Product). p.id == o.product_id) w.products))))
        env (record w { calls = suc w.calls }) other a,
  )

  pub renew_order-Closed :
      (id' user : ℕ) (env : Env) (w : World)
      → IsFinal s
      → All (Closed id s) w.orders
      → All (Closed id s) (renew_order id' user env w).1.orders
  unfolding renew_order get_by_id
  renew_order-Closed id' user env w final a =
      elim (Option-cases (find_where (is_order id') w.orders)) [
        | inl e ↦ ground arith
        | inr (o, e) ↦ ground (
          arith,
          final,
          find_where-Closed (is_order id') w.orders o e a,
          λ (other : o.id ≢ id).
              renew_found-Closed o env (record w { calls = suc w.calls }) other a,
        )
      ]

  fulfill-Closed :
      (o : Order) (provider_id : String) (proxy : Proxy) (env : Env) (w : World)
      → o.id ≢ id
      → All (Closed id s) w.orders
      → All (Closed id s) (fulfill o provider_id proxy env w).1.orders
  unfolding fulfill update_after_purchase product_get_by_id
  fulfill-Closed o provider_id proxy env w other a = ground (
    arith,
    update_where-Closed
        (set_purchase provider_id (env.encrypt w.calls proxy.credentials) (some env.now)
          (fulfilled_expiry o proxy env (record w { calls = suc w.calls })).0)
        (λ o. refl) o.id w.orders other a,
  )

  pub fulfill_from_proxy_cheap-Closed :
      (provider_id : String) (proxy : Proxy) (env : Env) (w : World)
      → IsFinal s
      → All (Closed id s) w.orders
      → All (Closed id s) (fulfill_from_proxy_cheap provider_id proxy env w).1.orders
  unfolding fulfill_from_proxy_cheap get_by_provider_order_id
  fulfill_from_proxy_cheap-Closed provider_id proxy env w final a =
      elim (Option-cases (find_where (has_provider_id provider_id) w.orders)) [
        | inl e ↦ ground arith
        | inr (o, e) ↦ ground (
          arith,
          final,
          find_where-Closed (has_provider_id provider_id) w.orders o e a,
          λ (other : o.id ≢ id).
              fulfill-Closed o provider_id proxy env (record w { calls = suc w.calls }) other a,
        )
      ]
