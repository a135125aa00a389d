-- ===== src/Proxy/Lifecycle/Owners.antt =====
-- Who may act on an order, and what a renewal and a cancellation come to.
use cloudmini_reseller.Common.{
  ℕ, suc, true, false, ◌≡◌, refl, none, some, List, [], ◌∷◌, arith, find_where, update_where,
  if◌then◌else◌, ◌==◌, ◌⊎◌, inl, inr, Bool-cases,
}
use cloudmini_reseller.Common.Int.{ℤ, pos, ◌≤ℤ◌, leb_ℤ}
use cloudmini_reseller.Common.Action.{Outcome, ok, err}
use cloudmini_reseller.Proxy.Entity.{Order, Product, expired, active}
use cloudmini_reseller.Proxy.World.{
  Env, World, Error, hold, confirm, forbidden, call_failed, hold_failed,
}
use cloudmini_reseller.Proxy.Repo.{
  get_by_id, is_order, set_purchase, set_overrides, set_status, product_get_by_id, update_status,
  update_order, update_after_purchase, effective_expiry,
}
use cloudmini_reseller.Proxy.Orders.{add_days}
use cloudmini_reseller.Proxy.Orders.Saga.{asked}
use cloudmini_reseller.Proxy.Lifecycle.{
  get_order, get_credentials, cancel_order, renew_order, renew_found, renew_to, renew_price,
}
use cloudmini_reseller.Proxy.Expiry.Sweep.{IsReliable}

-- Refused for the user, or for the failing look-up, with nothing done but the look-up.
abbrev pub Refuses : Env → World → {A : Type 0} → Outcome Error A × World → Type 0
Refuses env w (r, w') =
    (r ≡ err (if env.fails w.calls then call_failed else forbidden))
    × (w' ≡ record w { calls = suc w.calls })

find_where-update_where :
    (f : Order → Order)
    → ((o : Order) → (f o).id ≡ o.id)
    → (id : ℕ) (os : List Order) (o : Order) → find_where (is_order id) os ≡ some o
    → find_where (is_order id) (update_where (is_order o.id) f os) ≡ some (f o)
find_where-update_where f same id [] o e = cc
find_where-update_where f same id (x ∷ os) o e =
    ground (arith, same x, same o, find_where-update_where f same id os o)

-- The row that a renewal writes.
abbrev pub renewed : ℤ → Order → Order
renewed t o = record o {
  status = active;
  expires_at = some t;
  custom_expires_at = none;
  custom_price = none;
}

renew_to-renewed :
    (id : ℕ) (o : Order) (t : ℤ) (env : Env) (w : World)
    → IsReliable env
    → pos 1 ≤ℤ renew_price o
    → find_where (is_order id) w.orders ≡ some o
    → let (r, w') = renew_to o t env w in
      (r ≡ ok (record (renewed t o) { custom_price = o.custom_price }))
      × (w'.billing
          ≡ record (asked confirm o true) { amount = renew_price o }
            ∷ record (asked hold o true) { amount = renew_price o }
            ∷ w.billing)
      × (find_where (is_order id) w'.orders ≡ some (renewed t o))
unfolding renew_to update_after_purchase update_order update_status
renew_to-renewed id o t env w up some_price found =
    let bought = set_purchase o.provider_order_id o.credentials o.activated_at (some t) in
    let cleared = set_overrides none none o.admin_note in
    let rows = update_where (is_order o.id) bought w.orders in
    let found' = find_where-update_where bought (λ o. refl) id w.orders o found in
    let found'' = find_where-update_where cleared (λ o. refl) id rows (bought o) found' in
    ground (
      arith,
      some_price,
      up w.calls,
      up (suc w.calls),
      up (suc (suc w.calls)),
      up (suc (suc (suc w.calls))),
      up (suc (suc (suc (suc w.calls)))),
      up (suc (suc (suc (suc (suc w.calls))))),
      find_where-update_where (set_status active) (λ o. refl) id
          (update_where (is_order o.id) cleared rows) (cleared (bought o)) found'',
    )

module _ (id user : ℕ) (o : Order) (env : Env) (w : World)
    (found : find_where (is_order id) w.orders ≡ some o) where
  -- A user who does not own the order gets neither the order nor its credentials and can neither
  -- cancel nor renew it: all four end with an error after the look-up, and nothing else happens.
  orders_foreign :
      (o.user_id == user) ≡ false
      → Refuses env w (get_order id user env w)
        × Refuses env w (get_credentials id user env w)
        × Refuses env w (cancel_order id user env w)
        × Refuses env w (renew_order id user env w)
  unfolding get_order get_credentials cancel_order renew_order get_by_id
  orders_foreign foreign = (ground arith, ground arith, ground arith, ground arith)

  module _ (p : Product) (days t : ℤ) (up : IsReliable env) (owner : (o.user_id == user) ≡ true)
      (late : o.status ≡ expired)
      (product : find_where (λ (p : Product). p.id == o.product_id) w.products ≡ some p)
      (lasts : p.duration_days ≡ some days) (some_days : pos 1 ≤ℤ days)
      (ends : effective_expiry o ≡ some t) where
    pub renew_order_paid :
        pos 1 ≤ℤ renew_price o
        → let (r, w') = renew_order id user env w in
          (r ≡ ok (record (renewed (add_days t days) o) { custom_price = o.custom_price }))
          × (w'.billing
              ≡ record (asked confirm o true) { amount = renew_price o }
                ∷ record (asked hold o true) { amount = renew_price o }
                ∷ w.billing)
          × (find_where (is_order id) w'.orders ≡ some (renewed (add_days t days) o))
    unfolding renew_order renew_found get_by_id product_get_by_id
    renew_order_paid some_price = ground (
      arith,
      up w.calls,
      up (suc w.calls),
      renew_to-renewed id o (add_days t days) env (record w { calls = suc (suc w.calls) }) up
          some_price found,
    )

    renew_order_unpaid :
        renew_price o ≤ℤ pos 0
        → let (r, w') = renew_order id user env w in
          (r ≡ err hold_failed)
          × (w'.billing ≡ record (asked hold o false) { amount = renew_price o } ∷ w.billing)
          × (w'.orders ≡ w.orders)
    unfolding renew_order renew_found renew_to get_by_id product_get_by_id
    renew_order_unpaid no_price = ground (arith, no_price, up w.calls, up (suc w.calls))

    -- While nothing fails, the owner's renewal of an expired order whose product lasts some days
    -- charges the renewal price once, by a hold and its confirmation, makes the order active again,
    -- and moves its expiry to that many days after the effective expiry, wherever it was set; the
    -- row loses its custom price. Only where the price is 0 or below, the hold is refused, the
    -- renewal ends with this error, and no row changes.
    pub renew_order_extends :
        let (r, w') = renew_order id user env w in
        ((pos 1 ≤ℤ renew_price o)
          × (r ≡ ok (record (renewed (add_days t days) o) { custom_price = o.custom_price }))
          × (w'.billing
              ≡ record (asked confirm o true) { amount = renew_price o }
                ∷ record (asked hold o true) { amount = renew_price o }
                ∷ w.billing)
          × (find_where (is_order id) w'.orders ≡ some (renewed (add_days t days) o)))
        ⊎ ((renew_price o ≤ℤ pos 0)
            × (r ≡ err hold_failed)
            × (w'.billing ≡ record (asked hold o false) { amount = renew_price o } ∷ w.billing)
            × (w'.orders ≡ w.orders))
    renew_order_extends = elim (Bool-cases (leb_ℤ (pos 1) (renew_price o))) [
      | inl paid ↦
          let some_price : pos 1 ≤ℤ renew_price o = ground (arith, paid) in
          let (r, billing, row) = renew_order_paid some_price in inl (some_price, r, billing, row)
      | inr unpaid ↦
          let no_price : renew_price o ≤ℤ pos 0 = ground (arith, unpaid) in
          let (r, billing, rows) = renew_order_unpaid no_price in inr (no_price, r, billing, rows)
    ]
