-- ===== src/Proxy/Expiry/Sweep.antt =====
-- What the expiry job leaves behind.
use cloudmini_reseller.Common.{
  ℕ, suc, true, false, ◌≡◌, refl, List, [], ◌∷◌, arith, All, any, select_where, update_where, ◌==◌,
}
use cloudmini_reseller.Common.Int.{ℤ}
use cloudmini_reseller.Proxy.Entity.{Order, expired, order_expired}
use cloudmini_reseller.Proxy.World.{Env, World, suspend}
use cloudmini_reseller.Proxy.Repo.{
  update_status, list_expired_active, is_order, set_status, has_run_out,
}
use cloudmini_reseller.Proxy.Expiry.{end_order, expire_all, process_expired}

-- No call fails.
abbrev pub IsReliable : Env → Type 0
IsReliable env = (n : ℕ) → env.fails n ≡ false

-- A row that has run out at t is still on the list.
abbrev Due : ℤ → List Order → Order → Type 0
Due t os x = has_run_out t x ≡ true → any (λ o. o.id == x.id) os ≡ true

module _ (t : ℤ) where
  All-Due-cons : (o : Order) (os xs : List Order) → All (Due t os) xs → All (Due t (o ∷ os)) xs
  All-Due-cons o os [] a = tt
  All-Due-cons o os (x ∷ xs) a = ground (arith, All-Due-cons o os xs a.1)

  select_where-Due : (xs : List Order) → All (Due t (select_where (has_run_out t) xs)) xs
  select_where-Due [] = tt
  select_where-Due (x ∷ xs) = ground (
    arith,
    select_where-Due xs,
    All-Due-cons x (select_where (has_run_out t) xs) xs (select_where-Due xs),
  )

  update_where-Due :
      (o : Order) (os xs : List Order)
      → All (Due t (o ∷ os)) xs
      → All (Due t os) (update_where (is_order o.id) (set_status expired) xs)
  update_where-Due o os [] a = tt
  update_where-Due o os (x ∷ xs) a = ground (arith, update_where-Due o os xs a.1)

  any-Due : (xs : List Order) → All (Due t []) xs → any (has_run_out t) xs ≡ false
  any-Due [] a = refl
  any-Due (x ∷ xs) a = ground (arith, any-Due xs a.1)

  end_order-Due :
      (o : Order) (os : List Order) (env : Env) (w : World)
      → IsReliable env
      → All (Due t (o ∷ os)) w.orders
      → All (Due t os) (end_order suspend expired order_expired o env w).1.orders
  unfolding update_status
  end_order-Due o os env w up a =
      ground (arith, up w.calls, up (suc w.calls), update_where-Due o os w.orders a)

  expire_all-Due :
      (os : List Order) (env : Env) (w : World)
      → IsReliable env
      → All (Due t os) w.orders
      → any (has_run_out t) (expire_all os env w).orders ≡ false
  unfolding expire_all
  expire_all-Due [] env w up a = any-Due w.orders a
  expire_all-Due (o ∷ os) env w up a = expire_all-Due os env _ up (end_order-Due o os env w up a)

-- While nothing fails, the job leaves no active order whose effective expiry has passed.
pub process_expired_sweeps :
    (env : Env) (w : World)
    → IsReliable env
    → any (has_run_out env.now) (process_expired env w).1.orders ≡ false
unfolding process_expired list_expired_active
process_expired_sweeps env w up = ground (
  arith,
  up w.calls,
  expire_all-Due env.now (select_where (has_run_out env.now) w.orders) env
      (record w { calls = suc w.calls }) up (select_where-Due env.now w.orders),
)
