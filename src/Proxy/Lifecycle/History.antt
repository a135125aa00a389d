-- ===== src/Proxy/Lifecycle/History.antt =====
-- Histories of commands on the orders: what their owners, the administrators, the providers and the
-- jobs do, in any order.
use cloudmini_reseller.Common.{ℕ, suc, String, ◌≢◌, refl, List, [], ◌∷◌, arith, All, select_where}
use cloudmini_reseller.Common.Int.{ℤ, ◌-ℤ◌}
use cloudmini_reseller.Proxy.Entity.{
  Order, OrderStatus, expired, cancelled, EventType, order_expired, order_deleted,
}
use cloudmini_reseller.Proxy.World.{Env, World, VendorCall, cancel, suspend}
use cloudmini_reseller.Proxy.Repo.{
  update_status, list_expired_active, list_expired_grace, set_status, has_run_out, has_lapsed,
}
use cloudmini_reseller.Proxy.Lifecycle.{
  Proxy, cancel_order, renew_order, lock_order, unlock_order, fulfill_from_proxy_cheap,
}
use cloudmini_reseller.Proxy.Expiry.{
  end_order, expire_all, delete_all, process_expired, process_grace_expired,
}
use cloudmini_reseller.Proxy.Lifecycle.Closing.{
  IsFinal, Closed, update_where-Closed, cancel_order-Closed, lock_order-Closed, unlock_order-Closed,
  renew_order-Closed, fulfill_from_proxy_cheap-Closed,
}

pub data Command : Type 0 where
  cancels renews : ℕ → ℕ → Command
  locks unlocks : ℕ → Command
  fulfils : String → Proxy → Command
  expires : Command
  deletes : ℤ → Command

unfoldable pub run : Command → Env → World → World
run (cancels id user) env w = (cancel_order id user env w).1
run (renews id user) env w = (renew_order id user env w).1
run (locks id) env w = (lock_order id env w).1
run (unlocks id) env w = (unlock_order id env w).1
run (fulfils provider_id proxy) env w = (fulfill_from_proxy_cheap provider_id proxy env w).1
run expires env w = (process_expired env w).1
run (deletes grace) env w = (process_grace_expired grace env w).1

-- Each command has its own environment: what fails and what time it is differs.
unfoldable pub run_all : List (Command × Env) → World → World
run_all [] w = w
run_all ((c, env) ∷ cs) w = run_all cs (run c env w)

module _ (id : ℕ) (s : OrderStatus) where
  abbrev IsOther : Order → Type 0
  IsOther o = o.id ≢ id

  run_out-IsOther :
      (t : ℤ) (os : List Order)
      → IsFinal s
      → All (Closed id s) os
      → All IsOther (select_where (has_run_out t) os)
  run_out-IsOther t [] final a = tt
  run_out-IsOther t (o ∷ os) final a = ground (arith, run_out-IsOther t os final a.1)

  lapsed-IsOther :
      (t : ℤ) (os : List Order)
      → IsFinal s
      → All (Closed id s) os
      → All IsOther (select_where (has_lapsed t) os)
  lapsed-IsOther t [] final a = tt
  lapsed-IsOther t (o ∷ os) final a = ground (arith, lapsed-IsOther t os final a.1)

  end_order-Closed :
      (kind : ℕ → String → VendorCall) (s' : OrderStatus) (event : EventType) (o : Order)
      (env : Env) (w : World)
      → IsOther o
      → All (Closed id s) w.orders
      → All (Closed id s) (end_order kind s' event o env w).1.orders
  unfolding update_status
  end_order-Closed kind s' event o env w other a =
      ground (arith, update_where-Closed id s (set_status s') (λ o. refl) o.id w.orders other a)

  expire_all-Closed :
      (os : List Order) (env : Env) (w : World)
      → All IsOther os
      → All (Closed id s) w.orders
      → All (Closed id s) (expire_all os env w).orders
  unfolding expire_all
  expire_all-Closed [] env w others a = a
  expire_all-Closed (o ∷ os) env w others a =
      expire_all-Closed os env _ others.1
        (end_order-Closed suspend expired order_expired o env w others.0 a)

  delete_all-Closed :
      (os : List Order) (env : Env) (w : World)
      → All IsOther os
      → All (Closed id s) w.orders
      → All (Closed id s) (delete_all os env w).orders
  unfolding delete_all
  delete_all-Closed [] env w others a = a
  delete_all-Closed (o ∷ os) env w others a =
      delete_all-Closed os env _ others.1
        (end_order-Closed cancel cancelled order_deleted o env w others.0 a)

  process_expired-Closed :
      (env : Env) (w : World)
      → IsFinal s
      → All (Closed id s) w.orders
      → All (Closed id s) (process_expired env w).1.orders
  unfolding process_expired list_expired_active
  process_expired-Closed env w final a = ground (
    arith,
    expire_all-Closed (select_where (has_run_out env.now) w.orders) env
        (record w { calls = suc w.calls }) (run_out-IsOther env.now w.orders final a) a,
  )

  process_grace_expired-Closed :
      (grace : ℤ) (env : Env) (w : World)
      → IsFinal s
      → All (Closed id s) w.orders
      → All (Closed id s) (process_grace_expired grace env w).1.orders
  unfolding process_grace_expired list_expired_grace
  process_grace_expired-Closed grace env w final a = ground (
    arith,
    delete_all-Closed (select_where (has_lapsed (env.now -ℤ grace)) w.orders) env
        (record w { calls = suc w.calls }) (lapsed-IsOther (env.now -ℤ grace) w.orders final a) a,
  )

  run-Closed :
      (c : Command) (env : Env) (w : World)
      → IsFinal s
      → All (Closed id s) w.orders
      → All (Closed id s) (run c env w).orders
  unfolding run
  run-Closed (cancels id' user) env w final a = cancel_order-Closed id s id' user env w final a
  run-Closed (renews id' user) env w final a = renew_order-Closed id s id' user env w final a
  run-Closed (locks id') env w final a = lock_order-Closed id s id' env w final a
  run-Closed (unlocks id') env w final a = unlock_order-Closed id s id' env w final a
  run-Closed (fulfils provider_id proxy) env w final a =
      fulfill_from_proxy_cheap-Closed id s provider_id proxy env w final a
  run-Closed expires env w final a = process_expired-Closed env w final a
  run-Closed (deletes grace) env w final a = process_grace_expired-Closed grace env w final a

  -- An order that is cancelled, failed or refunded keeps that status through every history of
  -- cancellations, renewals, locks, unlocks, webhooks and expiry jobs, whatever fails.
  pub run_all-Closed :
      (cs : List (Command × Env)) (w : World)
      → IsFinal s
      → All (Closed id s) w.orders
      → All (Closed id s) (run_all cs w).orders
  unfolding run_all
  run_all-Closed [] w final a = a
  run_all-Closed ((c, env) ∷ cs) w final a =
      run_all-Closed cs (run c env w) final (run-Closed c env w final a)
