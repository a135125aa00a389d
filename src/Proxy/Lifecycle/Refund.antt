-- ===== src/Proxy/Lifecycle/Refund.antt =====
-- What the requests of the proxy orders come to in billing-service, whose internal routes hand them
-- to WalletUsecase as they are (InternalHold, InternalConfirmHold and InternalReleaseHold,
-- services/billing-service/internal/handler/http/handler.go).
use cloudmini_reseller.Common.{
  ℕ, suc, true, ◌≡◌, ◌∙◌, ap, some, List, [], ◌∷◌, arith, find_where, ◌==◌,
}
use mathlib.Core.Path.{subst, sym}
use cloudmini_reseller.Common.Int.{ℤ, pos, ◌≤ℤ◌, ◌-ℤ◌, int_laws}
use cloudmini_reseller.Billing.Entity.{Wallet, available_balance}
use cloudmini_reseller.Billing.Action.{World as Bank, Env as BankEnv}
use cloudmini_reseller.Billing.Repo.{find_by_user}
use cloudmini_reseller.Billing.Wallet.{Reference, floor_zero}
use cloudmini_reseller.Billing.Wallet.Calls.{Kind, holds, confirms, releases, Call, perform}
use cloudmini_reseller.Billing.Wallet.Funds.{IsFunded}
use cloudmini_reseller.Billing.Wallet.Books.{IsReliable as BankIsReliable}
use cloudmini_reseller.Billing.Wallet.Progress.{perform-IsOk, perform_found, confirm-hold}
use cloudmini_reseller.Proxy.Entity.{Order, active}
use cloudmini_reseller.Proxy.World.{Env, World, BillingCall, BillingOp, hold, confirm, release}
use cloudmini_reseller.Proxy.Repo.{get_by_id, is_order, update_status}
use cloudmini_reseller.Proxy.Orders.Saga.{asked}
use cloudmini_reseller.Proxy.Lifecycle.{cancel_order}
use cloudmini_reseller.Proxy.Expiry.Sweep.{IsReliable}

abbrev pub as_kind : BillingOp → Kind
as_kind hold = holds
as_kind confirm = confirms
as_kind release = releases

abbrev pub as_call : Reference → BillingCall → Call
as_call ref c = record { kind = as_kind c.op; user = c.user; amount = c.amount; ref = ref }

-- The requests of a log, the earliest of which is last, as billing-service carries them out.
pub serve : Reference → List BillingCall → BankEnv → Bank → Bank
serve ref [] env b = b
serve ref (c ∷ cs) env b = (perform (as_call ref c) env (serve ref cs env b)).1

-- What the wallet of an order's user is after a hold, its confirmation and its release.
abbrev pub not_refunded : ℤ → Wallet → Wallet
not_refunded a x = record x {
  balance = x.balance -ℤ a;
  hold_amount = floor_zero (x.hold_amount -ℤ a);
}

billing-cancel_order :
    (id user : ℕ) (o : Order) (env : Env) (w : World)
    → IsReliable env
    → find_where (is_order id) w.orders ≡ some o
    → (o.user_id == user) ≡ true
    → o.status ≡ active
    → (cancel_order id user env w).1.billing ≡ asked release o true ∷ w.billing
unfolding cancel_order get_by_id update_status
billing-cancel_order id user o env w up found owner live =
    ground
      (arith, up w.calls, up (suc w.calls), up (suc (suc w.calls)), up (suc (suc (suc w.calls))))

module _ (o : Order) (ref : Reference) (bank_env : BankEnv) (b : Bank) (x : Wallet)
    (bank_up : BankIsReliable bank_env) (wallet : find_by_user o.user_id b.wallets ≡ some x)
    (funded : IsFunded x)
    (covered : (pos 1 ≤ℤ o.total_amount) × (o.total_amount ≤ℤ available_balance x)) where
  serve_paid :
      find_by_user o.user_id
        (serve ref (asked confirm o true ∷ asked hold o true ∷ []) bank_env b).wallets
      ≡ some (record x { balance = x.balance -ℤ o.total_amount })
  unfolding serve perform
  serve_paid =
      (confirm-hold o.user_id o.total_amount ref ref bank_env b x bank_up wallet funded covered).1

  paid-IsFunded : IsFunded (record x { balance = x.balance -ℤ o.total_amount })
  unfolding available_balance
  paid-IsFunded = omega int_laws

  serve_cancelled :
      find_by_user o.user_id
        (serve ref
          (asked release o true ∷ asked confirm o true ∷ asked hold o true ∷ [])
          bank_env
          b).wallets
      ≡ some (not_refunded o.total_amount x)
  unfolding serve
  serve_cancelled =
      let paid = record x { balance = x.balance -ℤ o.total_amount } in
      let b' = serve ref (asked confirm o true ∷ asked hold o true ∷ []) bank_env b in
      let c = as_call ref (asked release o true) in
      perform_found c bank_env b' paid serve_paid
        ((perform-IsOk c bank_env b' paid bank_up serve_paid paid-IsFunded (omega arith)).0 tt)

  -- An active order was paid by a hold and its confirmation. If its owner cancels it, and nothing
  -- fails in either service, the request that is sent refunds nothing: the user is left with the
  -- price deducted, and with the holds of other orders lowered by the price, down to 0.
  pub cancel_order_unrefunded :
      (id user : ℕ) (env : Env) (w : World)
      → IsReliable env
      → find_where (is_order id) w.orders ≡ some o
      → (o.user_id == user) ≡ true
      → o.status ≡ active
      → w.billing ≡ asked confirm o true ∷ asked hold o true ∷ []
      → find_by_user o.user_id (serve ref (cancel_order id user env w).1.billing bank_env b).wallets
        ≡ some (not_refunded o.total_amount x)
  cancel_order_unrefunded id user env w up found owner live paid =
      subst
        (λ log.
          find_by_user o.user_id (serve ref log bank_env b).wallets
          ≡ some (not_refunded o.total_amount x))
        (sym (
          billing-cancel_order id user o env w up found owner live
          ∙ ap (λ log. asked release o true ∷ log) paid))
        serve_cancelled
