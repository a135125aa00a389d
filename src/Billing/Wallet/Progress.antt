-- ===== src/Billing/Wallet/Progress.antt =====
-- Operations that are allowed succeed while the database answers, and what two of them amount to.
use cloudmini_reseller.Common.{ℕ, suc, ap, ◌∙◌, false, ◌≡◌, ◌↔◌, some, List, [], ◌∷◌, arith}
use cloudmini_reseller.Common.Int.{ℤ, pos, ◌+ℤ◌, ◌-ℤ◌, ◌≤ℤ◌, int_laws, +ℤ_parts, -ℤ_parts}
use cloudmini_reseller.Billing.Entity.{Wallet, Transaction, available_balance}
use cloudmini_reseller.Billing.Action.{World, Env, Result, ok, err}
use cloudmini_reseller.Billing.Repo.{
  find_by_user, set_balance, get_by_user_id_for_update, update_balance, transaction_create,
  run_in_tx,
}
use cloudmini_reseller.Billing.Wallet.{
  Reference, deduct, hold_funds, confirm_hold, release_hold, credit,
}
use cloudmini_reseller.Billing.Wallet.Effects.{Effect}
use cloudmini_reseller.Billing.Wallet.Calls.{
  Kind, deducts, holds, confirms, releases, credits, Call, perform_as, perform, Allowed,
  balance_after, hold_after, perform-Effect,
}
use cloudmini_reseller.Billing.Wallet.Books.{IsReliable}
use cloudmini_reseller.Billing.Wallet.Funds.{IsFunded, NeedsNonneg}

abbrev pub IsOk : Result Transaction → Type 0
IsOk (ok t) = Unit
IsOk (err e) = ⊥

-- No operation sends more than five statements to a wallet that is there.
pub answers :
    (env : Env) (n : ℕ)
    → IsReliable env
    → (env.fails n ≡ false)
      × (env.fails (suc n) ≡ false)
      × (env.fails (suc (suc n)) ≡ false)
      × (env.fails (suc (suc (suc n))) ≡ false)
      × (env.fails (suc (suc (suc (suc n)))) ≡ false)
answers env n up = (up _, up _, up _, up _, up _)

module _ (c : Call) (env : Env) (w : World) (x : Wallet) (up : IsReliable env) where
  perform_as-IsOk :
      (k : Kind)
      → find_by_user c.user w.wallets ≡ some x
      → IsFunded x
      → NeedsNonneg k c.amount
      → Allowed k c.amount x ↔ IsOk (perform_as k c env w).0
  unfolding perform_as deduct hold_funds confirm_hold release_hold credit get_by_user_id_for_update
      update_balance transaction_create run_in_tx available_balance
  perform_as-IsOk (deducts request) e f n = ground (
    arith,
    answers env w.statements up,
    -ℤ_parts x.balance x.hold_amount,
    -ℤ_parts x.balance c.amount,
  )
  perform_as-IsOk holds e f n = ground (
    arith,
    answers env w.statements up,
    -ℤ_parts x.balance x.hold_amount,
    +ℤ_parts x.hold_amount c.amount,
  )
  perform_as-IsOk confirms e f n = ground (
    arith,
    answers env w.statements up,
    -ℤ_parts x.balance c.amount,
    -ℤ_parts x.hold_amount c.amount,
  )
  perform_as-IsOk releases e f n =
      ground (arith, answers env w.statements up, -ℤ_parts x.hold_amount c.amount)
  perform_as-IsOk credits e f n =
      ground (arith, answers env w.statements up, +ℤ_parts x.balance c.amount)

-- While no statement fails, an operation on a wallet whose balance covers its hold succeeds exactly
-- when it is allowed: a deduction or a hold if the amount is positive and not above the available
-- balance, a confirmation if the amount is not above the hold, a credit if the amount is positive,
-- a release always (a confirmed or released amount is taken to be at least 0).
pub perform-IsOk :
    (c : Call) (env : Env) (w : World) (x : Wallet)
    → IsReliable env
    → find_by_user c.user w.wallets ≡ some x
    → IsFunded x
    → NeedsNonneg c.kind c.amount
    → Allowed c.kind c.amount x ↔ IsOk (perform c env w).0
unfolding perform
perform-IsOk c env w x up = perform_as-IsOk c env w x up c.kind

-- The wallet that a user finds after a write.
pub find_by_user-set_balance :
    (user : ℕ) (b h : ℤ) (xs : List Wallet) {x : Wallet}
    → find_by_user user xs ≡ some x
    → find_by_user user (set_balance x.id b h xs) ≡ some (record x { balance = b; hold_amount = h })
unfolding find_by_user set_balance
find_by_user-set_balance user b h [] e = cc
find_by_user-set_balance user b h (y ∷ ys) {x} e =
    ground (arith, find_by_user-set_balance user b h ys {x = x})

Effect-found :
    (P : Type 0) (user : ℕ) (x : Wallet) (b h : ℤ) (env : Env) (w : World)
    → (r : Result Transaction × World) → Effect P x b h env w r
    → find_by_user user w.wallets ≡ some x
    → IsOk r.0
    → find_by_user user r.1.wallets ≡ some (record x { balance = b; hold_amount = h })
Effect-found P user x b h env w (ok t, w') eff e good =
    rw (eff.1) (find_by_user-set_balance user b h w.wallets e)
Effect-found P user x b h env w (err f, w') eff e good = absurd good

-- An operation that succeeds leaves its user the wallet of the specification.
pub perform_found :
    (c : Call) (env : Env) (w : World) (x : Wallet)
    → find_by_user c.user w.wallets ≡ some x
    → IsOk (perform c env w).0
    → find_by_user c.user (perform c env w).1.wallets
      ≡ some (record x {
        balance = balance_after c.kind c.amount x;
        hold_amount = hold_after c.kind c.amount x;
      })
perform_found c env w x e good =
    Effect-found _ c.user x _ _ env w _ (perform-Effect c env w e) e good

cancel : (a b : ℤ) → a +ℤ b -ℤ b ≡ a
cancel a b = omega int_laws

-- Two operations of one user, one after the other.
module _ (user : ℕ) (amount : ℤ) (ref ref' : Reference) (env : Env) (w : World) (x : Wallet)
    (up : IsReliable env) (found : find_by_user user w.wallets ≡ some x) (funded : IsFunded x)
    (covered : (pos 1 ≤ℤ amount) × (amount ≤ℤ available_balance x)) where
  abbrev call : Kind → Reference → Call
  call k r = record { kind = k; user = user; amount = amount; ref = r }

  abbrev held : Wallet
  held = record x { hold_amount = x.hold_amount +ℤ amount }

  hold_found : find_by_user user (perform (call holds ref) env w).1.wallets ≡ some held
  hold_found =
      perform_found (call holds ref) env w x found
        ((perform-IsOk (call holds ref) env w x up found funded tt).0 covered)

  held-IsFunded : IsFunded held
  unfolding available_balance
  held-IsFunded = omega int_laws

  -- A hold that the wallet covers, and then its confirmation, come to the deduction of the amount:
  -- the confirmation succeeds, and the user finds the wallet with that much less and the hold as
  -- it was before.
  pub confirm-hold :
      let w' = (hold_funds user amount ref env w).1 in
      let (r, w'') = confirm_hold user amount ref' env w' in
      IsOk r × (find_by_user user w''.wallets ≡ some (record x { balance = x.balance -ℤ amount }))
  unfolding perform
  confirm-hold =
      let w' = (perform (call holds ref) env w).1 in
      let good =
        (perform-IsOk (call confirms ref') env w' held up hold_found held-IsFunded (omega arith)).0
          (omega int_laws) in
      (
        good,
        perform_found (call confirms ref') env w' held hold_found good
            ∙ ap (λ h. some (record x { balance = x.balance -ℤ amount; hold_amount = h }))
                (cancel x.hold_amount amount),
      )
