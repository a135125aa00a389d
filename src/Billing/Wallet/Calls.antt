-- ===== src/Billing/Wallet/Calls.antt =====
-- The five operations that move money as one type of calls, with a specification: when each is
-- allowed on a wallet, and the balance and the hold that it leaves.
use cloudmini_reseller.Common.{ℕ, ◌≡◌, Option, none, some}
use cloudmini_reseller.Common.Int.{ℤ, pos, ◌+ℤ◌, ◌-ℤ◌, ◌≤ℤ◌}
use cloudmini_reseller.Billing.Entity.{Wallet, Transaction, available_balance}
use cloudmini_reseller.Billing.Action.{World, Env, Action}
use cloudmini_reseller.Billing.Repo.{find_by_user}
use cloudmini_reseller.Billing.Wallet.{
  Reference, deduct, hold_funds, confirm_hold, release_hold, credit, floor_zero, new_wallet,
}
use cloudmini_reseller.Billing.Wallet.Effects.{
  Effect, Refuses, Creates, deduct-Effect, hold_funds-Effect, confirm_hold-Effect,
  release_hold-Effect, credit-Effect, deduct_missing, hold_funds_missing, confirm_hold_missing,
  release_hold_missing, credit-Creates,
}

pub data Kind : Type 0 where
  deducts : Option ℕ → Kind
  holds confirms releases credits : Kind

pub record Call : Type 0 where
  pub kind : Kind
  pub user : ℕ
  pub amount : ℤ
  pub ref : Reference

unfoldable pub perform_as : Kind → Call → Action Transaction
perform_as (deducts request) c = deduct c.user c.amount c.ref request
perform_as holds c = hold_funds c.user c.amount c.ref
perform_as confirms c = confirm_hold c.user c.amount c.ref
perform_as releases c = release_hold c.user c.amount c.ref
perform_as credits c = credit c.user c.amount c.ref

unfoldable pub perform : Call → Action Transaction
unfolding perform_as
perform c = perform_as c.kind c

abbrev pub Allowed : Kind → ℤ → Wallet → Type 0
Allowed (deducts request) amount x = (pos 1 ≤ℤ amount) × (amount ≤ℤ available_balance x)
Allowed holds amount x = (pos 1 ≤ℤ amount) × (amount ≤ℤ available_balance x)
Allowed confirms amount x = amount ≤ℤ x.hold_amount
Allowed releases amount x = Unit {0}
Allowed credits amount x = pos 1 ≤ℤ amount

abbrev pub balance_after : Kind → ℤ → Wallet → ℤ
balance_after (deducts request) amount x = x.balance -ℤ amount
balance_after holds amount x = x.balance
balance_after confirms amount x = x.balance -ℤ amount
balance_after releases amount x = x.balance
balance_after credits amount x = x.balance +ℤ amount

abbrev pub hold_after : Kind → ℤ → Wallet → ℤ
hold_after (deducts request) amount x = x.hold_amount
hold_after holds amount x = x.hold_amount +ℤ amount
hold_after confirms amount x = x.hold_amount -ℤ amount
hold_after releases amount x = floor_zero (x.hold_amount -ℤ amount)
hold_after credits amount x = x.hold_amount

perform_as-Effect :
    (k : Kind) (c : Call) (env : Env) (w : World) {x : Wallet}
    → find_by_user c.user w.wallets ≡ some x
    → Effect
        (Allowed k c.amount x)
        x
        (balance_after k c.amount x)
        (hold_after k c.amount x)
        env
        w
        (perform_as k c env w)
unfolding perform_as
perform_as-Effect (deducts request) c env w e = deduct-Effect c.user c.amount c.ref env w request e
perform_as-Effect holds c env w e = hold_funds-Effect c.user c.amount c.ref env w e
perform_as-Effect confirms c env w e = confirm_hold-Effect c.user c.amount c.ref env w e
perform_as-Effect releases c env w e = release_hold-Effect c.user c.amount c.ref env w e
perform_as-Effect credits c env w e = credit-Effect c.user c.amount c.ref env w e

-- Each operation on a user who has a wallet meets its specification, whatever statements fail: a
-- transaction comes back only if the operation is allowed on the wallet, and then the wallet has
-- the specified balance and hold, and the ledger has one transaction more, which names the wallet
-- and the balances before and after; an error leaves the ledger as it was, and the wallet too
-- unless the INSERT of the transaction or the COMMIT failed.
pub perform-Effect :
    (c : Call) (env : Env) (w : World) {x : Wallet}
    → find_by_user c.user w.wallets ≡ some x
    → Effect
        (Allowed c.kind c.amount x)
        x
        (balance_after c.kind c.amount x)
        (hold_after c.kind c.amount x)
        env
        w
        (perform c env w)
unfolding perform
perform-Effect c env w e = perform_as-Effect c.kind c env w e

-- What a call does for a user who has no wallet.
abbrev pub Misses : Kind → Call → Env → World → Type 0
Misses credits c env w =
    Creates c.amount (new_wallet (env.uuids w.draws) c.user) env w (perform_as credits c env w)
Misses k c env w = Refuses w (perform_as k c env w)

pub perform_as-Misses :
    (k : Kind) (c : Call) (env : Env) (w : World)
    → find_by_user c.user w.wallets ≡ none
    → Misses k c env w
unfolding perform_as
perform_as-Misses (deducts request) c env w e = deduct_missing c.user c.amount c.ref env w request e
perform_as-Misses holds c env w e = hold_funds_missing c.user c.amount c.ref env w e
perform_as-Misses confirms c env w e = confirm_hold_missing c.user c.amount c.ref env w e
perform_as-Misses releases c env w e = release_hold_missing c.user c.amount c.ref env w e
perform_as-Misses credits c env w e = credit-Creates c.user c.amount c.ref env w e
