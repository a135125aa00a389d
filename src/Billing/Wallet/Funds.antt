-- ===== src/Billing/Wallet/Funds.antt =====
-- The funds: holds are not negative, and balances cover them.
use cloudmini_reseller.Common.{
  ℕ, ◌≡◌, inl, inr, some, List, [], ◌∷◌, ◌==◌, All, arith, Option-cases, Bool-cases,
}
use mathlib.Core.Path.{subst}
use cloudmini_reseller.Common.Int.{ℤ, pos, ◌≤ℤ◌, int_laws}
use cloudmini_reseller.Billing.Entity.{Wallet, Transaction, available_balance}
use cloudmini_reseller.Billing.Action.{World, Env, Result, ok, err}
use cloudmini_reseller.Billing.Repo.{find_by_user, set_balance}
use cloudmini_reseller.Billing.Wallet.{new_wallet}
use cloudmini_reseller.Billing.Wallet.Effects.{Effect, Refuses, Creates}
use cloudmini_reseller.Billing.Wallet.Calls.{
  Kind, deducts, holds, confirms, releases, credits, Call, perform_as, perform, Allowed,
  balance_after, hold_after, perform-Effect, Misses, perform_as-Misses,
}

-- The hold is not negative, and the balance covers it.
abbrev pub IsFunded : Wallet → Type 0
IsFunded x = (pos 0 ≤ℤ x.hold_amount) × (x.hold_amount ≤ℤ x.balance)

pub find_by_user-All {ℓ} :
    (P : Wallet → Type ℓ) (user : ℕ) (xs : List Wallet) {x : Wallet}
    → All P xs
    → find_by_user user xs ≡ some x
    → P x
unfolding find_by_user
find_by_user-All P user [] a e = absurd (cc)
find_by_user-All P user (y ∷ xs) {x} a e = elim (Bool-cases (y.user_id == user)) [
  | inl same ↦ let first : y ≡ x = ground arith in subst P first a.0
  | inr other ↦ find_by_user-All P user xs a.1 (rw other at e)
]

set_balance-IsFunded :
    (id : ℕ) (b h : ℤ) (xs : List Wallet)
    → All IsFunded xs
    → pos 0 ≤ℤ h
    → h ≤ℤ b
    → All IsFunded (set_balance id b h xs)
unfolding set_balance
set_balance-IsFunded id b h [] a p q = tt
set_balance-IsFunded id b h (x ∷ xs) a p q = ground (arith, set_balance-IsFunded id b h xs a.1 p q)

-- What an effect on a wallet does to the two properties.
module _ {P : Type 0} (x : Wallet) (b h : ℤ) (env : Env) (w : World) where
  Effect-IsFunded :
      (r : Result Transaction × World)
      → Effect P x b h env w r
      → (P → (pos 0 ≤ℤ h) × (h ≤ℤ b))
      → All IsFunded w.wallets
      → All IsFunded r.1.wallets
  Effect-IsFunded (ok t, w') eff keep a =
      rw (eff.1) (set_balance-IsFunded x.id b h w.wallets a (keep eff.0).0 (keep eff.0).1)
  Effect-IsFunded (err e, w') (_, inl same) keep a = rw same a
  Effect-IsFunded (err e, w') (_, inr (p, wallets, _)) keep a =
      rw wallets (set_balance-IsFunded x.id b h w.wallets a (keep p).0 (keep p).1)

Refuses-IsFunded :
    (w : World) (r : Result Transaction × World)
    → Refuses w r
    → All IsFunded w.wallets
    → All IsFunded r.1.wallets
Refuses-IsFunded w (ok t, w') h a = absurd h
Refuses-IsFunded w (err e, w') (same, _) a = rw same a

Creates-IsFunded :
    (amount : ℤ) (x : Wallet) (env : Env) (w : World) (r : Result Transaction × World)
    → Creates amount x env w r
    → IsFunded x
    → All IsFunded w.wallets
    → All IsFunded r.1.wallets
Creates-IsFunded amount x env w (ok t, w') c f a =
    rw (c.0)
      (set_balance-IsFunded x.id _ _ (x ∷ w.wallets) (f, a) (omega arith) (omega (int_laws, c.5)))
Creates-IsFunded amount x env w (err e, w') (_, inl same) f a = rw same a
Creates-IsFunded amount x env w (err e, w') (_, inr (inl (made, _))) f a = rw made (f, a)
Creates-IsFunded amount x env w (err e, w') (_, inr (inr (wallets, p, _))) f a =
    rw wallets (set_balance-IsFunded x.id _ _ (x ∷ w.wallets) (f, a) (omega arith) (omega int_laws))

-- ConfirmHold and ReleaseHold do not check the sign of their amount.
abbrev pub NeedsNonneg : Kind → ℤ → Type 0
NeedsNonneg confirms amount = pos 0 ≤ℤ amount
NeedsNonneg releases amount = pos 0 ≤ℤ amount
NeedsNonneg _ amount = Unit

Allowed-IsFunded :
    (k : Kind) (amount : ℤ) (x : Wallet)
    → NeedsNonneg k amount
    → IsFunded x
    → Allowed k amount x
    → (pos 0 ≤ℤ hold_after k amount x) × (hold_after k amount x ≤ℤ balance_after k amount x)
unfolding available_balance
Allowed-IsFunded (deducts request) amount x n f p = omega int_laws
Allowed-IsFunded holds amount x n f p = omega int_laws
Allowed-IsFunded confirms amount x n f p = omega int_laws
Allowed-IsFunded releases amount x n f p = grind int_laws
Allowed-IsFunded credits amount x n f p = omega int_laws

Misses-IsFunded :
    (k : Kind) (c : Call) (env : Env) (w : World)
    → Misses k c env w
    → All IsFunded w.wallets
    → All IsFunded (perform_as k c env w).1.wallets
unfolding new_wallet
Misses-IsFunded credits c env w m a = Creates-IsFunded c.amount _ env w _ m (omega arith) a
Misses-IsFunded (deducts request) c env w m a = Refuses-IsFunded w _ m a
Misses-IsFunded holds c env w m a = Refuses-IsFunded w _ m a
Misses-IsFunded confirms c env w m a = Refuses-IsFunded w _ m a
Misses-IsFunded releases c env w m a = Refuses-IsFunded w _ m a

-- Whatever statements fail, no operation leaves a wallet with a negative hold or with a hold above
-- its balance, if there was none before and no negative amount is confirmed or released.
pub perform-IsFunded :
    (c : Call) (env : Env) (w : World)
    → NeedsNonneg c.kind c.amount
    → All IsFunded w.wallets
    → All IsFunded (perform c env w).1.wallets
unfolding perform
perform-IsFunded c env w n a = elim (Option-cases (find_by_user c.user w.wallets)) [
  | inl e ↦ Misses-IsFunded c.kind c env w (perform_as-Misses c.kind c env w e) a
  | inr (x, e) ↦
      Effect-IsFunded x _ _ env w _ (perform-Effect c env w e)
        (Allowed-IsFunded c.kind c.amount x n (find_by_user-All IsFunded c.user w.wallets a e)) a
]
