-- ===== src/Billing/Wallet/Books.antt =====
-- The books: the ledger of transactions explains every balance.
use cloudmini_reseller.Common.{
  ℕ, false, sym, ◌∙◌, ◌≡◌, ◌≢◌, refl, inl, inr, List, [], ◌∷◌, ◌==◌, if◌then◌else◌, All, arith,
  Option-cases,
}
use cloudmini_reseller.Common.Int.{ℤ, pos, ◌+ℤ◌, ◌-ℤ◌, int_laws}
use cloudmini_reseller.Billing.Entity.{Wallet, Transaction}
use cloudmini_reseller.Billing.Action.{World, Env, Result, ok, err}
use cloudmini_reseller.Billing.Repo.{find_by_user, set_balance}
use cloudmini_reseller.Billing.Wallet.{new_wallet}
use cloudmini_reseller.Billing.Wallet.Effects.{Effect, Refuses, Creates, FailsAt, plus}
use cloudmini_reseller.Billing.Wallet.Calls.{
  Kind, deducts, holds, confirms, releases, credits, Call, perform_as, perform, perform-Effect,
  Misses, perform_as-Misses,
}
use cloudmini_reseller.Billing.Wallet.Funds.{find_by_user-All}

-- What the ledger says has been added to a wallet.
abbrev pub moved : ℕ → List Transaction → ℤ
moved id [] = pos 0
moved id (t ∷ ts) =
    if t.wallet_id == id then moved id ts +ℤ (t.balance_after -ℤ t.balance_before) else moved id ts

abbrev pub IsExplained : List Transaction → Wallet → Type 0
IsExplained ts x = x.balance ≡ moved x.id ts

set_balance-IsExplained :
    (id : ℕ) (t : Transaction) (b h : ℤ) (ts : List Transaction) (xs : List Wallet)
    → t.wallet_id ≡ id
    → t.balance_before ≡ moved id ts
    → t.balance_after ≡ b
    → All (IsExplained ts) xs
    → All (IsExplained (t ∷ ts)) (set_balance id b h xs)
unfolding set_balance
set_balance-IsExplained id t b h ts [] same before after a = tt
set_balance-IsExplained id t b h ts (x ∷ xs) same before after a =
    grind (int_laws, set_balance-IsExplained id t b h ts xs same before after a.1)

-- A wallet whose id the ledger does not know has had nothing moved.
moved_unknown :
    (id : ℕ) (ts : List Transaction) → All (λ t. t.wallet_id ≢ id) ts → moved id ts ≡ pos 0
moved_unknown id [] a = refl
moved_unknown id (t ∷ ts) a = ground (arith, moved_unknown id ts a.1)

abbrev pub IsReliable : Env → Type 0
IsReliable env = (n : ℕ) → env.fails n ≡ false

abbrev pub Balanced : World → Type 0
Balanced w = All (IsExplained w.transactions) w.wallets

never_fails : (n : ℕ) (env : Env) (w : World) → IsReliable env → FailsAt n env w → ⊥
never_fails n env w up f = cc (up (plus n w.statements))

module _ (P : Type 0) (x : Wallet) (b h : ℤ) (env : Env) (w : World) (up : IsReliable env) where
  Effect-Balanced :
      (r : Result Transaction × World)
      → Effect P x b h env w r
      → IsExplained w.transactions x
      → Balanced w
      → Balanced r.1
  Effect-Balanced (ok t, w') (_, wallets, entry, same, before, after) explained a =
      rw (wallets, entry)
        (set_balance-IsExplained x.id t b h w.transactions w.wallets same (before ∙ explained) after
          a)
  Effect-Balanced (err e, w') (entry, inl same) explained a = rw (same, entry) a
  Effect-Balanced (err e, w') (_, inr (_, _, inl f)) explained a = absurd (never_fails 3 env w up f)
  Effect-Balanced (err e, w') (_, inr (_, _, inr f)) explained a = absurd (never_fails 4 env w up f)

Refuses-Balanced :
    (w : World) (r : Result Transaction × World) → Refuses w r → Balanced w → Balanced r.1
Refuses-Balanced w (ok t, w') h a = absurd h
Refuses-Balanced w (err e, w') (wallets, entry) a = rw (wallets, entry) a

Creates-Balanced :
    (amount : ℤ) (x : Wallet) (env : Env) (w : World)
    → IsReliable env
    → (r : Result Transaction × World) → Creates amount x env w r
    → IsExplained w.transactions x
    → x.balance ≡ pos 0
    → Balanced w
    → Balanced r.1
Creates-Balanced amount x env w up (ok t, w') (wallets, entry, same, before, after, _) e z a =
    rw (wallets, entry)
      (set_balance-IsExplained x.id t _ _ w.transactions (x ∷ w.wallets) same (before ∙ sym z ∙ e)
        after (e, a))
Creates-Balanced amount x env w up (err e', w') (entry, inl same) e z a = rw (same, entry) a
Creates-Balanced amount x env w up (err e', w') (_, inr (inl (_, f))) e z a =
    absurd (never_fails 3 env w up f)
Creates-Balanced amount x env w up (err e', w') (_, inr (inr (_, _, inl f))) e z a =
    absurd (never_fails 4 env w up f)
Creates-Balanced amount x env w up (err e', w') (_, inr (inr (_, _, inr f))) e z a =
    absurd (never_fails 5 env w up f)

-- The next UUID is not yet the wallet of any transaction.
abbrev pub DrawsFresh : Env → World → Type 0
DrawsFresh env w = All (λ t. t.wallet_id ≢ env.uuids w.draws) w.transactions

Misses-Balanced :
    (k : Kind) (c : Call) (env : Env) (w : World)
    → IsReliable env
    → DrawsFresh env w
    → Misses k c env w
    → Balanced w
    → Balanced (perform_as k c env w).1
unfolding new_wallet
Misses-Balanced credits c env w up fresh m a =
    Creates-Balanced c.amount _ env w up _ m
      (sym (moved_unknown (env.uuids w.draws) w.transactions fresh)) refl a
Misses-Balanced (deducts request) c env w up fresh m a = Refuses-Balanced w _ m a
Misses-Balanced holds c env w up fresh m a = Refuses-Balanced w _ m a
Misses-Balanced confirms c env w up fresh m a = Refuses-Balanced w _ m a
Misses-Balanced releases c env w up fresh m a = Refuses-Balanced w _ m a

-- While no statement fails, every operation keeps the books balanced: each wallet's balance is the
-- sum of what the ledger's transactions say was added to it. The UUID that is drawn for a new
-- wallet must be one that no transaction names.
pub perform-Balanced :
    (c : Call) (env : Env) (w : World)
    → IsReliable env
    → DrawsFresh env w
    → Balanced w
    → Balanced (perform c env w).1
unfolding perform
perform-Balanced c env w up fresh a = elim (Option-cases (find_by_user c.user w.wallets)) [
  | inl e ↦ Misses-Balanced c.kind c env w up fresh (perform_as-Misses c.kind c env w e) a
  | inr (x, e) ↦
      Effect-Balanced _ x _ _ env w up _ (perform-Effect c env w e)
        (find_by_user-All (IsExplained w.transactions) c.user w.wallets a e) a
]
