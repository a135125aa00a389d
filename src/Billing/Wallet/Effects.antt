-- ===== src/Billing/Wallet/Effects.antt =====
-- What each operation of the wallet does to the tables, whatever statements fail.
use cloudmini_reseller.Common.{ℕ, zero, suc, true, ◌≡◌, ◌⊎◌, Option, none, some, ◌∷◌, arith}
use cloudmini_reseller.Common.Int.{ℤ, pos, ◌+ℤ◌, ◌-ℤ◌, ◌≤ℤ◌, +ℤ_parts}
use cloudmini_reseller.Billing.Entity.{Wallet, Transaction, available_balance}
use cloudmini_reseller.Billing.Action.{World, Env, Result, ok, err, database_failure}
use cloudmini_reseller.Billing.Repo.{
  find_by_user, set_balance, get_by_user_id_for_update, update_balance, transaction_create,
  run_in_tx, wallet_create,
}
use cloudmini_reseller.Billing.Wallet.{
  Reference, deduct, hold_funds, confirm_hold, release_hold, credit, floor_zero, new_wallet,
}

abbrev pub plus : ℕ → ℕ → ℕ
plus zero m = m
plus (suc n) m = suc (plus n m)

-- The n-th statement after BEGIN fails.
abbrev pub FailsAt : ℕ → Env → World → Type 0
FailsAt n env w = env.fails (plus n w.statements) ≡ true

-- An operation on the wallet x that would write the balance b and the hold h, if P allows it:
-- it returns a transaction, and has written the wallet and that transaction; or it returns an
-- error and has written nothing; or it returns an error and has written the wallet but no
-- transaction, which happens only if the INSERT or the COMMIT fails.
abbrev pub Effect : Type 0 → Wallet → ℤ → ℤ → Env → World → Result Transaction × World → Type 0
Effect P x b h env w (ok t, w') =
    P
    × (w'.wallets ≡ set_balance x.id b h w.wallets)
    × (w'.transactions ≡ t ∷ w.transactions)
    × (t.wallet_id ≡ x.id)
    × (t.balance_before ≡ x.balance)
    × (t.balance_after ≡ b)
Effect P x b h env w (err e, w') =
    (w'.transactions ≡ w.transactions)
    × ((w'.wallets ≡ w.wallets)
        ⊎ (P × (w'.wallets ≡ set_balance x.id b h w.wallets) × (FailsAt 3 env w ⊎ FailsAt 4 env w)))

module _ (user : ℕ) (amount : ℤ) (ref : Reference) (env : Env) (w : World) {x : Wallet} where
  pub deduct-Effect :
      (request : Option ℕ)
      → find_by_user user w.wallets ≡ some x
      → Effect
          ((pos 1 ≤ℤ amount) × (amount ≤ℤ available_balance x))
          x
          (x.balance -ℤ amount)
          x.hold_amount
          env
          w
          (deduct user amount ref request env w)
  unfolding deduct get_by_user_id_for_update update_balance transaction_create run_in_tx
  deduct-Effect request found = ground arith

  pub hold_funds-Effect :
      find_by_user user w.wallets ≡ some x
      → Effect
          ((pos 1 ≤ℤ amount) × (amount ≤ℤ available_balance x))
          x
          x.balance
          (x.hold_amount +ℤ amount)
          env
          w
          (hold_funds user amount ref env w)
  unfolding hold_funds get_by_user_id_for_update update_balance transaction_create run_in_tx
  hold_funds-Effect found = ground arith

  pub confirm_hold-Effect :
      find_by_user user w.wallets ≡ some x
      → Effect
          (amount ≤ℤ x.hold_amount)
          x
          (x.balance -ℤ amount)
          (x.hold_amount -ℤ amount)
          env
          w
          (confirm_hold user amount ref env w)
  unfolding confirm_hold get_by_user_id_for_update update_balance transaction_create run_in_tx
  confirm_hold-Effect found = ground arith

  pub release_hold-Effect :
      find_by_user user w.wallets ≡ some x
      → Effect
          (Unit {0})
          x
          x.balance
          (floor_zero (x.hold_amount -ℤ amount))
          env
          w
          (release_hold user amount ref env w)
  unfolding release_hold get_by_user_id_for_update update_balance transaction_create run_in_tx
  release_hold-Effect found = ground arith

  pub credit-Effect :
      find_by_user user w.wallets ≡ some x
      → Effect
          (pos 1 ≤ℤ amount)
          x
          (x.balance +ℤ amount)
          x.hold_amount
          env
          w
          (credit user amount ref env w)
  unfolding credit get_by_user_id_for_update update_balance transaction_create run_in_tx
  credit-Effect found = ground arith

-- An error, with nothing written to the tables of wallets and transactions.
abbrev pub Refuses : World → Result Transaction × World → Type 0
Refuses w (ok t, w') = ⊥
Refuses w (err e, w') = (w'.wallets ≡ w.wallets) × (w'.transactions ≡ w.transactions)

module _ (user : ℕ) (amount : ℤ) (ref : Reference) (env : Env) (w : World) where
  pub deduct_missing :
      (request : Option ℕ)
      → find_by_user user w.wallets ≡ none
      → Refuses w (deduct user amount ref request env w)
  unfolding deduct get_by_user_id_for_update update_balance transaction_create run_in_tx
  deduct_missing request missing = ground arith

  pub hold_funds_missing :
      find_by_user user w.wallets ≡ none → Refuses w (hold_funds user amount ref env w)
  unfolding hold_funds get_by_user_id_for_update update_balance transaction_create run_in_tx
  hold_funds_missing missing = ground arith

  pub confirm_hold_missing :
      find_by_user user w.wallets ≡ none → Refuses w (confirm_hold user amount ref env w)
  unfolding confirm_hold get_by_user_id_for_update update_balance transaction_create run_in_tx
  confirm_hold_missing missing = ground arith

  pub release_hold_missing :
      find_by_user user w.wallets ≡ none → Refuses w (release_hold user amount ref env w)
  unfolding release_hold get_by_user_id_for_update update_balance transaction_create run_in_tx
  release_hold_missing missing = ground arith

-- With no wallet, a credit first makes one, under an id that the outside world chooses; the wallet
-- may be there, empty, although the credit failed.
abbrev pub Creates : ℤ → Wallet → Env → World → Result Transaction × World → Type 0
Creates amount x env w (ok t, w') =
    (w'.wallets ≡ set_balance x.id (pos 0 +ℤ amount) (pos 0) (x ∷ w.wallets))
    × (w'.transactions ≡ t ∷ w.transactions)
    × (t.wallet_id ≡ x.id)
    × (t.balance_before ≡ pos 0)
    × (t.balance_after ≡ pos 0 +ℤ amount)
    × (pos 1 ≤ℤ amount)
Creates amount x env w (err e, w') =
    (w'.transactions ≡ w.transactions)
    × ((w'.wallets ≡ w.wallets)
        ⊎ ((w'.wallets ≡ x ∷ w.wallets) × FailsAt 3 env w)
        ⊎ ((w'.wallets ≡ set_balance x.id (pos 0 +ℤ amount) (pos 0) (x ∷ w.wallets))
            × (pos 1 ≤ℤ amount)
            × (FailsAt 4 env w ⊎ FailsAt 5 env w)))

pub credit-Creates :
    (user : ℕ) (amount : ℤ) (ref : Reference) (env : Env) (w : World)
    → find_by_user user w.wallets ≡ none
    → Creates amount (new_wallet (env.uuids w.draws) user) env w (credit user amount ref env w)
unfolding credit get_by_user_id_for_update update_balance transaction_create run_in_tx wallet_create
credit-Creates user amount ref env w missing = ground (arith, +ℤ_parts (pos 0) amount)

-- A credit does not touch the payments.
pub payments-credit :
    (user : ℕ) (amount : ℤ) (ref : Reference) (env : Env) (w : World)
    → (credit user amount ref env w).1.payments ≡ w.payments
unfolding credit get_by_user_id_for_update update_balance transaction_create run_in_tx wallet_create
payments-credit user amount ref env w = ground arith

-- A credit that cannot begin its transaction changes nothing.
pub credit_down :
    (user : ℕ) (amount : ℤ) (ref : Reference) (env : Env) (w : World)
    → env.fails w.statements ≡ true
    → pos 1 ≤ℤ amount
    → let (r, w') = credit user amount ref env w in
      (r ≡ err database_failure) × (w'.wallets ≡ w.wallets) × (w'.transactions ≡ w.transactions)
unfolding credit run_in_tx
credit_down user amount ref env w down h = ground arith
