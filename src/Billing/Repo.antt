-- ===== src/Billing/Repo.antt =====
-- The repositories, services/billing-service/internal/repository/postgres/billing_repo.go, and the
-- constraints of the tables, migrations/000003_create_billing_schema.sql.
--
-- RunInTx puts the open transaction into the context, and only TransactionRepository.Create takes
-- it from there. All the other methods run on the connection pool, so each of their statements
-- commits by itself.
pub mod Queries
use cloudmini_reseller.Common.{
  ℕ, String, str_eq, Bool, true, false, ◌&&◌, ◌||◌, Option, none, some, List, [], ◌∷◌, ◌++◌, ◌==◌,
  if◌then◌else◌,
}
use cloudmini_reseller.Common.Int.{ℤ, pos, ltb_ℤ}
use cloudmini_reseller.Billing.Entity.{Wallet, Transaction, Payment, PaymentStatus, PricingRule}
use cloudmini_reseller.Billing.Action.{
  World, Env, Error, Result, ok, err, Action, pure, raise, ◌>>◌, raise_if, statement,
  err_wallet_not_found, err_payment_not_found, check_violation, err_pricing_rule_not_found,
}

-- The row that SELECT … WHERE user_id finds; the column is UNIQUE.
unfoldable pub find_by_user : ℕ → List Wallet → Option Wallet
find_by_user user [] = none
find_by_user user (x ∷ xs) = if x.user_id == user then some x else find_by_user user xs

unfoldable pub has_id : ℕ → List Wallet → Bool
has_id id [] = false
has_id id (x ∷ xs) = x.id == id || has_id id xs

unfoldable pub set_balance : ℕ → ℤ → ℤ → List Wallet → List Wallet
set_balance id balance held [] = []
set_balance id balance held (x ∷ xs) =
    (if x.id == id then record x { balance = balance; hold_amount = held } else x)
    ∷ set_balance id balance held xs

-- CHECK (balance >= 0) and CHECK (hold_amount >= 0).
abbrev pub violates_check : ℤ → ℤ → Bool
violates_check balance held = ltb_ℤ balance (pos 0) || ltb_ℤ held (pos 0)

or_raise : {A : Type 0} → Option A → Error → Action A
or_raise none e = raise e
or_raise (some a) e = pure a

unfoldable pub wallet_create : Wallet → Action (Unit {0})
wallet_create x = do
  statement
  raise_if (violates_check x.balance x.hold_amount) check_violation
  λ env w. (ok tt, record w { wallets = x ∷ w.wallets })

unfoldable pub get_by_user_id : ℕ → Action Wallet
unfolding or_raise
get_by_user_id user = do
  statement
  λ env w. or_raise (find_by_user user w.wallets) err_wallet_not_found env w

-- SELECT … FOR UPDATE on the pool: the lock is gone when the statement ends.
unfoldable pub get_by_user_id_for_update : ℕ → Action Wallet
unfolding or_raise
get_by_user_id_for_update user = do
  statement
  λ env w. or_raise (find_by_user user w.wallets) err_wallet_not_found env w

unfoldable pub update_balance : ℕ → ℤ → ℤ → Action (Unit {0})
update_balance id balance held = do
  statement
  λ env w.
      (if has_id id w.wallets && violates_check balance held
        then (err check_violation, w)
        else (ok tt, record w { wallets = set_balance id balance held w.wallets }))

-- txOrDB: into the open transaction if there is one.
insert_transaction : Transaction → World → World
insert_transaction t w = elim w.staged [
  | none ↦ record w { transactions = t ∷ w.transactions }
  | some ts ↦ record w { staged = some (t ∷ ts) }
]

unfoldable pub transaction_create : Transaction → Action (Unit {0})
unfolding insert_transaction
transaction_create t = do statement; λ env w. (ok tt, insert_transaction t w)

begin : Action (Unit {0})
begin = do statement; λ env w. (ok tt, record w { staged = some [] })

rollback : World → World
rollback w = record w { staged = none }

staged_rows : Option (List Transaction) → List Transaction
staged_rows none = []
staged_rows (some ts) = ts

commit : World → World
unfolding staged_rows
commit w = record w { staged = none; transactions = staged_rows w.staged ++ w.transactions }

finish_tx : {A : Type 0} → Result A × World → Env → Result A × World
unfolding rollback commit
finish_tx (ok a, w) env =
    let (r, w') = statement env w in
    elim r [ ok _ ↦ (ok a, commit w') | err e ↦ (err e, rollback w') ]
finish_tx (err e, w) env = (err e, rollback w)

unfoldable pub run_in_tx : {A : Type 0} → Action A → Action A
unfolding begin finish_tx
run_in_tx fn = do begin; λ env w. finish_tx (fn env w) env

-- NULL matches only IS NULL.
abbrev pub same_id : Option ℕ → Option ℕ → Bool
same_id none none = true
same_id (some a) (some b) = a == b
same_id _ _ = false

-- The WHERE clause of the four queries of GetRule.
abbrev pub rule_matches : Option ℕ → String → Option ℕ → PricingRule → Bool
rule_matches reseller kind product r =
    same_id r.reseller_id reseller
    && str_eq r.product_type kind
    && same_id r.product_id product
    && r.is_active

-- LIMIT 1: the first row in the order of the table.
unfoldable pub find_rule : Option ℕ → String → Option ℕ → List PricingRule → Option PricingRule
find_rule reseller kind product [] = none
find_rule reseller kind product (r ∷ rs) =
    if rule_matches reseller kind product r then some r else find_rule reseller kind product rs

unfoldable pub get_rule : Option ℕ → String → Option ℕ → Action PricingRule
unfolding or_raise
get_rule reseller kind product = do
  statement
  λ env w. or_raise (find_rule reseller kind product w.rules) err_pricing_rule_not_found env w

-- The INSERT does not name gateway_txn_id, so that column stays NULL.
unfoldable pub payment_create : Payment → Action (Unit {0})
payment_create p = do
  statement
  λ env w. (ok tt, record w { payments = record p { gateway_txn_id = none } ∷ w.payments })

has_txn_id : String → Option String → Bool
has_txn_id t none = false
has_txn_id t (some s) = str_eq s t

unfoldable pub find_payment : String → List Payment → Option Payment
unfolding has_txn_id
find_payment t [] = none
find_payment t (p ∷ ps) = if has_txn_id t p.gateway_txn_id then some p else find_payment t ps

unfoldable pub get_by_gateway_txn_id : String → Action Payment
unfolding or_raise
get_by_gateway_txn_id t = do
  statement
  λ env w. or_raise (find_payment t w.payments) err_payment_not_found env w

unfoldable pub set_status : ℕ → PaymentStatus → String → List Payment → List Payment
set_status id status t [] = []
set_status id status t (p ∷ ps) =
    (if p.id == id then record p { status = status; gateway_txn_id = some t } else p)
    ∷ set_status id status t ps

unfoldable pub update_status : ℕ → PaymentStatus → String → Action (Unit {0})
update_status id status t = do
  statement
  λ env w. (ok tt, record w { payments = set_status id status t w.payments })
