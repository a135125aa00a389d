-- ===== src/Billing/Wallet.antt =====
-- The wallet's operations, services/billing-service/internal/usecase/wallet_usecase.go.
--
-- An event that the source publishes in a goroutine of its own is recorded at the place where the
-- goroutine starts; what the publisher answers is dropped there too. Errors keep the identity that
-- errors.Is sees through the wrapping. Logging is left out.
pub mod Effects
pub mod Calls
pub mod Funds
pub mod Books
pub mod Progress
pub mod Races
use cloudmini_reseller.Common.{
  ℕ, String, Bool, ◌*◌, Option, none, some, List, [], not, if◌then◌else◌,
}
use cloudmini_reseller.Common.Int.{ℤ, pos, neg, ◌+ℤ◌, ◌-ℤ◌, ltb_ℤ, leb_ℤ, is_zero}
use cloudmini_reseller.Billing.Entity.{
  Wallet, Transaction, TxnType, order_charge, hold, hold_confirm, hold_release, deposit,
  BillingEvent, wallet_empty, wallet_low, charged, deposit_completed, available_balance, unit,
  Description,
}
use cloudmini_reseller.Billing.Action.{
  World, Env, Error, Result, ok, err, Action, pure, ◌>>=◌, ◌>>◌, raise_if, new_uuid, unix_nano,
  publish, err_wallet_not_found, err_insufficient_funds, err_invalid_amount, hold_below_amount,
}
use cloudmini_reseller.Billing.Repo.{
  wallet_create, get_by_user_id, get_by_user_id_for_update, update_balance, transaction_create,
  run_in_tx,
}

abbrev pub low_balance_threshold : ℤ
low_balance_threshold = pos (5 * unit)

pub new_wallet : ℕ → ℕ → Wallet
new_wallet id user = record {
  id = id;
  user_id = user;
  balance = pos 0;
  hold_amount = pos 0;
  currency = "USD";
  low_balance_threshold = low_balance_threshold;
}

pub create_wallet : ℕ → Action Wallet
unfolding new_wallet
create_wallet user = do id ← new_uuid; wallet_create (new_wallet id user); pure (new_wallet id user)

unfoldable pub get_balance : ℕ → Action Wallet
get_balance user = get_by_user_id user

-- What the operations say of a transaction apart from the amounts.
pub record Reference : Type 0 where
  pub reference_type : String
  pub reference_id : Option ℕ
  pub description : Description

-- The row that every operation writes: new id, number from the clock, wallet as it was read.
new_transaction : Wallet → TxnType → ℤ → ℤ → ℕ → Reference → Option ℕ → ℕ → ℕ → Transaction
new_transaction x kind amount after user ref request id number = record {
  id = id;
  txn_number = number;
  wallet_id = x.id;
  user_id = user;
  kind = kind;
  amount = amount;
  balance_before = x.balance;
  balance_after = after;
  reference_type = ref.reference_type;
  reference_id = ref.reference_id;
  description = ref.description;
  request_id = request;
}

post : Wallet → TxnType → ℤ → ℤ → ℕ → Reference → Option ℕ → Action Transaction
unfolding new_transaction
post x kind amount after user ref request = do
  id ← new_uuid
  number ← unix_nano
  transaction_create (new_transaction x kind amount after user ref request id number)
  pure (new_transaction x kind amount after user ref request id number)

alert_low : ℕ → ℤ → Action (Unit {0})
alert_low user balance =
    if leb_ℤ balance low_balance_threshold
    then (if is_zero balance
        then publish (wallet_empty user)
        else publish (wallet_low user balance))
    else pure tt

-- The part of Deduct that follows the SELECT.
pub deduct_from : ℕ → ℤ → Reference → Option ℕ → Wallet → Action Transaction
unfolding post alert_low available_balance
deduct_from user amount ref request x = do
  raise_if (ltb_ℤ (available_balance x) amount) err_insufficient_funds
  update_balance x.id (x.balance -ℤ amount) x.hold_amount
  txn ← post x order_charge (neg amount) (x.balance -ℤ amount) user ref request
  alert_low user (x.balance -ℤ amount)
  pure txn

pub deduct : ℕ → ℤ → Reference → Option ℕ → Action Transaction
unfolding deduct_from run_in_tx
deduct user amount ref request = do
  raise_if (leb_ℤ amount (pos 0)) err_invalid_amount
  txn ← run_in_tx (get_by_user_id_for_update user >>= deduct_from user amount ref request)
  publish (charged user amount ref.reference_type)
  pure txn

pub hold_from : ℕ → ℤ → Reference → Wallet → Action Transaction
unfolding post available_balance
hold_from user amount ref x = do
  raise_if (ltb_ℤ (available_balance x) amount) err_insufficient_funds
  update_balance x.id x.balance (x.hold_amount +ℤ amount)
  post x hold amount x.balance user ref none

pub hold_funds : ℕ → ℤ → Reference → Action Transaction
unfolding hold_from run_in_tx
hold_funds user amount ref = do
  raise_if (leb_ℤ amount (pos 0)) err_invalid_amount
  run_in_tx (get_by_user_id_for_update user >>= hold_from user amount ref)

pub confirm_from : ℕ → ℤ → Reference → Wallet → Action Transaction
unfolding post
confirm_from user amount ref x = do
  raise_if (ltb_ℤ x.hold_amount amount) hold_below_amount
  update_balance x.id (x.balance -ℤ amount) (x.hold_amount -ℤ amount)
  post x hold_confirm (neg amount) (x.balance -ℤ amount) user ref none

pub confirm_hold : ℕ → ℤ → Reference → Action Transaction
unfolding confirm_from run_in_tx
confirm_hold user amount ref =
    run_in_tx (get_by_user_id_for_update user >>= confirm_from user amount ref)

-- `if newHold.IsNegative() { newHold = decimal.Zero }`
abbrev pub floor_zero : ℤ → ℤ
floor_zero a = if ltb_ℤ a (pos 0) then pos 0 else a

pub release_from : ℕ → ℤ → Reference → Wallet → Action Transaction
unfolding post
release_from user amount ref x = do
  update_balance x.id x.balance (floor_zero (x.hold_amount -ℤ amount))
  post x hold_release amount x.balance user ref none

pub release_hold : ℕ → ℤ → Reference → Action Transaction
unfolding release_from run_in_tx
release_hold user amount ref =
    run_in_tx (get_by_user_id_for_update user >>= release_from user amount ref)

-- The wallet of the user, made new if there is none; any other error is passed on.
find_or_create : ℕ → Action Wallet
unfolding create_wallet
find_or_create user env w =
    let (r, w') = get_by_user_id_for_update user env w in
    elim r [
      | ok x ↦ (ok x, w')
      | err e ↦ elim e [
        | err_wallet_not_found ↦ create_wallet user env w'
        | other ↦ (err other, w')
      ]
    ]

pub credit_to : ℕ → ℤ → Reference → Wallet → Action Transaction
unfolding post
credit_to user amount ref x = do
  update_balance x.id (x.balance +ℤ amount) x.hold_amount
  post x deposit amount (x.balance +ℤ amount) user ref none

pub credit : ℕ → ℤ → Reference → Action Transaction
unfolding credit_to find_or_create run_in_tx
credit user amount ref = do
  raise_if (leb_ℤ amount (pos 0)) err_invalid_amount
  txn ← run_in_tx (find_or_create user >>= credit_to user amount ref)
  publish (deposit_completed user amount)
  pure txn
