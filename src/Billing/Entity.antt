-- ===== src/Billing/Entity.antt =====
-- The rows of the billing schema, services/billing-service/internal/domain/entity.go.
--
-- A decimal is an integer number of ten-thousandths: the columns are DECIMAL(14,4), and sums,
-- differences and comparisons of such decimals are exact. A UUID is a number. Columns that only
-- record a time are left out.
use cloudmini_reseller.Common.{ℕ, String, Bool, Option}
use cloudmini_reseller.Common.Int.{ℤ, ◌-ℤ◌}

-- One currency unit, in ten-thousandths.
abbrev pub unit : ℕ
unit = 10_000

pub data TxnType : Type 0 where
  deposit order_charge order_refund hold hold_release hold_confirm adjustment : TxnType

pub record Wallet : Type 0 where
  pub id : ℕ
  pub user_id : ℕ
  pub balance : ℤ
  pub hold_amount : ℤ
  pub currency : String
  pub low_balance_threshold : ℤ

unfoldable pub available_balance : Wallet → ℤ
available_balance w = w.balance -ℤ w.hold_amount

-- A text that a caller gives, or "Deposit via <gateway> — PAY-<number>".
pub data Description : Type 0 where
  text : String → Description
  deposit_via : String → ℕ → Description

-- `txn_number` is the number n of "TXN-n", as `payment_number` below is that of "PAY-n".
pub record Transaction : Type 0 where
  pub id : ℕ
  pub txn_number : ℕ
  pub wallet_id : ℕ
  pub user_id : ℕ
  pub kind : TxnType
  pub amount : ℤ
  pub balance_before : ℤ
  pub balance_after : ℤ
  pub reference_type : String
  pub reference_id : Option ℕ
  pub description : Description
  pub request_id : Option ℕ

pub data PaymentStatus : Type 0 where
  pending processing completed failed refunded : PaymentStatus

-- `gateway_txn_id` is NULL until a status update writes it.
pub record Payment : Type 0 where
  pub id : ℕ
  pub payment_number : ℕ
  pub user_id : ℕ
  pub wallet_id : ℕ
  pub gateway : String
  pub gateway_txn_id : Option String
  pub amount : ℤ
  pub currency : String
  pub status : PaymentStatus

-- The markup types of the source are strings; any other than the two is `other_markup`.
pub data MarkupType : Type 0 where
  percentage fixed other_markup : MarkupType

pub record PricingRule : Type 0 where
  pub id : ℕ
  pub reseller_id : Option ℕ
  pub product_type : String
  pub product_id : Option ℕ
  pub markup_type : MarkupType
  pub markup_value : ℤ
  pub min_price : Option ℤ
  pub is_active : Bool

pub data BillingEvent : Type 0 where
  charged : ℕ → ℤ → String → BillingEvent
  deposit_completed : ℕ → ℤ → BillingEvent
  wallet_low : ℕ → ℤ → BillingEvent
  wallet_empty : ℕ → BillingEvent
