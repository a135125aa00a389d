-- ===== src/Resellers/Entity.antt =====
-- The rows of the resellers schema, services/reseller-service/internal/domain/entity.go.
--
-- A decimal is an integer in ten-thousandths, a UUID a number, a time an integer of seconds. Fields
-- that no operation of the model reads are left out.
use cloudmini_reseller.Common.{ℕ, String, Bool, Option, List}
use cloudmini_reseller.Common.Int.{ℤ}

pub data ResellerStatus : Type 0 where
  pending approved suspended : ResellerStatus

pub record ResellerAccount : Type 0 where
  pub id : ℕ
  pub user_id : ℕ
  pub company_name : String
  pub status : ResellerStatus
  pub credit_limit : ℤ
  pub commission_pct : ℤ
  pub approved_at : Option ℤ
  pub suspended_at : Option ℤ
  pub suspend_reason : Option String

pub record PricingOverride : Type 0 where
  pub id : ℕ
  pub reseller_id : ℕ
  pub product_id : ℕ
  pub product_type : String
  pub cost_price : ℤ
  pub floor_price : ℤ
  pub sell_price : ℤ
  pub is_active : Bool

pub record SubAccount : Type 0 where
  pub id : ℕ
  pub reseller_id : ℕ
  pub user_id : ℕ
  pub credit_limit : ℤ

pub record ResellerApiKey : Type 0 where
  pub id : ℕ
  pub reseller_id : ℕ
  pub name : String
  pub key_hash : String
  pub last_used_at : Option ℤ
  pub expires_at : Option ℤ
  pub revoked_at : Option ℤ

pub record ResellerWebhook : Type 0 where
  pub id : ℕ
  pub reseller_id : ℕ
  pub url : String
  pub secret : String
  pub events : List String
  pub is_active : Bool
