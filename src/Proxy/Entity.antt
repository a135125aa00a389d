-- ===== src/Proxy/Entity.antt =====
-- The rows of the proxy schema, services/proxy-service/internal/domain/entity.go.
--
-- A decimal is an integer in ten-thousandths, a UUID a number, a time an integer of
-- seconds in UTC. An id of
-- `provider_ids` is none where it is no UUID. Fields that no operation of the model reads are left
-- out.
use cloudmini_reseller.Common.{ℕ, String, Bool, Option, List}
use cloudmini_reseller.Common.Int.{ℤ}

pub data OrderStatus : Type 0 where
  pending processing active expired cancelled failed refunded suspended : OrderStatus

pub record Provider : Type 0 where
  pub id : ℕ
  pub is_active : Bool

pub record Product : Type 0 where
  pub id : ℕ
  pub provider_ids : List (Option ℕ)
  pub duration_days : Option ℤ
  pub base_cost : ℤ
  pub is_active : Bool

pub record Order : Type 0 where
  pub id : ℕ
  pub user_id : ℕ
  pub reseller_id : Option ℕ
  pub product_id : ℕ
  pub provider_id : ℕ
  pub status : OrderStatus
  pub quantity : ℤ
  pub unit_price : ℤ
  pub total_amount : ℤ
  pub custom_price : Option ℤ
  pub provider_order_id : String
  pub credentials : String
  pub activated_at : Option ℤ
  pub expires_at : Option ℤ
  pub custom_expires_at : Option ℤ
  pub admin_note : String
  pub idempotency_key : String
  pub request_id : Option ℕ

pub data EventType : Type 0 where
  order_created order_activated order_cancelled order_expired : EventType
  order_deleted order_renewed order_locked order_unlocked order_patched : EventType

pub data Message : Type 0 where
  order_failed : ℕ → String → Message
  order_fulfilled : ℕ → Message
  order_was_cancelled : ℕ → Message
