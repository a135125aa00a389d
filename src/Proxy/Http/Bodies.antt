-- ===== src/Proxy/Http/Bodies.antt =====
-- The bodies that the handlers of proxy-service decode, less the fields that the rows of the model
-- have no column for.
use cloudmini_reseller.Common.{String, Bool, true, Option, some, List}
use cloudmini_reseller.Common.Int.{ℤ}
use cloudmini_reseller.Web.Json.{
  Fields, text_field, int_field, bool_field, optional_field, optional_int_field, texts_field, ◌>>=◌,
}

pub record OrderBody : Type 0 where
  pub product_id : String
  pub quantity : ℤ
  pub idempotency_key : String

abbrev pub order_body : Fields → Option OrderBody
order_body fields = do
  product ← text_field "product_id" fields
  quantity ← int_field "quantity" fields
  key ← text_field "idempotency_key" fields
  some (record { product_id = product; quantity = quantity; idempotency_key = key })

pub record PatchBody : Type 0 where
  pub custom_price : Option String
  pub custom_expires_at : Option String
  pub admin_note : String

abbrev pub patch_body : Fields → Option PatchBody
patch_body fields = do
  price ← optional_field "custom_price" fields
  expiry ← optional_field "custom_expires_at" fields
  note ← text_field "admin_note" fields
  some (record { custom_price = price; custom_expires_at = expiry; admin_note = note })

pub record ProductBody : Type 0 where
  pub provider_ids : List String
  pub duration_days : Option ℤ
  pub base_cost : String

abbrev pub product_body : Fields → Option ProductBody
product_body fields = do
  providers ← texts_field "provider_ids" fields
  days ← optional_int_field "duration_days" fields
  cost ← text_field "base_cost" fields
  some (record { provider_ids = providers; duration_days = days; base_cost = cost })

pub record ProviderBody : Type 0 where
  pub name : String
  pub adapter_type : String
  pub is_active : Bool

-- The body of a new provider, which has no is_active.
abbrev pub provider_body : Fields → Option ProviderBody
provider_body fields = do
  name ← text_field "name" fields
  kind ← text_field "adapter_type" fields
  some (record { name = name; adapter_type = kind; is_active = true })

abbrev pub provider_update_body : Fields → Option ProviderBody
provider_update_body fields = do
  req ← provider_body fields
  active ← bool_field "is_active" fields
  some (record req { is_active = active })

pub record ActionBody : Type 0 where
  pub action : String
  pub reason : String

abbrev pub action_body : Fields → Option ActionBody
action_body fields = do
  action ← text_field "action" fields
  reason ← text_field "reason" fields
  some (record { action = action; reason = reason })
