-- ===== src/Billing/Http/Bodies.antt =====
-- The bodies that the handlers of billing-service decode. A pointer of the source is an Option.
use cloudmini_reseller.Common.{String, Option, some}
use cloudmini_reseller.Common.Int.{ℤ}
use cloudmini_reseller.Web.{Libraries}
use cloudmini_reseller.Web.Json.{
  Fields, text_field, float_field, decimal_field, optional_field, ◌>>=◌,
}

pub record DepositBody : Type 0 where
  pub gateway : String
  pub amount : ℤ
  pub currency : String

abbrev pub deposit_body : Fields → Option DepositBody
deposit_body fields = do
  gateway ← text_field "gateway" fields
  amount ← float_field "amount" fields
  currency ← text_field "currency" fields
  some (record { gateway = gateway; amount = amount; currency = currency })

pub record AdjustBody : Type 0 where
  pub user_id : String
  pub amount : ℤ
  pub description : String

abbrev pub adjust_body : Fields → Option AdjustBody
adjust_body fields = do
  user ← text_field "user_id" fields
  amount ← float_field "amount" fields
  description ← text_field "description" fields
  some (record { user_id = user; amount = amount; description = description })

-- InternalHold has no field for the description, and passes the empty one on.
pub record HoldBody : Type 0 where
  pub user_id : String
  pub amount : ℤ
  pub reference_type : String
  pub reference_id : String
  pub description : String

pub record PriceBody : Type 0 where
  pub base_cost : ℤ
  pub product_type : String
  pub product_id : String
  pub reseller_id : Option String

module _ (lib : Libraries) where
  abbrev pub hold_body : Fields → Option HoldBody
  hold_body fields = do
    user ← text_field "user_id" fields
    amount ← decimal_field lib.parse_decimal "amount" fields
    kind ← text_field "reference_type" fields
    id ← text_field "reference_id" fields
    some (record {
      user_id = user;
      amount = amount;
      reference_type = kind;
      reference_id = id;
      description = "";
    })

  abbrev pub confirm_body : Fields → Option HoldBody
  confirm_body fields = do
    req ← hold_body fields
    description ← text_field "description" fields
    some (record req { description = description })

  abbrev pub price_body : Fields → Option PriceBody
  price_body fields = do
    base ← decimal_field lib.parse_decimal "base_cost" fields
    kind ← text_field "product_type" fields
    product ← text_field "product_id" fields
    reseller ← optional_field "reseller_id" fields
    some (record {
      base_cost = base;
      product_type = kind;
      product_id = product;
      reseller_id = reseller;
    })
