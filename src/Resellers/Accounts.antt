-- ===== src/Resellers/Accounts.antt =====
-- Accounts, prices and sub-accounts of resellers,
-- services/reseller-service/internal/usecase/reseller_usecase.go.
pub mod Prices
use cloudmini_reseller.Common.{
  ℕ, String, Bool, true, false, not, ◌&&◌, ◌==◌, Option, none, some, List, [], ◌∷◌, if◌then◌else◌,
}
use cloudmini_reseller.Common.Int.{ℤ, pos, ◌*ℤ◌, ltb_ℤ}
use cloudmini_reseller.Common.Action.{
  Outcome, ok, err, pure, raise, ◌>>=◌, ◌>>◌, raise_if, attempt, or_else,
}
use cloudmini_reseller.Resellers.Entity.{
  ResellerStatus, pending, approved, suspended, ResellerAccount, PricingOverride, SubAccount,
}
use cloudmini_reseller.Resellers.World.{
  Env, World, Error, Action, new_uuid, publish, reseller_created, reseller_approved,
  reseller_suspended, pricing_updated, err_reseller_not_approved, err_reseller_already_exists,
  err_sub_account_not_found, err_price_below_cost, err_price_below_floor, err_price_above_cap,
  err_forbidden,
}
use cloudmini_reseller.Resellers.Repo.{
  reseller_create, reseller_get_by_id, reseller_get_by_user_id, update_status, upsert, sub_create,
  sub_get_by_user_id, update_credit_limit,
}

pub record CreateResellerRequest : Type 0 where
  pub user_id : ℕ
  pub company_name : String
  pub commission_pct : ℤ

abbrev pub new_reseller : CreateResellerRequest → ℕ → ResellerAccount
new_reseller req id = record {
  id = id;
  user_id = req.user_id;
  company_name = req.company_name;
  status = pending;
  credit_limit = pos 0;
  commission_pct = req.commission_pct;
  approved_at = none;
  suspended_at = none;
  suspend_reason = none;
}

-- Whether the look-up finds an account; its error counts as none.
abbrev pub is_known : ℕ → Action Bool
is_known user env w =
    let (r, w') = reseller_get_by_user_id user env w in
    (elim r [ ok a ↦ ok true | err e ↦ ok false ], w')

unfoldable pub create_reseller : CreateResellerRequest → Action ResellerAccount
create_reseller req = do
  known ← is_known req.user_id
  raise_if known err_reseller_already_exists
  id ← new_uuid
  reseller_create (new_reseller req id)
  publish (reseller_created id)
  pure (new_reseller req id)

abbrev pub is_approved : ResellerStatus → Bool
is_approved approved = true
is_approved _ = false

abbrev pub is_suspended : ResellerStatus → Bool
is_suspended suspended = true
is_suspended _ = false

unfoldable pub approve : ℕ → ResellerAccount → Action ResellerAccount
approve id a = do
  λ env. update_status id approved (some env.now) none "" env
  publish (reseller_approved id)
  λ env. pure (record a { status = approved; approved_at = some env.now }) env

unfoldable pub approve_reseller : ℕ → Action ResellerAccount
approve_reseller id = do
  a ← reseller_get_by_id id
  if is_approved a.status then pure a else approve id a

unfoldable pub suspend : ℕ → String → Action (Unit {0})
suspend id reason = do
  λ env. update_status id suspended none (some env.now) reason env
  publish (reseller_suspended id reason)

unfoldable pub suspend_reseller : ℕ → String → Action (Unit {0})
suspend_reseller id reason = do
  a ← reseller_get_by_id id
  if is_suspended a.status then pure tt else suspend id reason

pub record SetPricingRequest : Type 0 where
  pub reseller_id : ℕ
  pub product_id : ℕ
  pub product_type : String
  pub cost_price : ℤ
  pub floor_price : ℤ
  pub sell_price : ℤ

abbrev pub new_pricing : SetPricingRequest → ℕ → PricingOverride
new_pricing req id = record {
  id = id;
  reseller_id = req.reseller_id;
  product_id = req.product_id;
  product_type = req.product_type;
  cost_price = req.cost_price;
  floor_price = req.floor_price;
  sell_price = req.sell_price;
  is_active = true;
}

unfoldable pub set_pricing : SetPricingRequest → Action PricingOverride
set_pricing req = do
  raise_if (ltb_ℤ req.sell_price req.cost_price) err_price_below_cost
  raise_if (ltb_ℤ (pos 0) req.floor_price && ltb_ℤ req.sell_price req.floor_price)
      err_price_below_floor
  raise_if (ltb_ℤ (req.cost_price *ℤ pos 100) req.sell_price) err_price_above_cap
  id ← new_uuid
  upsert (new_pricing req id)
  publish (pricing_updated req.reseller_id req.product_id req.sell_price)
  pure (new_pricing req id)

pub record CreateSubAccountRequest : Type 0 where
  pub reseller_id : ℕ
  pub user_id : ℕ
  pub credit_limit : ℤ

abbrev pub new_sub : CreateSubAccountRequest → ℕ → SubAccount
new_sub req id = record {
  id = id;
  reseller_id = req.reseller_id;
  user_id = req.user_id;
  credit_limit = req.credit_limit;
}

unfoldable pub create_sub_account : CreateSubAccountRequest → Action SubAccount
create_sub_account req = do
  a ← reseller_get_by_id req.reseller_id
  raise_if (not (is_approved a.status)) err_reseller_not_approved
  id ← new_uuid
  sub_create (new_sub req id)
  pure (new_sub req id)

-- The sub-account is looked up by its user.
unfoldable pub set_credit_limit : ℕ → ℕ → ℤ → Action (Unit {0})
set_credit_limit user reseller limit = do
  s ← or_else (sub_get_by_user_id user) (pure tt) err_sub_account_not_found
  raise_if (not (s.reseller_id == reseller)) err_forbidden
  update_credit_limit s.id limit
