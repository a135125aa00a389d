-- ===== src/Billing/Pricing.antt =====
-- The pricing engine, services/billing-service/internal/usecase/pricing_usecase.go (PricingEngine).
--
-- Within a computation a price is an integer number of 10^-10: a base cost and a markup have four
-- decimals each, and a percentage divides by 100 more. The final Round(4) is the decimal library's,
-- and is a parameter.
pub mod Decimal
pub mod Rules
use cloudmini_reseller.Common.{
  ℕ, String, ◌*◌, Option, none, some, List, [], ◌∷◌, map, if◌then◌else◌,
}
use cloudmini_reseller.Common.Int.{ℤ, pos, ◌+ℤ◌, ◌*ℤ◌, ltb_ℤ}
use cloudmini_reseller.Billing.Entity.{PricingRule, MarkupType, percentage, fixed, other_markup}
use cloudmini_reseller.Billing.Action.{World, Env, Error, Result, ok, err, Action, pure, ◌>>=◌}
use cloudmini_reseller.Billing.Repo.{get_rule}
use Decimal.{Rounding, fine, scale}

-- The switch of applyRule. For a percentage: base * (1 + markup_value / 100).
pub marked_up : MarkupType → ℤ → ℤ → ℤ
marked_up percentage markup base = base *ℤ (pos scale +ℤ markup)
marked_up fixed markup base = fine (base +ℤ markup)
marked_up other_markup markup base = fine base

pub with_floor : Option ℤ → ℤ → ℤ
with_floor none price = price
with_floor (some m) price = if ltb_ℤ price (fine m) then fine m else price

module _ (rounding : Rounding) where
  open rounding use {round4}

  unfoldable pub apply_rule : ℤ → PricingRule → ℤ
  unfolding marked_up with_floor
  apply_rule base rule =
      round4 (with_floor rule.min_price (marked_up rule.markup_type rule.markup_value base))

  -- `rule, err := GetRule(…); if err == nil { return applyRule(…) }`, and what follows it.
  or_next : ℤ → Action PricingRule → Action ℤ → Action ℤ
  unfolding apply_rule
  or_next base query next env w =
      let (r, w') = query env w in
      elim r [ ok rule ↦ (ok (apply_rule base rule), w') | err e ↦ next env w' ]

  global_price : ℤ → String → ℕ → Action ℤ
  unfolding or_next
  global_price base kind product =
      or_next base (get_rule none kind (some product))
        (or_next base (get_rule none kind none) (pure base))

  unfoldable pub calculate_price : ℤ → String → ℕ → Option ℕ → Action ℤ
  unfolding global_price
  calculate_price base kind product none = global_price base kind product
  calculate_price base kind product (some reseller) =
      or_next base (get_rule (some reseller) kind (some product))
        (or_next base (get_rule (some reseller) kind none) (global_price base kind product))
