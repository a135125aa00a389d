-- ===== src/Billing/Pricing/Rules.antt =====
-- Which rule sets the price, and the bounds that the price keeps.
use cloudmini_reseller.Common.{
  ℕ, suc, sym, String, true, ◌≡◌, Option, none, some, List, [], ◌∷◌, arith,
}
use mathlib.Core.Path.{subst}
use cloudmini_reseller.Common.Int.{ℤ, pos, negsuc, ◌≤ℤ◌, +ℤ_pos, *ℤ_pos}
use cloudmini_reseller.Billing.Entity.{PricingRule, MarkupType, percentage, fixed, other_markup}
use cloudmini_reseller.Billing.Action.{World, Env, ok}
use cloudmini_reseller.Billing.Repo.{find_rule, get_rule}
use cloudmini_reseller.Billing.Pricing.{marked_up, with_floor, apply_rule, calculate_price}
use cloudmini_reseller.Billing.Pricing.Decimal.{Rounding, fine}
use cloudmini_reseller.Billing.Wallet.Books.{IsReliable}

-- The queries from the most to the least specific: for the reseller and the product, for the
-- reseller and the type, for the product, for the type.
abbrev pub queries : ℕ → Option ℕ → List (Option ℕ × Option ℕ)
queries product none = (none, some product) ∷ (none, none) ∷ []
queries product (some reseller) =
    (some reseller, some product) ∷ (some reseller, none) ∷ (none, some product) ∷ (none, none) ∷ []

abbrev pub or_else {ℓ} : {A : Type ℓ} → Option A → Option A → Option A
or_else (some a) o = some a
or_else none o = o

-- The first rule that answers one of the queries.
abbrev pub best_rule : String → List PricingRule → List (Option ℕ × Option ℕ) → Option PricingRule
best_rule kind rules [] = none
best_rule kind rules ((reseller, product) ∷ qs) =
    or_else (find_rule reseller kind product rules) (best_rule kind rules qs)

le_ℤ_trans : (a b c : ℤ) → a ≤ℤ b → b ≤ℤ c → a ≤ℤ c
le_ℤ_trans a b c h g = omega arith

module _ (rounding : Rounding) where
  open rounding use {round4, monotone, exact}

  abbrev pub price_by : ℤ → Option PricingRule → ℤ
  price_by base none = base
  price_by base (some rule) = apply_rule rounding base rule

  -- While the database answers, the price is set by the most specific active rule, and is the base
  -- cost if there is none.
  pub calculate_price-best_rule :
      (base : ℤ) (kind : String) (product : ℕ) (reseller : Option ℕ) (env : Env) (w : World)
      → IsReliable env
      → (calculate_price rounding base kind product reseller env w).0
        ≡ ok (price_by base (best_rule kind w.rules (queries product reseller)))
  unfolding calculate_price get_rule
  calculate_price-best_rule base kind product none env w up =
      ground (arith, up w.statements, up (suc w.statements))
  calculate_price-best_rule base kind product (some r) env w up = ground (
    arith,
    up w.statements,
    up (suc w.statements),
    up (suc (suc w.statements)),
    up (suc (suc (suc w.statements))),
  )

  -- When every query fails, the price is the base cost, whatever rules are set, and no error shows.
  calculate_price_down :
      (base : ℤ) (kind : String) (product : ℕ) (reseller : Option ℕ) (env : Env) (w : World)
      → ((n : ℕ) → env.fails n ≡ true)
      → (calculate_price rounding base kind product reseller env w).0 ≡ ok base
  unfolding calculate_price get_rule
  calculate_price_down base kind product none env w down =
      ground (arith, down w.statements, down (suc w.statements))
  calculate_price_down base kind product (some r) env w down = ground (
    arith,
    down w.statements,
    down (suc w.statements),
    down (suc (suc w.statements)),
    down (suc (suc (suc w.statements))),
  )

  with_floor-ge : (m price : ℤ) → fine m ≤ℤ with_floor (some m) price
  unfolding with_floor
  with_floor-ge m price = ground arith

  round4-with_floor : (o : Option ℤ) (m price : ℤ) → o ≡ some m → m ≤ℤ round4 (with_floor o price)
  round4-with_floor o m price e =
      subst (λ p. m ≤ℤ round4 (with_floor p price)) (sym e)
        (subst (λ k. k ≤ℤ round4 (with_floor (some m) price)) (exact m)
          (monotone (fine m) (with_floor (some m) price) (with_floor-ge m price)))

  -- A price by a rule with a minimum is at least the minimum.
  apply_rule-ge-min_price :
      (base : ℤ) (rule : PricingRule) (m : ℤ)
      → rule.min_price ≡ some m
      → m ≤ℤ apply_rule rounding base rule
  unfolding apply_rule
  apply_rule-ge-min_price base rule m e = round4-with_floor rule.min_price m _ e

  le-with_floor : (o : Option ℤ) (price : ℤ) → price ≤ℤ with_floor o price
  unfolding with_floor
  le-with_floor none price = omega arith
  le-with_floor (some m) price = ground arith

  fine-le-marked_up :
      (k : MarkupType) (markup base : ℤ)
      → pos 0 ≤ℤ markup
      → pos 0 ≤ℤ base
      → fine base ≤ℤ marked_up k markup base
  unfolding marked_up
  fine-le-marked_up percentage (pos k) (pos b) h g = simp (+ℤ_pos, *ℤ_pos) (omega arith)
  fine-le-marked_up fixed (pos k) (pos b) h g = simp (+ℤ_pos, *ℤ_pos) (omega arith)
  fine-le-marked_up other_markup markup base h g = omega arith
  fine-le-marked_up _ (negsuc k) b h g = absurd (omega arith)
  fine-le-marked_up _ (pos k) (negsuc b) h g = absurd (omega arith)

  -- With a markup and a base cost of at least 0, no rule sells below the base cost.
  pub base-le-apply_rule :
      (base : ℤ) (rule : PricingRule)
      → pos 0 ≤ℤ rule.markup_value
      → pos 0 ≤ℤ base
      → base ≤ℤ apply_rule rounding base rule
  unfolding apply_rule
  base-le-apply_rule base rule h g =
      let raw = marked_up rule.markup_type rule.markup_value base in
      let price = with_floor rule.min_price raw in
      subst (λ k. k ≤ℤ round4 price) (exact base)
        (monotone (fine base) price (
          le_ℤ_trans (fine base) raw price
            (fine-le-marked_up rule.markup_type rule.markup_value base h g)
            (le-with_floor rule.min_price raw)))
