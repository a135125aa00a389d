-- ===== src/Billing/Tests.antt =====
-- Runs and witnesses of billing-service.
use cloudmini_reseller.Common.{
  ℕ, ◌+◌, ◌*◌, ◌/◌, ◌≤◌, ◌==◌, true, false, ◌≡◌, refl, none, some, List, [], ◌∷◌, All, arith, ◌↔◌,
}
use cloudmini_reseller.Common.Int.{ℤ, pos, pos_part, neg_part, sub_ℕ, ◌+ℤ◌, ◌-ℤ◌, ◌*ℤ◌, ◌≤ℤ◌}
use cloudmini_reseller.Billing.Entity.{
  Wallet, Transaction, Payment, PricingRule, percentage, pending, text, unit, available_balance,
  deposit,
}
use cloudmini_reseller.Billing.Action.{World, Env, ok, err, database_failure}
use cloudmini_reseller.Billing.Repo.{find_by_user, find_rule, get_rule}
use cloudmini_reseller.Billing.Wallet.{Reference, deduct}
use cloudmini_reseller.Billing.Wallet.Effects.{Effect}
use cloudmini_reseller.Billing.Wallet.Calls.{
  Call, deducts, perform, Allowed, balance_after, hold_after, perform-Effect,
}
use cloudmini_reseller.Billing.Wallet.Funds.{IsFunded, perform-IsFunded}
use cloudmini_reseller.Billing.Wallet.Books.{Balanced, IsExplained, perform-Balanced}
use cloudmini_reseller.Billing.Wallet.Progress.{IsOk, perform-IsOk, perform_found}
use cloudmini_reseller.Billing.Wallet.Races.{deduct_torn}
use cloudmini_reseller.Billing.Pricing.{calculate_price, apply_rule}
use cloudmini_reseller.Billing.Pricing.Decimal.{Rounding, fine, scale}
use cloudmini_reseller.Billing.Pricing.Rules.{
  best_rule, queries, price_by, calculate_price-best_rule,
}
use cloudmini_reseller.Billing.Payments.{CreateDepositRequest}
use cloudmini_reseller.Billing.Payments.Webhook.{
  Event, deposits, reports, handle_all, handle_all_unlinked,
}

abbrev pub up : Env
up = record { fails = λ _. false; uuids = λ n. n + 100; nanos = λ n. n }

-- The fourth statement, the INSERT, fails.
abbrev pub fourth_fails : Env
fourth_fails = record up { fails = λ n. n == 3 }

-- 20.00, of which 5.00 are held.
abbrev purse : Wallet
purse = record {
  id = 1;
  user_id = 7;
  balance = pos (20 * unit);
  hold_amount = pos (5 * unit);
  currency = "USD";
  low_balance_threshold = pos (5 * unit);
}

abbrev opening : Transaction
opening = record {
  id = 2;
  txn_number = 3;
  wallet_id = 1;
  user_id = 7;
  kind = deposit;
  amount = pos (20 * unit);
  balance_before = pos 0;
  balance_after = pos (20 * unit);
  reference_type = "payment";
  reference_id = none;
  description = text "";
  request_id = none;
}

abbrev paid : Payment
paid = record {
  id = 50;
  payment_number = 9;
  user_id = 7;
  wallet_id = 1;
  gateway = "stripe";
  gateway_txn_id = some "pi_1";
  amount = pos (10 * unit);
  currency = "USD";
  status = pending;
}

abbrev pub world : World
world = record {
  wallets = purse ∷ [];
  transactions = opening ∷ [];
  payments = paid ∷ [];
  rules = [];
  staged = none;
  statements = 0;
  draws = 0;
  events = [];
}

abbrev ref : Reference
ref = record { reference_type = "proxy_order"; reference_id = some 4; description = text "order" }

abbrev charge : Call
charge = record { kind = deducts none; user = 7; amount = pos (15 * unit); ref = ref }

purse_found : find_by_user 7 world.wallets ≡ some purse
unfolding find_by_user
purse_found = refl

perform-Effect_example :
    Effect
      (Allowed charge.kind charge.amount purse)
      purse
      (balance_after charge.kind charge.amount purse)
      (hold_after charge.kind charge.amount purse)
      fourth_fails
      world
      (perform charge fourth_fails world)
perform-Effect_example = perform-Effect charge fourth_fails world purse_found

perform-IsFunded_example : All IsFunded (perform charge fourth_fails world).1.wallets
perform-IsFunded_example = perform-IsFunded charge fourth_fails world tt (ground arith)

world-Balanced : Balanced world
unfolding ◌+ℤ◌ ◌-ℤ◌
world-Balanced = (refl, tt)

perform-Balanced_example : Balanced (perform charge up world).1
perform-Balanced_example =
    perform-Balanced charge up world (λ _. refl) (ground arith) world-Balanced

perform-IsOk_example : Allowed charge.kind charge.amount purse ↔ IsOk (perform charge up world).0
perform-IsOk_example = perform-IsOk charge up world purse (λ _. refl) purse_found (omega arith) tt

covered :
    (amount : ℕ)
    → 1 ≤ amount
    → amount ≤ 15 * unit
    → (pos 1 ≤ℤ pos amount) × (pos amount ≤ℤ available_balance purse)
unfolding available_balance ◌-ℤ◌
covered amount h g = ground arith

perform_found_example :
    find_by_user 7 (perform charge up world).1.wallets
    ≡ some (record purse {
      balance = balance_after charge.kind charge.amount purse;
      hold_amount = hold_after charge.kind charge.amount purse;
    })
perform_found_example =
    perform_found charge up world purse purse_found
      (perform-IsOk_example.0 (covered (15 * unit) (omega arith) (omega arith)))

deduct_torn_example :
    let (r, w') = deduct 7 (pos 9) ref none fourth_fails world in
    let x' : Wallet = record purse { balance = purse.balance -ℤ pos 9 } in
    (r ≡ err database_failure)
    × (find_by_user 7 w'.wallets ≡ some x')
    × (w'.transactions ≡ world.transactions)
    × ¬ IsExplained w'.transactions x'
deduct_torn_example =
    deduct_torn 7 (pos 9) ref none fourth_fails world purse purse_found (omega arith)
      (covered 9 (omega arith) (omega arith)) (refl, refl, refl) refl world-Balanced.0

-- Rounding half away from zero.
abbrev half_away : ℤ → ℤ
half_away a = sub_ℕ ((pos_part a + 500_000) / scale) ((neg_part a + 500_000) / scale)

pub half_away_monotone : (a b : ℤ) → a ≤ℤ b → half_away a ≤ℤ half_away b
half_away_monotone a b h = ground arith

pub half_away_exact : (a : ℤ) → half_away (fine a) ≡ a
unfolding ◌*ℤ◌
half_away_exact a = ground arith

abbrev pub rounding : Rounding
rounding = record { round4 = half_away; monotone = half_away_monotone; exact = half_away_exact }

-- 12.5 % on top, and no less than 3.00.
abbrev rule : PricingRule
rule = record {
  id = 1;
  reseller_id = some 4;
  product_type = "proxy";
  product_id = none;
  markup_type = percentage;
  markup_value = pos 125_000;
  min_price = some (pos (3 * unit));
  is_active = true;
}

abbrev priced : World
priced = record world { rules = rule ∷ [] }

price_run :
    (calculate_price rounding (pos 100_001) "proxy" 8 (some 4) up priced).0 ≡ ok (pos 112_501)
unfolding calculate_price get_rule apply_rule find_rule ◌+ℤ◌ ◌*ℤ◌
price_run = refl

calculate_price-best_rule_example :
    (calculate_price rounding (pos 10) "proxy" 8 (some 4) up priced).0
    ≡ ok (price_by rounding (pos 10) (best_rule "proxy" priced.rules (queries 8 (some 4))))
calculate_price-best_rule_example =
    calculate_price-best_rule rounding (pos 10) "proxy" 8 (some 4) up priced (λ _. refl)

abbrev request : CreateDepositRequest
request = record {
  user_id = 7;
  wallet_id = 1;
  gateway = "stripe";
  amount = pos (10 * unit);
  currency = "";
}

abbrev history : List Event
history = deposits "https://x" request ∷ reports "stripe" "pi_1" (pos 1) ∷ []

abbrev unpaid : World
unpaid = record world { payments = [] }

handle_all_unlinked_example :
    let (credited, w') = handle_all history up unpaid in
    All (λ b. b ≡ false) credited
    × (w'.wallets ≡ unpaid.wallets)
    × (w'.transactions ≡ unpaid.transactions)
handle_all_unlinked_example = handle_all_unlinked history up unpaid tt
