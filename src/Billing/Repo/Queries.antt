-- ===== src/Billing/Repo/Queries.antt =====
-- The page queries and the look-ups of billing_repo.go that no operation on money uses. The rows of
-- a table stand newest first, as ORDER BY created_at DESC returns them.
use cloudmini_reseller.Common.{
  ℕ, Bool, ◌&&◌, some, List, ◌∷◌, ◌==◌, if◌then◌else◌, length, select_where, find_where,
  update_where, any,
}
use cloudmini_reseller.Common.Int.{ℤ}
use cloudmini_reseller.Billing.Entity.{Wallet, Transaction, Payment, PricingRule}
use cloudmini_reseller.Billing.Action.{
  World, ok, Action, pure, ◌>>=◌, ◌>>◌, statement, database_failure, err_payment_not_found,
}
use cloudmini_reseller.Billing.Repo.{or_raise, same_id}
use cloudmini_reseller.Web.Pages.{limit_offset}

-- SELECT COUNT(*) and then the SELECT of a page.
abbrev counted_page : {A : Type 0} → (World → List A) → ℤ → ℕ → Action (List A × ℕ)
counted_page rows offset limit = do
  total ← statement >> λ env w. (ok (length (rows w)), w)
  page ← statement >> λ env w. or_raise (limit_offset limit offset (rows w)) database_failure env w
  pure (page, total)

unfoldable pub wallet_list : ℤ → ℕ → Action (List Wallet × ℕ)
unfolding or_raise
wallet_list = counted_page (λ w. w.wallets)

abbrev pub rows_of : ℕ → World → List Transaction
rows_of user w = select_where (λ (t : Transaction). t.user_id == user) w.transactions

unfoldable pub transaction_list_by_user : ℕ → ℤ → ℕ → Action (List Transaction × ℕ)
unfolding or_raise
transaction_list_by_user user = counted_page (rows_of user)

-- The source's error for a missing transaction has no name.
unfoldable pub transaction_get_by_id : ℕ → Action Transaction
unfolding or_raise
transaction_get_by_id id = do
  statement
  λ env w.
      or_raise (find_where (λ (t : Transaction). t.id == id) w.transactions) database_failure env w

unfoldable pub payment_get_by_id : ℕ → Action Payment
unfolding or_raise
payment_get_by_id id = do
  statement
  λ env w.
      or_raise (find_where (λ (p : Payment). p.id == id) w.payments) err_payment_not_found env w

abbrev is_rule : ℕ → PricingRule → Bool
is_rule id r = r.id == id

-- ON CONFLICT (id): the markup and the floor only, so a rule keeps what it applies to.
unfoldable pub upsert_rule : PricingRule → Action (Unit {0})
upsert_rule rule = do
  statement
  λ env w. (
    ok tt,
    record w {
      rules =
          if any (is_rule rule.id) w.rules
          then update_where (is_rule rule.id)
              (λ r. record r {
                markup_type = rule.markup_type;
                markup_value = rule.markup_value;
                min_price = rule.min_price;
              })
              w.rules
          else rule ∷ w.rules;
    },
  )

unfoldable pub rules_by_reseller : ℕ → Action (List PricingRule)
rules_by_reseller reseller = do
  statement
  λ env w. (
    ok (
        select_where (λ (r : PricingRule). same_id r.reseller_id (some reseller) && r.is_active)
          w.rules),
    w,
  )
