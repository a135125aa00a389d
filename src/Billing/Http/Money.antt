-- ===== src/Billing/Http/Money.antt =====
-- What requests to billing-service may do to wallets.
use mathlib.Core.Path.{subst}
use cloudmini_reseller.Common.{
  Bool, true, false, ℕ, String, ◌≡◌, ◌⊎◌, inl, inr, refl, Option, none, some, arith,
}
use cloudmini_reseller.Common.Int.{ℤ}
use cloudmini_reseller.Common.Action.{ok}
use cloudmini_reseller.Common.Keeps.{Keeps, Keeps-bind, Keeps-then, Keeps-pure}
use cloudmini_reseller.Billing.Action.{World, Env, Action}
use cloudmini_reseller.Billing.Wallet.{get_balance}
use cloudmini_reseller.Billing.Repo.{get_by_user_id, payment_create, get_rule}
use cloudmini_reseller.Billing.Repo.Queries.{transaction_list_by_user}
use cloudmini_reseller.Billing.Payments.{CreateDepositRequest, create_deposit}
use cloudmini_reseller.Billing.Pricing.Decimal.{Rounding}
use cloudmini_reseller.Billing.Pricing.{calculate_price}
use cloudmini_reseller.Web.{
  Claims, Libraries, signed_in, with_role, admit, admins, Keeps-demand, Keeps-reject_if,
  finish-keeps, run_guarded,
}
use cloudmini_reseller.Web.Pages.{PageQuery}
use cloudmini_reseller.Web.Guards.{NotAdmin, not_admin}
use cloudmini_reseller.Web.Json.{Fields}
use cloudmini_reseller.Billing.Http.{
  Data, Endpoint, Request, internal_confirm_hold, internal_release_hold, get_wallet,
  list_transactions, create_deposit as deposit_endpoint, stripe_webhook, admin_get_user_wallet,
  admin_adjust_balance, internal_hold, internal_calculate_price, try, post_price, post_deposit,
  list_page, show_wallet, get_user_wallet, handle, serve, guard_of,
}
use cloudmini_reseller.Billing.Http.Bodies.{PriceBody}

module _ {Q : World → Type 0} where
  pub Keeps-try :
      {A : Type 0} (m : Action A)
      → ((env : Env) (w : World) → Q w → Q (m env w).1)
      → Keeps Q (try m)
  Keeps-try m km = record { at = λ env w q. km env w q }

-- Which parts of the world a statement may change: only their number.
abbrev pub SameMoney : World → World → Type 0
SameMoney w w' =
    (w'.wallets ≡ w.wallets) × (w'.transactions ≡ w.transactions) × (w'.staged ≡ w.staged)

get_balance-SameMoney : (user : ℕ) (env : Env) (w : World) → SameMoney w (get_balance user env w).1
unfolding get_balance get_by_user_id
get_balance-SameMoney user env w = ground arith

list-SameMoney :
    (user : ℕ) (offset : ℤ) (limit : ℕ) (env : Env) (w : World)
    → SameMoney w (transaction_list_by_user user offset limit env w).1
unfolding transaction_list_by_user
list-SameMoney user offset limit env w = ground arith

create_deposit-SameMoney :
    (base : String) (req : CreateDepositRequest) (env : Env) (w : World)
    → SameMoney w (create_deposit base req env w).1
unfolding create_deposit payment_create
create_deposit-SameMoney base req env w = ground arith

get_rule-SameMoney :
    (r : Option ℕ) (k : String) (p : Option ℕ) (env : Env) (w : World)
    → SameMoney w (get_rule r k p env w).1
unfolding get_rule
get_rule-SameMoney r k p env w = ground arith

calculate_price-SameMoney :
    (rounding : Rounding) (base : ℤ) (kind : String) (product : ℕ) (reseller : Option ℕ) (env : Env)
    (w : World)
    → SameMoney w (calculate_price rounding base kind product reseller env w).1
unfolding calculate_price get_rule
calculate_price-SameMoney rounding base kind product none env w = ground arith
calculate_price-SameMoney rounding base kind product (some r) env w = ground arith

-- An invariant of the money in the world.
abbrev IsAboutMoney : (World → Type 0) → Type 0
IsAboutMoney Q = (w w' : World) → SameMoney w w' → Q w → Q w'

module _ {Q : World → Type 0} (money : IsAboutMoney Q) where
  get_balance-Keeps : (user : ℕ) → Keeps Q (try (get_balance user))
  get_balance-Keeps user =
      Keeps-try (get_balance user) (λ env w. money w _ (get_balance-SameMoney user env w))

  list-Keeps :
      (user : ℕ) (offset : ℤ) (limit : ℕ)
      → Keeps Q (try (transaction_list_by_user user offset limit))
  list-Keeps user offset limit =
      Keeps-try (transaction_list_by_user user offset limit)
        (λ env w. money w _ (list-SameMoney user offset limit env w))

  create_deposit-Keeps :
      (base : String) (req : CreateDepositRequest) → Keeps Q (try (create_deposit base req))
  create_deposit-Keeps base req =
      Keeps-try (create_deposit base req)
        (λ env w. money w _ (create_deposit-SameMoney base req env w))

  calculate_price-Keeps :
      (rounding : Rounding) (base : ℤ) (kind : String) (product : ℕ) (reseller : Option ℕ)
      → Keeps Q (try (calculate_price rounding base kind product reseller))
  calculate_price-Keeps rounding base kind product reseller =
      Keeps-try (calculate_price rounding base kind product reseller)
        (λ env w. money w _ (calculate_price-SameMoney rounding base kind product reseller env w))

  ruleset quiet = (
    Keeps-bind, Keeps-then, Keeps-pure, Keeps-demand, Keeps-reject_if, get_balance-Keeps,
    list-Keeps, create_deposit-Keeps, calculate_price-Keeps,
  )

  pub show_wallet-Keeps : (user : ℕ) → Keeps Q (show_wallet user)
  unfolding show_wallet
  show_wallet-Keeps user = search quiet

  pub get_user_wallet-Keeps : (lib : Libraries) (user : String) → Keeps Q (get_user_wallet lib user)
  unfolding get_user_wallet
  get_user_wallet-Keeps lib user = search (quiet, show_wallet-Keeps)

  pub list_page-Keeps : (user : ℕ) (q : PageQuery) → Keeps Q (list_page user q)
  unfolding list_page
  list_page-Keeps user q = search quiet

  pub post_deposit-Keeps :
      (lib : Libraries) (base : String) (claims : Claims) (body : Option Fields)
      → Keeps Q (post_deposit lib base claims body)
  unfolding post_deposit
  post_deposit-Keeps lib base claims body = search quiet depth 12

  pub post_price-Keeps :
      (lib : Libraries) (rounding : Rounding) (decoded : Option PriceBody)
      → Keeps Q (post_price lib rounding decoded)
  unfolding post_price
  post_price-Keeps lib rounding decoded = search quiet

-- The endpoints for other services and for Stripe, which are not meant to ask for a token.
abbrev pub is_open : Endpoint → Bool
is_open (stripe_webhook payload) = true
is_open internal_hold = true
is_open internal_confirm_hold = true
is_open internal_release_hold = true
is_open internal_calculate_price = true
is_open _ = false

module _ (lib : Libraries) (rounding : Rounding) (base : String) (w : World) where
  abbrev Same : World → Type 0
  Same = SameMoney w

  Same-IsAboutMoney : IsAboutMoney Same
  Same-IsAboutMoney u v same kept = ground arith

  handle-Same :
      (e : Endpoint) (claims : Claims) (body : Option Fields)
      → guard_of e ≡ signed_in
      → Keeps Same (handle lib rounding base e claims body)
  unfolding handle guard_of
  handle-Same get_wallet claims body g = show_wallet-Keeps Same-IsAboutMoney _
  handle-Same (list_transactions q) claims body g = list_page-Keeps Same-IsAboutMoney _ q
  handle-Same deposit_endpoint claims body g =
      post_deposit-Keeps Same-IsAboutMoney lib base claims body
  handle-Same (stripe_webhook payload) claims body g = cc
  handle-Same (admin_get_user_wallet user) claims body g = cc
  handle-Same admin_adjust_balance claims body g = cc
  handle-Same internal_hold claims body g = cc
  handle-Same internal_confirm_hold claims body g = cc
  handle-Same internal_release_hold claims body g = cc
  handle-Same internal_calculate_price claims body g = cc

  -- The guard of the other endpoints is one of the two.
  guarded :
      (e : Endpoint)
      → is_open e ≡ false
      → (guard_of e ≡ signed_in) ⊎ (guard_of e ≡ with_role admins)
  unfolding guard_of
  guarded get_wallet n = inl refl
  guarded (list_transactions q) n = inl refl
  guarded deposit_endpoint n = inl refl
  guarded (admin_get_user_wallet user) n = inr refl
  guarded admin_adjust_balance n = inr refl
  guarded (stripe_webhook payload) n = cc
  guarded internal_hold n = cc
  guarded internal_confirm_hold n = cc
  guarded internal_release_hold n = cc
  guarded internal_calculate_price n = cc

  -- A request without the valid token of an administrator to any endpoint but the webhook of Stripe
  -- and the four internal ones changes no wallet and adds no transaction, whatever fails.
  pub serve_user-SameMoney :
      (req : Request) (env : Env)
      → is_open req.endpoint ≡ false
      → NotAdmin lib req.authorization
      → SameMoney w (serve lib rounding base req env w).1
  unfolding serve run_guarded
  serve_user-SameMoney req env closed no_admin =
      finish-keeps {Q = Same} (admit lib (guard_of req.endpoint) req.authorization)
        (λ claims. handle lib rounding base req.endpoint claims req.body)
        (λ claims passed. elim (guarded req.endpoint closed) [
          | inl signed ↦ handle-Same req.endpoint claims req.body signed
          | inr role ↦ absurd (
              not_admin lib req.authorization claims no_admin
                (subst (λ g. admit {P = Data} lib g req.authorization ≡ ok claims) role passed))
        ])
        env w (refl, refl, refl)
