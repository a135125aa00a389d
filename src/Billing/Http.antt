-- ===== src/Billing/Http.antt =====
-- The HTTP interface of billing-service, services/billing-service/internal/handler/http/handler.go.
--
-- A number of a JSON body stands in ten-thousandths where the source reads a float64.
pub mod Bodies
mod Tests
pub mod Money
pub mod Funds
pub mod Client
use cloudmini_reseller.Common.{
  ℕ, ◌+◌, String, str_eq, Bool, true, false, not, ◌||◌, Option, none, some, List, if◌then◌else◌,
}
use cloudmini_reseller.Common.Int.{ℤ, pos, leb_ℤ, ltb_ℤ, pos_part, neg_part}
use cloudmini_reseller.Common.Action.{Action as Act, Outcome, pure, raise, ◌>>=◌, ◌>>◌}
use cloudmini_reseller.Billing.Entity.{Wallet, Transaction, text}
use cloudmini_reseller.Billing.Action.{
  World, Env, Error, Action, ok, err, err_wallet_not_found, err_payment_not_found,
  err_insufficient_funds, err_invalid_amount,
}
use cloudmini_reseller.Billing.Repo.Queries.{transaction_list_by_user}
use cloudmini_reseller.Billing.Wallet.{
  Reference, get_balance, deduct, hold_funds, confirm_hold, release_hold, credit,
}
use cloudmini_reseller.Billing.Payments.{
  CreateDepositResult, create_deposit as new_deposit, handle_webhook,
}
use cloudmini_reseller.Billing.Pricing.{calculate_price}
use cloudmini_reseller.Billing.Pricing.Decimal.{Rounding}
use cloudmini_reseller.Web.{
  Response, Payload, no_body, Code, not_found, insufficient_funds, validation_error, internal_error,
  respond, respond_json, no_content, bad_request, internal, Claims, Libraries, nil_uuid,
  must_parse_uuid, Guard, anyone, signed_in, with_role, admins, Handler, or_respond, demand,
  reject_if, run_guarded,
}
use cloudmini_reseller.Web.Json.{Fields, ◌>>=◌ as ◌>>?◌}
use Bodies.{
  DepositBody, deposit_body, AdjustBody, adjust_body, HoldBody, hold_body, confirm_body, PriceBody,
  price_body,
}
use cloudmini_reseller.Web.Pages.{PageQuery, Params, parse, Meta, new_meta}

-- What is read of the body that Stripe posts, with the amount in units of the currency.
pub record StripePayload : Type 0 where
  pub kind : String
  pub id : String
  pub amount : ℤ

-- The routes of NewRouter, with the parameters of the query that a handler reads.
pub data Endpoint : Type 0 where
  stripe_webhook : Option StripePayload → Endpoint
  get_wallet create_deposit admin_adjust_balance : Endpoint
  list_transactions : PageQuery → Endpoint
  admin_get_user_wallet : String → Endpoint
  internal_hold internal_confirm_hold internal_release_hold internal_calculate_price : Endpoint

pub record Request : Type 0 where
  pub endpoint : Endpoint
  pub authorization : String
  pub body : Option Fields

pub data Data : Type 0 where
  wallet : Wallet → Data
  transaction : Transaction → Data
  transactions : List Transaction → Meta → Data
  deposit : CreateDepositResult → Data
  price : ℤ → Data

unfoldable pub guard_of : Endpoint → Guard
guard_of get_wallet = signed_in
guard_of (list_transactions q) = signed_in
guard_of create_deposit = signed_in
guard_of (admin_get_user_wallet user) = with_role admins
guard_of admin_adjust_balance = with_role admins
guard_of _ = anyone

-- An operation of billing-service as an operation of a handler.
abbrev pub perform_on : {A : Type 0} → Action A → Act Env World Error A
perform_on m env w =
    let (r, w') = m env w in (elim r [ ok a ↦ Outcome.ok a | err e ↦ Outcome.err e ], w')

unfoldable pub handle_error : Error → Response Data
handle_error err_wallet_not_found = respond 404 not_found
handle_error err_payment_not_found = respond 404 not_found
handle_error err_insufficient_funds = respond 402 insufficient_funds
handle_error err_invalid_amount = respond 400 validation_error
handle_error e = internal

abbrev pub Serve : Type 0
Serve = Handler Env World Data (Response Data)

abbrev pub try : {A : Type 0} → Action A → Handler Env World Data A
try m = or_respond (perform_on m) handle_error

unfoldable pub list_page : ℕ → PageQuery → Serve
list_page user q =
    let p = parse q in
    try (transaction_list_by_user user p.offset p.limit) >>= λ (rows, total).
    pure (respond_json 200 (transactions rows (new_meta p total)))

abbrev pub map_option : {A B : Type 0} → (A → B) → Option A → Option B
map_option f none = none
map_option f (some a) = some (f a)

-- GetWallet, and the end of AdminGetUserWallet.
unfoldable pub show_wallet : ℕ → Serve
show_wallet user = do x ← try (get_balance user); pure (respond_json 200 (wallet x))

module _ (lib : Libraries) where
  -- CreateDeposit, below a front end at `base`.
  unfoldable pub post_deposit : String → Claims → Option Fields → Serve
  post_deposit base claims body = do
    req ← demand (body >>? deposit_body) bad_request
    reject_if (str_eq req.gateway "" || leb_ℤ req.amount (pos 0)) bad_request
    x ← try (get_balance (must_parse_uuid lib claims.user_id))
    result ← try (
        new_deposit base (record {
          user_id = must_parse_uuid lib claims.user_id;
          wallet_id = x.id;
          gateway = req.gateway;
          amount = req.amount;
          currency = req.currency;
        }))
    pure (respond_json 201 (deposit result))

  -- The query parameter user_id, which has to be there and to be a UUID.
  abbrev pub user_of_query : String → Handler Env World Data ℕ
  user_of_query user = do
    reject_if (str_eq user "") bad_request
    demand (lib.parse_uuid user) bad_request

  unfoldable pub get_user_wallet : String → Serve
  get_user_wallet user = user_of_query user >>= show_wallet

  -- decimal.Abs
  abbrev pub abs : ℤ → ℤ
  abs a = pos (pos_part a + neg_part a)

  abbrev adjustment : ℕ → String → Reference
  adjustment admin why = record {
    reference_type = "adjustment";
    reference_id = some admin;
    description = text why;
  }

  -- AdminAdjustBalance: an amount above 0 is credited, any other deducted.
  unfoldable pub adjust : ℕ → ℤ → Reference → Action Transaction
  adjust user amount ref =
      if ltb_ℤ (pos 0) amount
      then credit user (abs amount) ref
      else deduct user (abs amount) ref none

  unfoldable pub post_adjustment : Claims → Option Fields → Serve
  post_adjustment claims body = do
    req ← demand (body >>? adjust_body) bad_request
    txn ← try (
        adjust (must_parse_uuid lib req.user_id) req.amount
          (adjustment (must_parse_uuid lib claims.user_id) req.description))
    pure (respond_json 200 (transaction txn))

  -- Neither the sender nor the amount is checked.
  unfoldable pub post_stripe : Option StripePayload → Serve
  post_stripe none = raise (record { status = 400; body = no_body })
  post_stripe (some payload) =
      if not (str_eq payload.kind "payment_intent.succeeded")
      then raise (record { status = 200; body = no_body })
      else do
        or_respond (perform_on (handle_webhook "stripe" payload.id payload.amount))
            (λ e. record { status = 500; body = no_body })
        pure (record { status = 200; body = no_body })

  -- The three internal requests on holds, which come without a token.
  unfoldable pub post_hold : (ℕ → ℤ → Reference → Action Transaction) → Option HoldBody → Serve
  post_hold operation decoded = do
    req ← demand decoded bad_request
    try (
        operation (must_parse_uuid lib req.user_id) req.amount (record {
          reference_type = req.reference_type;
          reference_id = some (must_parse_uuid lib req.reference_id);
          description = text req.description;
        }))
    pure no_content

  unfoldable pub post_price : Rounding → Option PriceBody → Serve
  post_price rounding decoded = do
    req ← demand decoded bad_request
    amount ← try (
        calculate_price rounding req.base_cost req.product_type (must_parse_uuid lib req.product_id)
          (map_option (must_parse_uuid lib) req.reseller_id))
    pure (respond_json 200 (price amount))

  -- The handler of an endpoint.
  unfoldable pub handle : Rounding → String → Endpoint → Claims → Option Fields → Serve
  unfolding post_deposit get_user_wallet post_adjustment post_stripe post_hold post_price list_page
      show_wallet
  handle rounding base (stripe_webhook payload) claims body = post_stripe payload
  handle rounding base get_wallet claims body = show_wallet (must_parse_uuid lib claims.user_id)
  handle rounding base create_deposit claims body = post_deposit base claims body
  handle rounding base admin_adjust_balance claims body = post_adjustment claims body
  handle rounding base (list_transactions q) claims body =
      list_page (must_parse_uuid lib claims.user_id) q
  handle rounding base (admin_get_user_wallet user) claims body = get_user_wallet user
  handle rounding base internal_hold claims body = post_hold hold_funds (body >>? hold_body lib)
  handle rounding base internal_confirm_hold claims body =
      post_hold confirm_hold (body >>? confirm_body lib)
  handle rounding base internal_release_hold claims body =
      post_hold release_hold (body >>? confirm_body lib)
  handle rounding base internal_calculate_price claims body =
      post_price rounding (body >>? price_body lib)

  unfoldable pub serve : Rounding → String → Request → Env → World → Response Data × World
  unfolding handle guard_of
  serve rounding base req =
      run_guarded lib (guard_of req.endpoint) req.authorization
        (λ claims. handle rounding base req.endpoint claims req.body)
