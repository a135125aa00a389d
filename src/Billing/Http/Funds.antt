-- ===== src/Billing/Http/Funds.antt =====
-- The invariant of the wallets through histories of requests.
use cloudmini_reseller.Common.{
  ℕ, String, str_eq, not, Option, none, some, List, [], ◌∷◌, arith, All, Bool-cases, inl, inr,
}
use cloudmini_reseller.Common.Int.{ℤ, pos, ◌≤ℤ◌, ltb_ℤ}
use cloudmini_reseller.Common.Action.{pure}
use cloudmini_reseller.Common.Keeps.{Keeps, Keeps-bind, Keeps-then, Keeps-if, Keeps-pure}
use cloudmini_reseller.Billing.Action.{World, Env, Action}
use cloudmini_reseller.Billing.Entity.{Transaction, text}
use cloudmini_reseller.Billing.Wallet.{
  Reference, credit, deduct, hold_funds, confirm_hold, release_hold,
}
use cloudmini_reseller.Billing.Wallet.Calls.{
  deducts, holds, confirms, releases, credits, perform, perform_as,
}
use cloudmini_reseller.Billing.Wallet.Funds.{IsFunded, perform-IsFunded}
use cloudmini_reseller.Billing.Payments.{handle_webhook}
use cloudmini_reseller.Billing.Payments.Webhook.{handle_webhook-keeps}
use cloudmini_reseller.Billing.Pricing.Decimal.{Rounding}
use cloudmini_reseller.Web.{
  must_parse_uuid, no_content, Claims, Libraries, Keeps-or_respond, Keeps-demand, finish-keeps,
  run_guarded, admit,
}
use cloudmini_reseller.Web.Json.{Fields, ◌>>=◌ as ◌>>?◌}
use cloudmini_reseller.Billing.Http.{
  Endpoint, Request, internal_confirm_hold, internal_release_hold, get_wallet, list_transactions,
  create_deposit, stripe_webhook, admin_get_user_wallet, admin_adjust_balance, internal_hold,
  internal_calculate_price, StripePayload, try, perform_on, post_hold, post_stripe, post_adjustment,
  handle, serve, guard_of, adjust, abs,
}
use cloudmini_reseller.Billing.Http.Bodies.{HoldBody, hold_body, confirm_body, price_body}
use cloudmini_reseller.Billing.Http.Money.{
  SameMoney, Keeps-try, show_wallet-Keeps, get_user_wallet-Keeps, list_page-Keeps,
  post_deposit-Keeps, post_price-Keeps,
}

-- No wallet has a negative hold or a hold above its balance.
abbrev Funded : World → Type 0
Funded w = All IsFunded w.wallets

Funded-money : (w w' : World) → SameMoney w w' → Funded w → Funded w'
Funded-money w w' same funded = ground arith

credit-Funded :
    (user : ℕ) (amount : ℤ) (ref : Reference) → Keeps Funded (try (credit user amount ref))
unfolding perform perform_as
credit-Funded user amount ref = Keeps-try (credit user amount ref) λ env w funded.
    perform-IsFunded (record { kind = credits; user = user; amount = amount; ref = ref }) env w tt
      funded

deduct-Funded :
    (user : ℕ) (amount : ℤ) (ref : Reference) (request : Option ℕ)
    → Keeps Funded (try (deduct user amount ref request))
unfolding perform perform_as
deduct-Funded user amount ref request = Keeps-try (deduct user amount ref request) λ env w funded.
    perform-IsFunded (record { kind = deducts request; user = user; amount = amount; ref = ref })
      env w tt funded

hold_funds-Funded :
    (user : ℕ) (amount : ℤ) (ref : Reference) → Keeps Funded (try (hold_funds user amount ref))
unfolding perform perform_as
hold_funds-Funded user amount ref = Keeps-try (hold_funds user amount ref) λ env w funded.
    perform-IsFunded (record { kind = holds; user = user; amount = amount; ref = ref }) env w tt
      funded

confirm_hold-Funded :
    (user : ℕ) (amount : ℤ) (ref : Reference)
    → pos 0 ≤ℤ amount
    → Keeps Funded (try (confirm_hold user amount ref))
unfolding perform perform_as
confirm_hold-Funded user amount ref n = Keeps-try (confirm_hold user amount ref) λ env w funded.
    perform-IsFunded (record { kind = confirms; user = user; amount = amount; ref = ref }) env w n
      funded

release_hold-Funded :
    (user : ℕ) (amount : ℤ) (ref : Reference)
    → pos 0 ≤ℤ amount
    → Keeps Funded (try (release_hold user amount ref))
unfolding perform perform_as
release_hold-Funded user amount ref n = Keeps-try (release_hold user amount ref) λ env w funded.
    perform-IsFunded (record { kind = releases; user = user; amount = amount; ref = ref }) env w n
      funded

adjust-Funded :
    (lib : Libraries) (user : ℕ) (amount : ℤ) (ref : Reference)
    → Keeps Funded (try (adjust lib user amount ref))
unfolding adjust
adjust-Funded lib user amount ref = elim (Bool-cases (ltb_ℤ (pos 0) amount)) [
  | inl above ↦ rw above (credit-Funded user (abs lib amount) ref)
  | inr below ↦ rw below (deduct-Funded user (abs lib amount) ref none)
]

post_adjustment-Funded :
    (lib : Libraries) (claims : Claims) (body : Option Fields)
    → Keeps Funded (post_adjustment lib claims body)
unfolding post_adjustment
post_adjustment-Funded lib claims body =
    search (Keeps-bind, Keeps-demand, Keeps-pure, adjust-Funded) depth 12

handle_webhook-Funded :
    (t : String) (amount : ℤ) → Keeps Funded (perform_on (handle_webhook "stripe" t amount))
handle_webhook-Funded t amount = record {
  at = λ env w funded.
      handle_webhook-keeps Funded "stripe" t amount env w
        (λ w' wallets transactions staged. Funded-money w w' (wallets, transactions, staged) funded)
        (λ user a ref w' kept. (credit-Funded user a ref).at env w' kept);
}

post_stripe-Funded :
    (lib : Libraries) (payload : Option StripePayload) → Keeps Funded (post_stripe lib payload)
unfolding post_stripe
post_stripe-Funded lib none = record { at = λ env w funded. funded }
post_stripe-Funded lib (some payload) =
    Keeps-if (not (str_eq payload.kind "payment_intent.succeeded")) _ _
      (record { at = λ env w funded. funded })
      (search (Keeps-then, Keeps-or_respond, handle_webhook-Funded, Keeps-pure) depth 12)

-- The amount of a decoded body is not negative.
abbrev HasNonneg : Option HoldBody → Type 0
HasNonneg none = Unit {0}
HasNonneg (some req) = pos 0 ≤ℤ req.amount

-- What is asked of a body: the amounts of a confirmation and of a release are not negative.
abbrev NonnegAt : Libraries → Endpoint → Option Fields → Type 0
NonnegAt lib internal_confirm_hold body = HasNonneg (body >>? confirm_body lib)
NonnegAt lib internal_release_hold body = HasNonneg (body >>? confirm_body lib)
NonnegAt lib _ body = Unit {0}

-- A request to confirm or release a hold names no negative amount.
abbrev pub IsNonneg : Libraries → Request → Type 0
IsNonneg lib req = NonnegAt lib req.endpoint req.body

post_hold-Funded :
    (lib : Libraries) (operation : ℕ → ℤ → Reference → Action Transaction)
    (decoded : Option HoldBody)
    → HasNonneg decoded
    → ((user : ℕ) (amount : ℤ) (ref : Reference)
        → pos 0 ≤ℤ amount
        → Keeps Funded (try (operation user amount ref)))
    → Keeps Funded (post_hold lib operation decoded)
unfolding post_hold
post_hold-Funded lib operation none n keeps = record { at = λ env w funded. funded }
post_hold-Funded lib operation (some req) n keeps =
    let kept =
      keeps (must_parse_uuid lib req.user_id) req.amount
        (record {
          reference_type = req.reference_type;
          reference_id = some (must_parse_uuid lib req.reference_id);
          description = text req.description;
        })
        n in
    let rest =
      Keeps-then
        (try (
          operation (must_parse_uuid lib req.user_id) req.amount (record {
            reference_type = req.reference_type;
            reference_id = some (must_parse_uuid lib req.reference_id);
            description = text req.description;
          })))
        (pure no_content) kept (Keeps-pure no_content) in
    record { at = λ env w funded. rest.at env w funded }

post_internal_hold-Funded :
    (lib : Libraries) (decoded : Option HoldBody) → Keeps Funded (post_hold lib hold_funds decoded)
unfolding post_hold
post_internal_hold-Funded lib decoded =
    search (Keeps-bind, Keeps-then, Keeps-demand, hold_funds-Funded, Keeps-pure) depth 12

module _ (lib : Libraries) (rounding : Rounding) (base : String) where
  handle-Funded :
      (e : Endpoint) (claims : Claims) (body : Option Fields)
      → NonnegAt lib e body
      → Keeps Funded (handle lib rounding base e claims body)
  unfolding handle
  handle-Funded (stripe_webhook payload) claims body n = post_stripe-Funded lib payload
  handle-Funded get_wallet claims body n = show_wallet-Keeps Funded-money _
  handle-Funded create_deposit claims body n = post_deposit-Keeps Funded-money lib base claims body
  handle-Funded admin_adjust_balance claims body n = post_adjustment-Funded lib claims body
  handle-Funded (list_transactions q) claims body n = list_page-Keeps Funded-money _ q
  handle-Funded (admin_get_user_wallet user) claims body n =
      get_user_wallet-Keeps Funded-money lib user
  handle-Funded internal_hold claims body n = post_internal_hold-Funded lib (body >>? hold_body lib)
  handle-Funded internal_confirm_hold claims body n =
      post_hold-Funded lib confirm_hold (body >>? confirm_body lib) n confirm_hold-Funded
  handle-Funded internal_release_hold claims body n =
      post_hold-Funded lib release_hold (body >>? confirm_body lib) n release_hold-Funded
  handle-Funded internal_calculate_price claims body n =
      post_price-Keeps Funded-money lib rounding (body >>? price_body lib)

  serve-Funded :
      (req : Request) (env : Env) (w : World)
      → IsNonneg lib req
      → Funded w
      → Funded (serve lib rounding base req env w).1
  unfolding serve run_guarded
  serve-Funded req env w n funded =
      finish-keeps {Q = Funded} (admit lib (guard_of req.endpoint) req.authorization)
        (λ claims. handle lib rounding base req.endpoint claims req.body)
        (λ claims passed. handle-Funded req.endpoint claims req.body n) env w funded

  -- Requests, each with its own surroundings.
  unfoldable pub serve_all : List (Request × Env) → World → World
  serve_all [] w = w
  serve_all ((req, env) ∷ rest) w = serve_all rest (serve lib rounding base req env w).1

  -- No history of requests, from users, administrators, Stripe or other services, leaves a wallet
  -- with a negative hold or with a hold above its balance, if there was none before and no request
  -- confirms or releases a negative amount, whatever tokens they carry and whatever fails.
  pub serve_all-IsFunded :
      (rs : List (Request × Env)) (w : World)
      → All (λ r. IsNonneg lib r.0) rs
      → All IsFunded w.wallets
      → All IsFunded (serve_all rs w).wallets
  unfolding serve_all
  serve_all-IsFunded [] w n funded = funded
  serve_all-IsFunded ((req, env) ∷ rest) w n funded =
      serve_all-IsFunded rest _ n.1 (serve-Funded req env w n.0 funded)
