-- ===== src/Billing/Http/Client.antt =====
-- The client of billing-service that proxy-service uses,
-- services/proxy-service/internal/usecase/billing_client.go, and what it comes to when its requests
-- reach the handlers of billing-service.
pub mod Prices
use mathlib.Core.Path.{subst, ap₂}
use cloudmini_reseller.Common.{
  ℕ, String, Bool, true, false, ◌≡◌, refl, sym, ap, ◌∙◌, Option, none, some, List, [], ◌∷◌, ◌++◌,
  arith, leb, ◌==◌, if◌then◌else◌,
}
use cloudmini_reseller.Common.Int.{ℤ, pos}
use cloudmini_reseller.Common.Action.{Outcome, ok, err, pure, ◌>>◌}
use cloudmini_reseller.Billing.Entity.{text as description_text, Transaction}
use cloudmini_reseller.Billing.Action.{
  World, Env, Error, Result, ok as done, err as failed, Action, err_insufficient_funds,
  err_invalid_amount, err_wallet_not_found, err_payment_not_found,
}
use cloudmini_reseller.Billing.Wallet.{Reference, hold_funds, confirm_hold, release_hold}
use cloudmini_reseller.Billing.Pricing.{calculate_price}
use cloudmini_reseller.Billing.Pricing.Decimal.{Rounding}
use cloudmini_reseller.Web.{
  either, or_else_of, nil_uuid, Response, Payload, data_of, no_content, Libraries, must_parse_uuid,
  run_guarded, admit,
}
use cloudmini_reseller.Web.Json.{Value, text, Fields}
use cloudmini_reseller.Billing.Http.Bodies.{
  HoldBody, hold_body, confirm_body, PriceBody, price_body,
}
use cloudmini_reseller.Billing.Http.{
  Data, price, Endpoint, Request, internal_hold, internal_confirm_hold, internal_release_hold,
  internal_calculate_price, handle, serve, guard_of, post_hold, post_price, handle_error, try,
}

-- How encoding/json writes UUIDs and decimals, by the methods of their libraries, which read back
-- what they write.
pub record Wire (lib : Libraries) : Type 0 where
  pub print_uuid : ℕ → String
  pub print_decimal : ℤ → String
  pub parse-print_uuid : (id : ℕ) → lib.parse_uuid (print_uuid id) ≡ some id
  pub parse-print_decimal : (d : ℤ) → lib.parse_decimal (print_decimal d) ≡ some d

pub data ClientError : Type 0 where
  no_answer bad_price client_insufficient_funds : ClientError
  status_of : ℕ → ClientError

-- What the client sends a request through; none where no answer can be read.
abbrev pub Transport : Type 0 → Type 0
Transport W = Request → W → Option (Response Data) × W

abbrev pub read_answer : Option (Response Data) → Outcome ClientError (Payload Data)
read_answer none = err no_answer
read_answer (some r) =
    if r.status == 402
    then err client_insufficient_funds
    else if leb 400 r.status
    then err (status_of r.status)
    else ok r.body

module _ {W : Type 0} (send : Transport W) where
  unfoldable pub post_with_response : Endpoint → Fields → W → Outcome ClientError (Payload Data) × W
  post_with_response e fields w =
      let (r, w') = send (record { endpoint = e; authorization = ""; body = some fields }) w in
      (read_answer r, w')

  unfoldable pub post : Endpoint → Fields → W → Outcome ClientError (Unit {0}) × W
  unfolding post_with_response
  post e fields w =
      let (r, w') = post_with_response e fields w in
      (elim r [ ok body ↦ ok tt | err e ↦ err e ], w')

  module _ (lib : Libraries) (wire : Wire lib) where
    open wire use {print_uuid, print_decimal}

    -- The keys of a map are written in their order.
    abbrev hold_fields : ℕ → ℤ → String → ℕ → Fields → Fields
    hold_fields user amount kind ref more =
        ("amount", text (print_decimal amount)) ∷ more
        ++ ("reference_id", text (print_uuid ref))
          ∷ ("reference_type", text kind)
          ∷ ("user_id", text (print_uuid user))
          ∷ []

    unfoldable pub client_hold : ℕ → ℤ → String → ℕ → W → Outcome ClientError (Unit {0}) × W
    unfolding post
    client_hold user amount kind ref = post internal_hold (hold_fields user amount kind ref [])

    unfoldable pub client_confirm_hold :
        ℕ → ℤ → String → ℕ → String → W → Outcome ClientError (Unit {0}) × W
    unfolding post
    client_confirm_hold user amount kind ref why =
        post internal_confirm_hold
          (hold_fields user amount kind ref (("description", text why) ∷ []))

    unfoldable pub client_release_hold :
        ℕ → ℤ → String → ℕ → String → W → Outcome ClientError (Unit {0}) × W
    unfolding post
    client_release_hold user amount kind ref why =
        post internal_release_hold
          (hold_fields user amount kind ref (("description", text why) ∷ []))

    abbrev pub price_fields : ℤ → String → ℕ → Option ℕ → Fields
    price_fields base kind product reseller =
        ("base_cost", text (print_decimal base))
        ∷ ("product_id", text (print_uuid product))
        ∷ ("product_type", text kind)
        ∷ elim reseller [ none ↦ [] | some id ↦ ("reseller_id", text (print_uuid id)) ∷ [] ]

    -- The text under data.price, which is empty where there is none.
    abbrev price_text : Payload Data → String
    price_text (data_of (price p)) = print_decimal p
    price_text _ = ""

    abbrev pub read_price : Outcome ClientError (Payload Data) → Outcome ClientError ℤ
    read_price (err e) = err e
    read_price (ok body) = elim (lib.parse_decimal (price_text body)) [
      | none ↦ err bad_price
      | some p ↦ ok p
    ]

    unfoldable pub client_calculate_price :
        ℤ → String → ℕ → Option ℕ → W → Outcome ClientError ℤ × W
    unfolding post_with_response
    client_calculate_price base kind product reseller w =
        let (r, w') =
          post_with_response internal_calculate_price (price_fields base kind product reseller) w in
        (read_price r, w')

-- What the client makes of an error of the use cases.
abbrev error_of : Error → ClientError
error_of err_insufficient_funds = client_insufficient_funds
error_of err_wallet_not_found = status_of 404
error_of err_payment_not_found = status_of 404
error_of err_invalid_amount = status_of 400
error_of _ = status_of 500

-- A call of the client whose answer and effect are those of the operation itself.
abbrev pub Agrees :
    {A B : Type 0} → (A → B) → Outcome ClientError B × World → Result A × World → Type 0
Agrees f (r, w') (s, w'') =
    (w' ≡ w'') × (r ≡ elim s [ done a ↦ ok (f a) | failed e ↦ err (error_of e) ])

module _ (lib : Libraries) (wire : Wire lib) (rounding : Rounding) (base : String) (env : Env) where
  -- Every request reaches the handlers.
  abbrev pub direct : Transport World
  direct req w = let (r, w') = serve lib rounding base req env w in (some r, w')

  abbrev pub reference : String → ℕ → String → Reference
  reference kind ref why = record {
    reference_type = kind;
    reference_id = some ref;
    description = description_text why;
  }

  abbrev body_of : ℕ → ℤ → String → ℕ → String → HoldBody
  body_of user amount kind ref why = record {
    user_id = wire.print_uuid user;
    amount = amount;
    reference_type = kind;
    reference_id = wire.print_uuid ref;
    description = why;
  }

  hold_body-fields :
      (user : ℕ) (amount : ℤ) (kind : String) (ref : ℕ)
      → hold_body lib (hold_fields direct lib wire user amount kind ref [])
        ≡ some (body_of user amount kind ref "")
  hold_body-fields user amount kind ref = rw (wire.parse-print_decimal amount) refl

  confirm_body-fields :
      (user : ℕ) (amount : ℤ) (kind : String) (ref : ℕ) (why : String)
      → confirm_body lib
          (hold_fields direct lib wire user amount kind ref (("description", text why) ∷ []))
        ≡ some (body_of user amount kind ref why)
  confirm_body-fields user amount kind ref why = rw (wire.parse-print_decimal amount) refl

  abbrev reply : Result Transaction × World → Outcome (Response Data) (Response Data) × World
  reply (r, w) = (elim r [ done txn ↦ ok no_content | failed e ↦ err (handle_error e) ], w)

  replied :
      (r : Result Transaction) (w w' : World)
      → (try (λ _ _. (r, w)) >> pure no_content) env w' ≡ reply (r, w)
  replied (done txn) w w' = refl
  replied (failed e) w w' = refl

  post_hold-reply :
      (op : ℕ → ℤ → Reference → Action Transaction) (user : ℕ) (amount : ℤ) (kind : String)
      (ref : ℕ) (why : String) (w : World)
      → post_hold lib op (some (body_of user amount kind ref why)) env w
        ≡ reply (op user amount (reference kind ref why) env w)
  unfolding post_hold
  post_hold-reply op user amount kind ref why w =
      let (r, w') =
        op (must_parse_uuid lib (wire.print_uuid user)) amount
          (reference kind (must_parse_uuid lib (wire.print_uuid ref)) why) env w in
      replied r w' w
      ∙ ap₂ (λ u i. reply (op u amount (reference kind i why) env w))
          (ap (or_else_of nil_uuid) (wire.parse-print_uuid user))
          (ap (or_else_of nil_uuid) (wire.parse-print_uuid ref))

  -- What the client makes of the end of a handler.
  abbrev seen :
      Outcome (Response Data) (Response Data) × World → Outcome ClientError (Unit {0}) × World
  seen (r, w) = (elim (read_answer (some (either r))) [ ok body ↦ ok tt | err e ↦ err e ], w)

  seen-Agrees :
      (r : Result Transaction) (w : World) → Agrees (λ txn. tt) (seen (reply (r, w))) (r, w)
  unfolding handle_error
  seen-Agrees (done txn) w = (refl, refl)
  seen-Agrees (failed e) w = (refl, ground arith)

  reaches-Agrees :
      (op : ℕ → ℤ → Reference → Action Transaction) (user : ℕ) (amount : ℤ) (kind : String)
      (ref : ℕ) (why : String) (w : World) (decoded : Option HoldBody)
      → decoded ≡ some (body_of user amount kind ref why)
      → Agrees
          (λ txn. tt)
          (seen (post_hold lib op decoded env w))
          (op user amount (reference kind ref why) env w)
  reaches-Agrees op user amount kind ref why w decoded e =
      let (r, w') = op user amount (reference kind ref why) env w in
      subst (λ x. Agrees (λ txn. tt) (seen x) (op user amount (reference kind ref why) env w))
        (sym (ap (λ b. post_hold lib op b env w) e ∙ post_hold-reply op user amount kind ref why w))
        (seen-Agrees r w')

  -- If requests arrive, then Hold, ConfirmHold and ReleaseHold of the client of billing-service,
  -- with the amounts and ids that they send as text, do to wallets and ledger just what the
  -- operation of WalletUsecase does, whatever statements fail; they end without an error exactly if
  -- it does, and their error is insufficient funds exactly if that is its error.
  pub client-Agrees :
      (user : ℕ) (amount : ℤ) (kind : String) (ref : ℕ) (why : String) (w : World)
      → Agrees
          (λ txn. tt)
          (client_hold direct lib wire user amount kind ref w)
          (hold_funds user amount (reference kind ref "") env w)
        × Agrees
            (λ txn. tt)
            (client_confirm_hold direct lib wire user amount kind ref why w)
            (confirm_hold user amount (reference kind ref why) env w)
        × Agrees
            (λ txn. tt)
            (client_release_hold direct lib wire user amount kind ref why w)
            (release_hold user amount (reference kind ref why) env w)
  unfolding client_hold client_confirm_hold client_release_hold serve run_guarded admit
  client-Agrees user amount kind ref why w = (
    reaches-Agrees hold_funds user amount kind ref "" w _ (hold_body-fields user amount kind ref),
    reaches-Agrees confirm_hold user amount kind ref why w _
        (confirm_body-fields user amount kind ref why),
    reaches-Agrees release_hold user amount kind ref why w _
        (confirm_body-fields user amount kind ref why),
  )
