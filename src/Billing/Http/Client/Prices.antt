-- ===== src/Billing/Http/Client/Prices.antt =====
-- CalculatePrice over the wire.
use mathlib.Core.Path.{subst, ap₂}
use cloudmini_reseller.Common.{ℕ, String, ◌≡◌, refl, sym, ap, ◌∙◌, Option, none, some, arith}
use cloudmini_reseller.Common.Int.{ℤ}
use cloudmini_reseller.Common.Action.{Outcome, ok, err, pure, ◌>>=◌}
use cloudmini_reseller.Billing.Action.{World, Env, Result, ok as done, err as failed}
use cloudmini_reseller.Billing.Pricing.{calculate_price}
use cloudmini_reseller.Billing.Pricing.Decimal.{Rounding}
use cloudmini_reseller.Web.{
  Response, respond_json, either, or_else_of, nil_uuid, Libraries, must_parse_uuid, run_guarded,
  admit,
}
use cloudmini_reseller.Web.Json.{Fields}
use cloudmini_reseller.Billing.Http.Bodies.{PriceBody, price_body}
use cloudmini_reseller.Billing.Http.{Data, price, serve, post_price, handle_error, try, map_option}
use cloudmini_reseller.Billing.Http.Client.{
  Wire, ClientError, client_calculate_price, price_fields, read_answer, read_price, direct, Agrees,
}

module _ (lib : Libraries) (wire : Wire lib) (rounding : Rounding) (front_end : String)
    (env : Env) where
  abbrev fields : ℤ → String → ℕ → Option ℕ → Fields
  fields = price_fields (direct lib wire rounding front_end env) lib wire

  abbrev body_of : ℤ → String → ℕ → Option ℕ → PriceBody
  body_of base kind product reseller = record {
    base_cost = base;
    product_type = kind;
    product_id = wire.print_uuid product;
    reseller_id = map_option wire.print_uuid reseller;
  }

  price_body-fields :
      (base : ℤ) (kind : String) (product : ℕ) (reseller : Option ℕ)
      → price_body lib (fields base kind product reseller)
        ≡ some (body_of base kind product reseller)
  price_body-fields base kind product none = rw (wire.parse-print_decimal base) refl
  price_body-fields base kind product (some id) = rw (wire.parse-print_decimal base) refl

  abbrev reply : Result ℤ × World → Outcome (Response Data) (Response Data) × World
  reply (r, w) =
      (elim r [ done p ↦ ok (respond_json 200 (price p)) | failed e ↦ err (handle_error e) ], w)

  replied :
      (r : Result ℤ) (w w' : World)
      → (try (λ _ _. (r, w)) >>= λ p. pure (respond_json 200 (price p))) env w' ≡ reply (r, w)
  replied (done p) w w' = refl
  replied (failed e) w w' = refl

  same_reseller :
      (reseller : Option ℕ)
      → map_option (must_parse_uuid lib) (map_option wire.print_uuid reseller) ≡ reseller
  same_reseller none = refl
  same_reseller (some id) = ap (λ o. some (or_else_of nil_uuid o)) (wire.parse-print_uuid id)

  post_price-reply :
      (base : ℤ) (kind : String) (product : ℕ) (reseller : Option ℕ) (w : World)
      → post_price lib rounding (some (body_of base kind product reseller)) env w
        ≡ reply (calculate_price rounding base kind product reseller env w)
  unfolding post_price
  post_price-reply base kind product reseller w =
      let (r, w') =
        calculate_price rounding base kind (must_parse_uuid lib (wire.print_uuid product))
          (map_option (must_parse_uuid lib) (map_option wire.print_uuid reseller)) env w in
      replied r w' w
      ∙ ap₂ (λ p o. reply (calculate_price rounding base kind p o env w))
          (ap (or_else_of nil_uuid) (wire.parse-print_uuid product)) (same_reseller reseller)

  abbrev seen : Outcome (Response Data) (Response Data) × World → Outcome ClientError ℤ × World
  seen (r, w) = (
    read_price (direct lib wire rounding front_end env) lib wire (read_answer (some (either r))),
    w,
  )

  seen-Agrees : (r : Result ℤ) (w : World) → Agrees (λ p. p) (seen (reply (r, w))) (r, w)
  unfolding handle_error
  seen-Agrees (done p) w = (refl, rw (wire.parse-print_decimal p) refl)
  seen-Agrees (failed e) w = (refl, ground arith)

  -- If requests arrive, then CalculatePrice of the client returns the price that the engine
  -- calculates, with the effect that the calculation has.
  pub client_calculate_price-Agrees :
      (base : ℤ) (kind : String) (product : ℕ) (reseller : Option ℕ) (w : World)
      → Agrees
          (λ p. p)
          (client_calculate_price
            (direct lib wire rounding front_end env)
            lib
            wire
            base
            kind
            product
            reseller
            w)
          (calculate_price rounding base kind product reseller env w)
  unfolding client_calculate_price serve run_guarded admit
  client_calculate_price-Agrees base kind product reseller w =
      let (r, w') = calculate_price rounding base kind product reseller env w in
      subst
        (λ x. Agrees (λ p. p) (seen x) (calculate_price rounding base kind product reseller env w))
        (sym (
          ap (λ b. post_price lib rounding b env w) (price_body-fields base kind product reseller)
          ∙ post_price-reply base kind product reseller w))
        (seen-Agrees r w')
