-- ===== src/Billing/Http/Tests.antt =====
-- Runs and witnesses of the HTTP interface of billing-service.
use cloudmini_reseller.Common.{refl, some, List, [], ◌∷◌, All, arith}
use cloudmini_reseller.Common.Int.{pos}
use cloudmini_reseller.Billing.Action.{Env}
use cloudmini_reseller.Billing.Tests.{up, fourth_fails, rounding, world}
use cloudmini_reseller.Billing.Wallet.{hold_funds, confirm_hold, release_hold}
use cloudmini_reseller.Billing.Wallet.Funds.{IsFunded}
use cloudmini_reseller.Billing.Http.{
  Request, admin_adjust_balance, internal_hold, internal_confirm_hold, serve,
}
use cloudmini_reseller.Billing.Http.Money.{SameMoney, serve_user-SameMoney}
use cloudmini_reseller.Billing.Http.Funds.{serve_all, serve_all-IsFunded}
use cloudmini_reseller.Billing.Http.Client.{
  Wire, Agrees, direct, reference, client_hold, client_confirm_hold, client_release_hold,
  client-Agrees,
}
use cloudmini_reseller.Web.Json.{Fields, text}
use cloudmini_reseller.Web.Tests.{
  signs, seven, signs-NotAdmin, unary, signed_unary, parse_uuid-unary, parse_decimal-signed_unary,
}

-- User 7 wants some money.
abbrev gift : Request
gift = record {
  endpoint = admin_adjust_balance;
  authorization = "Bearer t";
  body = some (("user_id", text "xxxxxxx") ∷ ("amount", text "+xxxxxxxxx") ∷ []);
}

serve_user-SameMoney_example :
    SameMoney world (serve (signs seven) rounding "https://x" gift up world).1
serve_user-SameMoney_example =
    serve_user-SameMoney (signs seven) rounding "https://x" world gift up refl
      (signs-NotAdmin seven gift.authorization refl)

abbrev hold_fields : Fields
hold_fields =
    ("amount", text "+xx")
    ∷ ("reference_id", text "x")
    ∷ ("reference_type", text "proxy_order")
    ∷ ("user_id", text "xxxxxxx")
    ∷ []

abbrev hold_and_confirm : List (Request × Env)
hold_and_confirm =
    (record { endpoint = internal_hold; authorization = ""; body = some hold_fields }, up)
    ∷ (
      record { endpoint = internal_confirm_hold; authorization = ""; body = some hold_fields },
      fourth_fails,
    )
    ∷ []

serve_all-IsFunded_example :
    All IsFunded (serve_all (signs seven) rounding "https://x" hold_and_confirm world).wallets
serve_all-IsFunded_example =
    serve_all-IsFunded (signs seven) rounding "https://x" hold_and_confirm world
      (tt, (omega arith, tt)) ((omega arith, omega arith), tt)

abbrev wire : Wire (signs seven)
wire = record {
  print_uuid = unary;
  print_decimal = signed_unary;
  parse-print_uuid = parse_uuid-unary seven;
  parse-print_decimal = parse_decimal-signed_unary seven;
}

client-Agrees_example :
    let send = direct (signs seven) wire rounding "https://x" fourth_fails in
    let ref = reference (signs seven) wire rounding "https://x" fourth_fails "proxy_order" 4 in
    Agrees
      (λ txn. tt)
      (client_hold send (signs seven) wire 7 (pos 9) "proxy_order" 4 world)
      (hold_funds 7 (pos 9) (ref "") fourth_fails world)
    × Agrees
        (λ txn. tt)
        (client_confirm_hold send (signs seven) wire 7 (pos 9) "proxy_order" 4 "sold" world)
        (confirm_hold 7 (pos 9) (ref "sold") fourth_fails world)
    × Agrees
        (λ txn. tt)
        (client_release_hold send (signs seven) wire 7 (pos 9) "proxy_order" 4 "sold" world)
        (release_hold 7 (pos 9) (ref "sold") fourth_fails world)
client-Agrees_example =
    client-Agrees (signs seven) wire rounding "https://x" fourth_fails 7 (pos 9) "proxy_order" 4
      "sold" world
