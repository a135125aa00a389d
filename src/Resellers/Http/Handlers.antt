-- ===== src/Resellers/Http/Handlers.antt =====
-- The handlers of reseller-service, behind their middleware. Rows stand newest first, as ORDER BY
-- created_at DESC returns them.
use cloudmini_reseller.Common.{
  ℕ, String, str_eq, Bool, ◌||◌, ◌==◌, Option, none, some, List, if◌then◌else◌, length,
  select_where,
}
use cloudmini_reseller.Common.Int.{ℤ}
use cloudmini_reseller.Common.Action.{ok, err, pure, ◌>>=◌, ◌>>◌, or_raise}
use cloudmini_reseller.Resellers.Entity.{
  ResellerStatus, pending, approved, suspended, ResellerAccount, SubAccount,
}
use cloudmini_reseller.Resellers.World.{Env, World, Action, call, call_failed}
use cloudmini_reseller.Resellers.Repo.{
  reseller_get_by_user_id, pricing_by_reseller, keys_by_reseller, webhooks_by_reseller,
}
use cloudmini_reseller.Resellers.Accounts.{
  create_reseller, approve_reseller, suspend_reseller, SetPricingRequest, set_pricing as price_at,
  create_sub_account as open_sub, set_credit_limit,
}
use cloudmini_reseller.Resellers.Keys.{create_api_key as draw_key, revoke_api_key as revoke}
use cloudmini_reseller.Resellers.Webhooks.{create_webhook as add_webhook, delete_webhook as drop}
use cloudmini_reseller.Web.{
  Response, respond, unauthorized, respond_json, no_content, bad_request, Claims, Libraries,
  or_else_of, must_parse_uuid, decimal_or_zero, Handler, demand, run_guarded,
}
use cloudmini_reseller.Web.Json.{Fields, text_field, ◌>>=◌ as ◌>>?◌}
use cloudmini_reseller.Web.Pages.{PageQuery, parse, new_meta, limit_offset}
use cloudmini_reseller.Resellers.Http.{
  Endpoint, Request, Data, Serve, try, guard_of, admin_list_resellers, admin_create_reseller,
  admin_approve_reseller, admin_suspend_reseller, admin_set_pricing, reseller_dashboard,
  list_sub_accounts, create_sub_account, set_user_credit, list_pricing, set_pricing, list_api_keys,
  create_api_key, revoke_api_key, list_webhooks, create_webhook, delete_webhook, account, dashboard,
  accounts, sub, subs, price, prices, new_api_key, api_keys, webhook, webhooks, reseller_body,
  PricingBody, pricing_body, key_body, webhook_body,
}

-- `_ = r.db.GetContext(…)`: a count that fails is 0.
abbrev count : (World → ℕ) → Action ℕ
count rows env w = let (r, w') = call env w in (elim r [ ok _ ↦ ok (rows w) | err e ↦ ok 0 ], w')

abbrev page : {A : Type 0} → (World → List A) → ℤ → ℕ → Action (List A)
page rows offset limit = do
  call
  λ env w. or_raise (limit_offset limit offset (rows w)) call_failed env w

abbrev status_text : ResellerStatus → String
status_text pending = "pending"
status_text approved = "approved"
status_text suspended = "suspended"

-- ResellerRepository.List; an empty status puts no condition.
abbrev has_status : String → ResellerAccount → Bool
has_status status a = str_eq status "" || str_eq (status_text a.status) status

unfoldable pub account_page : String → ℤ → ℕ → Action (List ResellerAccount × ℕ)
account_page status offset limit = do
  total ← count (λ w. length (select_where (has_status status) w.accounts))
  rows ← page (λ w. select_where (has_status status) w.accounts) offset limit
  pure (rows, total)

-- SubAccountRepository.ListByReseller
unfoldable pub sub_page : ℕ → ℤ → ℕ → Action (List SubAccount × ℕ)
sub_page reseller offset limit = do
  total ← count (λ w. length (select_where (λ (s : SubAccount). s.reseller_id == reseller) w.subs))
  rows ←
      page (λ w. select_where (λ (s : SubAccount). s.reseller_id == reseller) w.subs) offset limit
  pure (rows, total)

unfoldable pub show_resellers : String → PageQuery → Serve
show_resellers status q =
    let p = parse q in
    try (account_page status p.offset p.limit) >>= λ (rows, total).
    pure (respond_json 200 (accounts rows (new_meta p total)))

unfoldable pub put_approval : ℕ → Serve
put_approval id = do a ← try (approve_reseller id); pure (respond_json 200 (account a))

-- `_ = json.NewDecoder(r.Body).Decode(&req)`: a field that does not decode stays empty.
abbrev text_or_empty : String → Option Fields → String
text_or_empty name body = or_else_of "" (body >>? text_field name)

unfoldable pub put_suspension : ℕ → Option Fields → Serve
put_suspension id body = do try (suspend_reseller id (text_or_empty "reason" body)); pure no_content

unfoldable pub show_subs : ℕ → PageQuery → Serve
show_subs reseller q =
    let p = parse q in
    try (sub_page reseller p.offset p.limit) >>= λ (rows, total).
    pure (respond_json 200 (subs rows (new_meta p total)))

unfoldable pub show_prices : ℕ → Serve
show_prices reseller = do
  ps ← try (pricing_by_reseller reseller)
  pure (respond_json 200 (prices ps))

unfoldable pub show_keys : ℕ → Serve
show_keys reseller = do ks ← try (keys_by_reseller reseller); pure (respond_json 200 (api_keys ks))

unfoldable pub show_webhooks : ℕ → Serve
show_webhooks reseller = do
  hs ← try (webhooks_by_reseller reseller)
  pure (respond_json 200 (webhooks hs))

unfoldable pub post_webhook : ℕ → Option Fields → Serve
post_webhook reseller body = do
  req ← demand (body >>? webhook_body) bad_request
  h ← try (add_webhook reseller req.url req.secret req.events)
  pure (respond_json 201 (webhook h))

module _ (lib : Libraries) where
  -- mustResellerID: the account of the user of the token, whatever its status.
  unfoldable pub must_reseller : Claims → Handler Env World Data ResellerAccount
  must_reseller claims = do
    user ← demand (lib.parse_uuid claims.user_id) (respond 401 unauthorized)
    try (reseller_get_by_user_id user)

  unfoldable pub show_dashboard : Claims → Serve
  show_dashboard claims = do
    a ← try (reseller_get_by_user_id (must_parse_uuid lib claims.user_id))
    pure (respond_json 200 (dashboard a))

  unfoldable pub post_reseller : Option Fields → Serve
  post_reseller body = do
    req ← demand (body >>? reseller_body) bad_request
    a ← try (
        create_reseller (record {
          user_id = must_parse_uuid lib req.user_id;
          company_name = req.company_name;
          commission_pct = decimal_or_zero lib req.commission_pct;
        }))
    pure (respond_json 201 (account a))

  abbrev priced : ℕ → ℕ → PricingBody → SetPricingRequest
  priced reseller product req = record {
    reseller_id = reseller;
    product_id = product;
    product_type = req.product_type;
    cost_price = decimal_or_zero lib req.cost_price;
    floor_price = decimal_or_zero lib req.floor_price;
    sell_price = decimal_or_zero lib req.sell_price;
  }

  unfoldable pub put_pricing : ℕ → ℕ → Option Fields → Serve
  put_pricing reseller product body = do
    req ← demand (body >>? pricing_body) bad_request
    p ← try (price_at (priced reseller product req))
    pure (respond_json 200 (price p))

  -- AdminSetPricing, whose product is in the body too.
  unfoldable pub put_admin_pricing : ℕ → Option Fields → Serve
  put_admin_pricing reseller body = do
    product ← demand (body >>? text_field "product_id") bad_request
    put_pricing reseller (must_parse_uuid lib product) body

  unfoldable pub post_sub : ℕ → Option Fields → Serve
  post_sub reseller body = do
    user ← demand (body >>? text_field "user_id") bad_request
    limit ← demand (body >>? text_field "credit_limit") bad_request
    s ← try (
        open_sub (record {
          reseller_id = reseller;
          user_id = must_parse_uuid lib user;
          credit_limit = decimal_or_zero lib limit;
        }))
    pure (respond_json 201 (sub s))

  -- A body that does not decode sets the limit to 0.
  unfoldable pub put_credit : ℕ → ℕ → Option Fields → Serve
  put_credit reseller user body = do
    try (set_credit_limit user reseller (decimal_or_zero lib (text_or_empty "credit_limit" body)))
    pure no_content

  -- A time that does not parse is dropped.
  abbrev expiry_of : Option String → Option ℤ
  expiry_of none = none
  expiry_of (some s) = if str_eq s "" then none else lib.parse_time s

  unfoldable pub post_key : ℕ → Option Fields → Serve
  post_key reseller body = do
    req ← demand (body >>? key_body) bad_request
    k ← try (draw_key reseller req.name (expiry_of req.expires_at))
    pure (respond_json 201 (new_api_key k))

  unfoldable pub delete_key : ℕ → ℕ → Serve
  delete_key reseller id = do try (revoke id reseller); pure no_content

  unfoldable pub remove_webhook : ℕ → ℕ → Serve
  remove_webhook reseller id = do try (drop id reseller); pure no_content

  abbrev pub of_reseller : Claims → (ℕ → Serve) → Serve
  of_reseller claims h = must_reseller claims >>= λ a. h a.id

  -- The handler of an endpoint.
  unfoldable pub handle : Endpoint → Claims → Option Fields → Serve
  handle (admin_list_resellers status q) claims body = show_resellers status q
  handle admin_create_reseller claims body = post_reseller body
  handle (admin_approve_reseller id) claims body = put_approval (must_parse_uuid lib id)
  handle (admin_suspend_reseller id) claims body = put_suspension (must_parse_uuid lib id) body
  handle (admin_set_pricing id) claims body = put_admin_pricing (must_parse_uuid lib id) body
  handle reseller_dashboard claims body = show_dashboard claims
  handle (list_sub_accounts q) claims body = of_reseller claims (λ r. show_subs r q)
  handle create_sub_account claims body = of_reseller claims (λ r. post_sub r body)
  handle (set_user_credit user) claims body =
      of_reseller claims (λ r. put_credit r (must_parse_uuid lib user) body)
  handle list_pricing claims body = of_reseller claims show_prices
  handle (set_pricing product) claims body =
      of_reseller claims (λ r. put_pricing r (must_parse_uuid lib product) body)
  handle list_api_keys claims body = of_reseller claims show_keys
  handle create_api_key claims body = of_reseller claims (λ r. post_key r body)
  handle (revoke_api_key id) claims body =
      of_reseller claims (λ r. delete_key r (must_parse_uuid lib id))
  handle list_webhooks claims body = of_reseller claims show_webhooks
  handle create_webhook claims body = of_reseller claims (λ r. post_webhook r body)
  handle (delete_webhook id) claims body =
      of_reseller claims (λ r. remove_webhook r (must_parse_uuid lib id))

  unfoldable pub serve : Request → Env → World → Response Data × World
  serve req =
      run_guarded lib (guard_of req.endpoint) req.authorization
        (λ claims. handle req.endpoint claims req.body)
