-- ===== src/Users/Http/Roles.antt =====
-- Who can change the role of an account.
use mathlib.Core.Path.{subst}
use cloudmini_reseller.Common.{
  ℕ, ◌≤◌, String, Bool, true, false, ◌≡◌, refl, ◌∙◌, Option, none, some, List, [], ◌∷◌, arith,
  update_where, count_where,
}
use cloudmini_reseller.Common.Action.{ok}
use cloudmini_reseller.Common.Keeps.{Keeps, Keeps-bind, Keeps-then, Keeps-pure}
use cloudmini_reseller.Users.Entity.{Role, user, super_admin, AccountStatus, Account}
use cloudmini_reseller.Users.World.{Env, World, Config, Action}
use cloudmini_reseller.Users.Repo.{account_update_role, is_account}
use cloudmini_reseller.Users.Profile as Profile
use cloudmini_reseller.Web.{
  Libraries, must_parse_uuid, admit, run_guarded, finish-keeps, Keeps-or_respond, Keeps-demand,
  Keeps-reject_if,
}
use cloudmini_reseller.Web.Json.{Fields}
use cloudmini_reseller.Web.Guards.{NotAdmin, not_admin}
use cloudmini_reseller.Users.Http.{
  Endpoint, Request, Data, guard_of, register, login, refresh_token, logout, get_me, update_me,
  change_password, list_api_keys, create_api_key, revoke_api_key, setup_2fa, enable_2fa,
  disable_2fa, admin_list_users, admin_get_user, admin_update_status, admin_update_role,
  admin_update_profile, admin_delete_user, admin_disable_2fa,
}
use cloudmini_reseller.Users.Http.Handlers.{
  post_register, post_login, post_refresh, post_logout, show_account, put_profile, put_password,
  show_keys, post_key, delete_key, post_setup, post_code, show_accounts, put_status, put_role,
  delete_account, put_2fa_disabled, set_status, set_role, handle, serve,
}
use cloudmini_reseller.Users.Http.Rows.{IsAboutRoles, Holds, list_keys-Keeps}
use cloudmini_reseller.Users.Http.Cases.{
  register-Keeps, login-Keeps, refresh-Keeps, logout-Keeps, update_profile-Keeps, get_profile-Keeps,
  change_password-Keeps, update_status-Keeps, soft_delete_account-Keeps, setup_totp-Keeps,
  enable_totp-Keeps, disable_totp-Keeps, admin_disable_totp-Keeps, create_api_key-Keeps,
  revoke_api_key-Keeps, account_list-Keeps,
}

module _ {Q : List Account → Type 0} (law : IsAboutRoles Q) where
  ruleset handling = (
    Keeps-bind, Keeps-then, Keeps-pure, Keeps-or_respond, Keeps-demand, Keeps-reject_if,
    list_keys-Keeps, register-Keeps, login-Keeps, refresh-Keeps, logout-Keeps, update_profile-Keeps,
    get_profile-Keeps, change_password-Keeps, soft_delete_account-Keeps, setup_totp-Keeps,
    enable_totp-Keeps, disable_totp-Keeps, admin_disable_totp-Keeps, create_api_key-Keeps,
    revoke_api_key-Keeps, account_list-Keeps,
  )

  set_status-Keeps : (id : ℕ) (s : Option AccountStatus) → Keeps (Holds Q) (set_status id s)
  set_status-Keeps id none = record { at = λ env w q. q }
  set_status-Keeps id (some s) = update_status-Keeps law id s

  set_role-Keeps :
      (id : ℕ) (r : Option Role)
      → ((k : ℕ) (r : Role) → Keeps (Holds Q) (Profile.update_role k r))
      → Keeps (Holds Q) (set_role id r)
  set_role-Keeps id none roles = record { at = λ env w q. q }
  set_role-Keeps id (some r) roles = roles id r

  code-Keeps :
      (operation : String → Action (Unit {0})) (body : Option Fields)
      → ((code : String) → Keeps (Holds Q) (operation code))
      → Keeps (Holds Q) (post_code operation body)
  unfolding post_code
  code-Keeps operation body keeps = search handling depth 12

  role-Keeps :
      (id : ℕ) (body : Option Fields)
      → ((k : ℕ) (r : Role) → Keeps (Holds Q) (Profile.update_role k r))
      → Keeps (Holds Q) (put_role id body)
  unfolding put_role
  role-Keeps id body roles = search (handling, set_role-Keeps) depth 12

  handle-Keeps :
      (cfg : Config) (lib : Libraries) (e : Endpoint) (me : ℕ) (r : Request)
      → ((id : String)
          → e ≡ admin_update_role id
          → (k : ℕ) (r : Role) → Keeps (Holds Q) (Profile.update_role k r))
      → Keeps (Holds Q) (handle cfg lib e me r)
  unfolding handle post_register post_login post_refresh post_logout show_account put_profile
      put_password show_keys post_key delete_key post_setup show_accounts put_status put_role
      delete_account put_2fa_disabled
  handle-Keeps cfg lib register me r roles = search handling depth 12
  handle-Keeps cfg lib login me r roles = search handling depth 12
  handle-Keeps cfg lib refresh_token me r roles = search handling depth 12
  handle-Keeps cfg lib logout me r roles = search handling depth 12
  handle-Keeps cfg lib get_me me r roles = search handling depth 12
  handle-Keeps cfg lib update_me me r roles = search handling depth 12
  handle-Keeps cfg lib change_password me r roles = search handling depth 12
  handle-Keeps cfg lib list_api_keys me r roles = search handling depth 12
  handle-Keeps cfg lib create_api_key me r roles = search handling depth 12
  handle-Keeps cfg lib (revoke_api_key id) me r roles = search handling depth 12
  handle-Keeps cfg lib setup_2fa me r roles = search handling depth 12
  handle-Keeps cfg lib enable_2fa me r roles = code-Keeps _ r.body (enable_totp-Keeps law me)
  handle-Keeps cfg lib disable_2fa me r roles = code-Keeps _ r.body (disable_totp-Keeps law me)
  handle-Keeps cfg lib (admin_list_users q) me r roles = search handling depth 12
  handle-Keeps cfg lib (admin_get_user id) me r roles = search handling depth 12
  handle-Keeps cfg lib (admin_update_status id) me r roles =
      search (handling, set_status-Keeps) depth 12
  handle-Keeps cfg lib (admin_update_role id) me r roles =
      role-Keeps (must_parse_uuid lib id) r.body (roles id refl)
  handle-Keeps cfg lib (admin_update_profile id) me r roles = search handling depth 12
  handle-Keeps cfg lib (admin_delete_user id) me r roles = search handling depth 12
  handle-Keeps cfg lib (admin_disable_2fa id) me r roles = search handling depth 12

-- The accounts that are more than users, with their roles.
abbrev pub privileged : List Account → List (ℕ × Role)
privileged [] = []
privileged (a ∷ xs) =
    let rest = privileged xs in elim a.role [ user ↦ rest | role ↦ (a.id, role) ∷ rest ]

privileged-update_where :
    (p : Account → Bool) (f : Account → Account) (xs : List Account)
    → ((a : Account) → (f a).id ≡ a.id)
    → ((a : Account) → (f a).role ≡ a.role)
    → privileged (update_where p f xs) ≡ privileged xs
privileged-update_where p f [] same_id same_role = refl
privileged-update_where p f (a ∷ xs) same_id same_role =
    ground (arith, same_id a, same_role a, privileged-update_where p f xs same_id same_role)

privileged-IsAboutRoles : (ps : List (ℕ × Role)) → IsAboutRoles (λ xs. privileged xs ≡ ps)
privileged-IsAboutRoles ps = record {
  added = λ a xs is_user kept. ground (arith, is_user, kept);
  updated =
      λ p f xs same_id same_role kept. privileged-update_where p f xs same_id same_role ∙ kept;
}

-- A request without the valid token of an administrator gives nobody a role: after it the accounts
-- that are more than users, and their roles, are those of before, whatever fails.
pub serve_user-privileged :
    (cfg : Config) (lib : Libraries) (req : Request) (env : Env) (w : World)
    → NotAdmin lib req.authorization
    → privileged (serve cfg lib req env w).1.accounts ≡ privileged w.accounts
unfolding serve run_guarded guard_of
serve_user-privileged cfg lib req env w no_admin =
    finish-keeps {Q = Holds (λ xs. privileged xs ≡ privileged w.accounts)}
      (admit lib (guard_of req.endpoint) req.authorization)
      (λ claims. handle cfg lib req.endpoint (must_parse_uuid lib claims.user_id) req)
      (λ claims passed.
        handle-Keeps (privileged-IsAboutRoles (privileged w.accounts)) cfg lib req.endpoint
          (must_parse_uuid lib claims.user_id) req
          (λ id is_update k r. absurd (
            not_admin lib req.authorization claims no_admin (
              subst (λ e. admit {P = Data} lib (guard_of e) req.authorization ≡ ok claims) is_update
                passed))))
      env w refl

abbrev is_super : Account → Bool
is_super a = elim a.role [ super_admin ↦ true | _ ↦ false ]

abbrev pub supers : List Account → ℕ
supers xs = count_where is_super xs

supers-update_where :
    (p : Account → Bool) (f : Account → Account) (xs : List Account)
    → ((a : Account) → is_super (f a) ≡ true → is_super a ≡ true)
    → supers (update_where p f xs) ≤ supers xs
supers-update_where p f [] fewer = omega arith
supers-update_where p f (a ∷ xs) fewer = ground (arith, fewer a, supers-update_where p f xs fewer)

supers-IsAboutRoles : (n : ℕ) → IsAboutRoles (λ xs. supers xs ≤ n)
supers-IsAboutRoles n = record {
  added = λ a xs is_user kept. ground (arith, is_user, kept);
  updated = λ p f xs same_id same_role kept.
      omega (arith, kept, supers-update_where p f xs (λ a. ground (arith, same_role a)));
}

update_role-supers :
    (n k : ℕ) (r : Role) → Keeps (Holds (λ xs. supers xs ≤ n)) (Profile.update_role k r)
unfolding Profile.update_role account_update_role
update_role-supers n k super_admin = record { at = λ env w kept. kept }
update_role-supers n k r = record {
  at = λ env w kept. ground (
    arith,
    kept,
    supers-update_where (is_account k) (λ a. record a { role = r }) w.accounts (λ a. ground arith),
  );
}

unfoldable pub serve_all : Config → Libraries → List (Request × Env) → World → World
serve_all cfg lib [] w = w
serve_all cfg lib ((req, env) ∷ rest) w = serve_all cfg lib rest (serve cfg lib req env w).1

-- No history of requests, of administrators and super administrators too, makes a super
-- administrator: their number never grows, whatever tokens are sent and whatever fails.
pub serve_all-supers :
    (cfg : Config) (lib : Libraries) (rs : List (Request × Env)) (w : World)
    → supers (serve_all cfg lib rs w).accounts ≤ supers w.accounts
unfolding serve_all serve run_guarded
serve_all-supers cfg lib [] w = omega arith
serve_all-supers cfg lib ((req, env) ∷ rest) w =
    let n = supers w.accounts in
    let once : supers (serve cfg lib req env w).1.accounts ≤ n =
      finish-keeps {Q = Holds (λ xs. supers xs ≤ n)}
        (admit lib (guard_of req.endpoint) req.authorization)
        (λ claims. handle cfg lib req.endpoint (must_parse_uuid lib claims.user_id) req)
        (λ claims passed.
          handle-Keeps (supers-IsAboutRoles n) cfg lib req.endpoint
            (must_parse_uuid lib claims.user_id) req (λ id e. update_role-supers n))
        env w (omega arith) in
    omega (arith, once, serve_all-supers cfg lib rest (serve cfg lib req env w).1)
