-- ===== src/Users/Auth/Rotation.antt =====
-- A refresh token works once.
use cloudmini_reseller.Common.{
  ℕ, String, Bool, true, false, ◌≡◌, some, List, [], ◌∷◌, arith, All, any, find_where, update_where,
  is_none, Option-cases, inl, inr, ◌∙◌,
}
use mathlib.Core.Path.{subst, sym}
use cloudmini_reseller.Common.Int.{ℤ}
use cloudmini_reseller.Common.Action.{Outcome, ok, err, ◌>>◌}
use cloudmini_reseller.Common.Keeps.{bind-ok}
use cloudmini_reseller.Users.Entity.{Role, AccountStatus, Account, Session}
use cloudmini_reseller.Users.World.{Env, World, Error, Config}
use cloudmini_reseller.Users.Repo.{
  account_get_by_id, get_by_token, revoke_by_token, has_token, revoked, account_update,
  account_update_status, account_update_role, account_soft_delete,
}
use cloudmini_reseller.Users.Profile.{change_password, update_status, update_role, soft_delete}
use cloudmini_reseller.Users.Auth.{
  RegisterRequest, validate_password, LoginRequest, RefreshTokenRequest, LoginResult, redeem, login,
  reissue, rotate, refresh, logout, register,
}
use cloudmini_reseller.Users.Auth.Spending.{
  IsSpent, any-update_where, same-Spent, register-Spent, login-Spent, rotate-Spent, reissue-Spent,
  revoke_by_token-Spent,
}

sessions-change_password :
    (id : ℕ) (old new : List ℕ) (env : Env) (w : World)
    → (change_password id old new env w).1.sessions ≡ w.sessions
unfolding change_password account_get_by_id validate_password account_update
sessions-change_password id old new env w = ground arith

sessions-update_status :
    (id : ℕ) (s : AccountStatus) (env : Env) (w : World)
    → (update_status id s env w).1.sessions ≡ w.sessions
unfolding update_status account_update_status
sessions-update_status id s env w = ground arith

sessions-update_role :
    (id : ℕ) (r : Role) (env : Env) (w : World) → (update_role id r env w).1.sessions ≡ w.sessions
unfolding update_role account_update_role
sessions-update_role id r env w = ground arith

sessions-soft_delete :
    (id : ℕ) (env : Env) (w : World) → (soft_delete id env w).1.sessions ≡ w.sessions
unfolding soft_delete account_soft_delete
sessions-soft_delete id env w = ground arith

-- What users and administrators do; a request comes with the environment that it meets.
pub data Request : Type 0 where
  registers : RegisterRequest → Request
  logs_in : LoginRequest → Request
  refreshes : RefreshTokenRequest → Request
  logs_out : String → Request
  changes_password : ℕ → List ℕ → List ℕ → Request
  sets_status : ℕ → AccountStatus → Request
  sets_role : ℕ → Role → Request
  deletes : ℕ → Request

unfoldable pub serve : Config → Request → Env → World → World
serve cfg (registers req) env w = (register req env w).1
serve cfg (logs_in req) env w = (login cfg req env w).1
serve cfg (refreshes req) env w = (refresh cfg req env w).1
serve cfg (logs_out raw) env w = (logout raw env w).1
serve cfg (changes_password id old new) env w = (change_password id old new env w).1
serve cfg (sets_status id s) env w = (update_status id s env w).1
serve cfg (sets_role id r) env w = (update_role id r env w).1
serve cfg (deletes id) env w = (soft_delete id env w).1

unfoldable pub serve_all : Config → List (Request × Env) → World → World
serve_all cfg [] w = w
serve_all cfg ((q, env) ∷ qs) w = serve_all cfg qs (serve cfg q env w)

serve-Spent :
    (h : String) (cfg : Config) (q : Request) (env : Env) (w : World)
    → IsSpent h w.sessions
    → IsSpent h (serve cfg q env w).sessions
unfolding serve refresh logout
serve-Spent h cfg (registers req) env w i = (register-Spent h req).at env w i
serve-Spent h cfg (logs_in req) env w i = (login-Spent h cfg req).at env w i
serve-Spent h cfg (refreshes req) env w i = (rotate-Spent h cfg _ req).at env w i
serve-Spent h cfg (logs_out raw) env w i = (revoke_by_token-Spent h _).at env w i
serve-Spent h cfg (changes_password id old new) env w i =
    (same-Spent h (change_password id old new) (sessions-change_password id old new)).at env w i
serve-Spent h cfg (sets_status id s) env w i =
    (same-Spent h (update_status id s) (sessions-update_status id s)).at env w i
serve-Spent h cfg (sets_role id r) env w i =
    (same-Spent h (update_role id r) (sessions-update_role id r)).at env w i
serve-Spent h cfg (deletes id) env w i =
    (same-Spent h (soft_delete id) (sessions-soft_delete id)).at env w i

serve_all-Spent :
    (h : String) (cfg : Config) (qs : List (Request × Env)) (w : World)
    → IsSpent h w.sessions
    → IsSpent h (serve_all cfg qs w).sessions
unfolding serve_all
serve_all-Spent h cfg [] w i = i
serve_all-Spent h cfg ((q, env) ∷ qs) w i =
    serve_all-Spent h cfg qs (serve cfg q env w) (serve-Spent h cfg q env w i)

abbrev pub IsRefused : {A : Type 0} → Outcome Error A → Type 0
IsRefused (ok a) = ⊥
IsRefused (err e) = Unit

any-find_where :
    (p : Session → Bool) (ss : List Session) (s : Session)
    → find_where p ss ≡ some s
    → any p ss ≡ true
any-find_where p [] s e = cc
any-find_where p (x ∷ ss) s e = ground (arith, any-find_where p ss s)

redeem-ok :
    (h : String) (env : Env) (w : World) {a : Account}
    → (redeem h env w).0 ≡ ok a
    → any (has_token h) (redeem h env w).1.sessions ≡ true
unfolding redeem get_by_token account_get_by_id
redeem-ok h env w e = elim (Option-cases (find_where (has_token h) w.sessions)) [
  | inl none_found ↦ ground arith
  | inr (s, found) ↦ ground (arith, any-find_where (has_token h) w.sessions s found)
]

revoked-All :
    (h : String) (now : ℤ) (ss : List Session)
    → All
        (λ s. has_token h s ≡ true → is_none s.revoked_at ≡ false)
        (update_where (has_token h) (revoked now) ss)
revoked-All h now [] = tt
revoked-All h now (s ∷ ss) = ground (arith, revoked-All h now ss)

revoke_by_token-ok :
    (h : String) (env : Env) (w : World)
    → (revoke_by_token h env w).0 ≡ ok tt
    → any (has_token h) w.sessions ≡ true
    → IsSpent h (revoke_by_token h env w).1.sessions
unfolding revoke_by_token
revoke_by_token-ok h env w e found =
    ground
      (arith, any-update_where h (has_token h) env.now w.sessions, revoked-All h env.now w.sessions)

-- A refresh that succeeds has spent its token.
rotate_spends :
    (cfg : Config) (h : String) (req : RefreshTokenRequest) (env : Env) (w : World)
    {res : LoginResult}
    → (rotate cfg h req env w).0 ≡ ok res
    → IsSpent h (rotate cfg h req env w).1.sessions
unfolding rotate
rotate_spends cfg h req env w e =
    let w1 = (redeem h env w).1 in
    let (a, redeemed, rest, whole) =
      bind-ok (redeem h) (λ a. revoke_by_token h >> reissue cfg req a) env w e in
    let (_, done, rest', whole') =
      bind-ok (revoke_by_token h) (λ _. reissue cfg req a) env w1 rest in
    let spent = revoke_by_token-ok h env w1 done (redeem-ok h env w redeemed) in
    subst (λ r. IsSpent h r.1.sessions) (sym (whole ∙ whole'))
      ((reissue-Spent h cfg req a).at env (revoke_by_token h env w1).1 spent)

find_spent :
    (h : String) (ss : List Session) (s : Session)
    → All (λ s. has_token h s ≡ true → is_none s.revoked_at ≡ false) ss
    → find_where (has_token h) ss ≡ some s
    → is_none s.revoked_at ≡ false
find_spent h [] s a e = cc
find_spent h (x ∷ ss) s a e = ground (arith, find_spent h ss s a.1)

redeem_spent :
    (h : String) (env : Env) (w : World) → IsSpent h w.sessions → IsRefused (redeem h env w).0
unfolding redeem get_by_token
redeem_spent h env w i = elim (Option-cases (find_where (has_token h) w.sessions)) [
  | inl none_found ↦ ground arith
  | inr (s, found) ↦ ground (arith, find_spent h w.sessions s i.1 found)
]

rotate-IsRefused :
    (cfg : Config) (h : String) (req : RefreshTokenRequest) (env : Env) (w : World)
    → IsSpent h w.sessions
    → IsRefused (rotate cfg h req env w).0
unfolding rotate
rotate-IsRefused cfg h req env w i = ground (arith, redeem_spent h env w i)

-- A refresh token works once. After a refresh with it has succeeded, and after any further requests
-- in any order, whatever fails, a refresh with a token of the same hash is refused.
pub refresh_once :
    (cfg : Config) (req req' : RefreshTokenRequest) (env env' : Env) (w : World) {res : LoginResult}
    → (refresh cfg req env w).0 ≡ ok res
    → env'.hash_token req'.refresh_token ≡ env.hash_token req.refresh_token
    → (qs : List (Request × Env))
    → IsRefused (refresh cfg req' env' (serve_all cfg qs (refresh cfg req env w).1)).0
unfolding refresh
refresh_once cfg req req' env env' w e same qs =
    let w' = (refresh cfg req env w).1 in
    let h = env.hash_token req.refresh_token in
    subst (λ k. IsRefused (rotate cfg k req' env' (serve_all cfg qs w')).0) (sym same)
      (rotate-IsRefused cfg h req' env' (serve_all cfg qs w')
        (serve_all-Spent h cfg qs w' (rotate_spends cfg h req env w e)))
