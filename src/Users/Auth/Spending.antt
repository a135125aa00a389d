-- ===== src/Users/Auth/Spending.antt =====
-- Which operations keep a refresh token spent.
use cloudmini_reseller.Common.{
  ℕ, suc, String, Bool, true, false, ◌≡◌, refl, List, [], ◌∷◌, arith, All, any, update_where,
  is_none, eq_iff,
}
use mathlib.Core.Path.{subst, sym}
use cloudmini_reseller.Common.Int.{ℤ}
use cloudmini_reseller.Common.Keeps.{
  Keeps, Keeps-bind, Keeps-then, Keeps-if, Keeps-attempt, Keeps-ask, Keeps-pure,
}
use cloudmini_reseller.Users.Entity.{Account, Session}
use cloudmini_reseller.Users.World.{Env, World, Config, Action, Message, publish}
use cloudmini_reseller.Users.Repo.{
  account_create, account_get_by_id, account_get_by_email, update_last_login, session_create,
  get_by_token, count_active_by_user, revoke_by_token, revoke_oldest_by_user, has_token, revoked,
  revoke_where, is_chosen, oldest_live,
}
use cloudmini_reseller.Users.Auth.{
  RegisterRequest, validate_password, LoginRequest, RefreshTokenRequest, authenticate, make_room,
  issue_access_token, open_session, redeem, login, enter, reissue, rotate, login_result, register,
  new_session,
}

-- The hash belongs to a session, and to none that is not revoked.
abbrev pub IsSpent : String → List Session → Type 0
IsSpent h ss =
    (any (has_token h) ss ≡ true)
    × All (λ s. has_token h s ≡ true → is_none s.revoked_at ≡ false) ss

module _ (h : String) where
  abbrev UsedUp : Session → Type 0
  UsedUp s = has_token h s ≡ true → is_none s.revoked_at ≡ false

  abbrev Spent : World → Type 0
  Spent w = IsSpent h w.sessions

  pub any-update_where :
      (p : Session → Bool) (now : ℤ) (ss : List Session)
      → any (has_token h) (update_where p (revoked now) ss) ≡ any (has_token h) ss
  any-update_where p now [] = refl
  any-update_where p now (s ∷ ss) = ground (arith, any-update_where p now ss)

  All-update_where :
      (p : Session → Bool) (now : ℤ) (ss : List Session)
      → All UsedUp ss
      → All UsedUp (update_where p (revoked now) ss)
  All-update_where p now [] a = tt
  All-update_where p now (s ∷ ss) a = ground (arith, All-update_where p now ss a.1)

  revoke-Spent : (p : Env → World → Session → Bool) → Keeps Spent (revoke_where p)
  revoke-Spent p = record {
    at = λ env w i. ground (
      arith,
      any-update_where (p env (record w { calls = suc w.calls })) env.now w.sessions,
      All-update_where (p env (record w { calls = suc w.calls })) env.now w.sessions i.1,
    );
  }

  -- What leaves the sessions alone.
  pub same-Spent :
      {A : Type 0} (m : Action A)
      → ((env : Env) (w : World) → (m env w).1.sessions ≡ w.sessions)
      → Keeps Spent m
  same-Spent m same = record { at = λ env w i. subst (IsSpent h) (sym (same env w)) i }

  authenticate-Spent :
      (email : String) (password : List ℕ) → Keeps Spent (authenticate email password)
  unfolding authenticate account_get_by_email
  authenticate-Spent email password = same-Spent _ (λ env w. ground arith)

  count-Spent : (id : ℕ) → Keeps Spent (count_active_by_user id)
  unfolding count_active_by_user
  count-Spent id = same-Spent _ (λ env w. ground arith)

  update_last_login-Spent : (id : ℕ) → Keeps Spent (update_last_login id)
  unfolding update_last_login
  update_last_login-Spent id = same-Spent _ (λ env w. ground arith)

  redeem-Spent : (hashed : String) → Keeps Spent (redeem hashed)
  unfolding redeem get_by_token account_get_by_id
  redeem-Spent hashed = same-Spent _ (λ env w. ground arith)

  issue_access_token-Spent : (cfg : Config) (a : Account) → Keeps Spent (issue_access_token cfg a)
  unfolding issue_access_token
  issue_access_token-Spent cfg a = same-Spent _ (λ env w. refl)

  revoke_oldest-Spent : (id : ℕ) → Keeps Spent (revoke_oldest_by_user id)
  unfolding revoke_oldest_by_user
  revoke_oldest-Spent id = revoke-Spent (λ env w. is_chosen (oldest_live env.now id w.sessions))

  pub revoke_by_token-Spent : (hashed : String) → Keeps Spent (revoke_by_token hashed)
  unfolding revoke_by_token
  revoke_by_token-Spent hashed = revoke-Spent (λ env w. has_token hashed)

  session_create-Spent : (s : Session) → Keeps Spent (session_create s)
  unfolding session_create
  session_create-Spent s = record {
    at = λ env w i. ground (arith, eq_iff s.refresh_token h, eq_iff h s.refresh_token);
  }

  open_session-Spent :
      (cfg : Config) (a : Account) (ip agent : String) → Keeps Spent (open_session cfg a ip agent)
  unfolding open_session
  open_session-Spent cfg a ip agent = record {
    at = λ env w i. ground (
      arith,
      (session_create-Spent
            (new_session cfg a ip agent env (env.tokens w.draws) (env.uuids (suc w.draws)))).at
          env (record w { draws = suc (suc w.draws) }) i,
    );
  }

  make_room-Spent : (cfg : Config) (id : ℕ) → Keeps Spent (make_room cfg id)
  unfolding make_room
  make_room-Spent cfg id =
      search (Keeps-bind, count-Spent, Keeps-if, revoke_oldest-Spent, Keeps-pure)

  login_result-Spent :
      (cfg : Config) (a : Account) (access raw : String)
      → Keeps Spent (login_result cfg a access raw)
  login_result-Spent cfg a access raw = record { at = λ env w i. i }

  publish-Spent : (m : Message) → Keeps Spent (publish m)
  publish-Spent m = record { at = λ env w i. i }

  ruleset keeping = (
    Keeps-bind, Keeps-then, Keeps-if, Keeps-attempt, Keeps-ask, Keeps-pure, open_session-Spent,
    authenticate-Spent, count-Spent, update_last_login-Spent, redeem-Spent,
    issue_access_token-Spent, revoke_oldest-Spent, revoke_by_token-Spent, login_result-Spent,
    publish-Spent, make_room-Spent,
  )

  pub login-Spent : (cfg : Config) (req : LoginRequest) → Keeps Spent (login cfg req)
  unfolding login enter
  login-Spent cfg req = search keeping depth 12

  pub reissue-Spent :
      (cfg : Config) (req : RefreshTokenRequest) (a : Account) → Keeps Spent (reissue cfg req a)
  unfolding reissue
  reissue-Spent cfg req a = search keeping

  pub rotate-Spent :
      (cfg : Config) (hashed : String) (req : RefreshTokenRequest)
      → Keeps Spent (rotate cfg hashed req)
  unfolding rotate
  rotate-Spent cfg hashed req = search (keeping, reissue-Spent)

  pub register-Spent : (req : RegisterRequest) → Keeps Spent (register req)
  unfolding register validate_password account_get_by_email account_create
  register-Spent req = same-Spent (register req) (λ env w. ground arith)
