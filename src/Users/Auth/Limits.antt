-- ===== src/Users/Auth/Limits.antt =====
-- How many sessions a user has, and whom a refresh lets in.
use cloudmini_reseller.Common.{
  ℕ, suc, ◌+◌, ◌≤◌, String, Bool, true, false, ◌&&◌, ◌≡◌, refl, none, some, List, [], ◌∷◌, arith,
  any, count_where, find_where, update_where, is_none, ◌==◌, Option-cases, inl, ==_iff, inr,
  if◌then◌else◌,
}
use cloudmini_reseller.Common.Int.{ℤ, ◌+ℤ◌, ◌≤ℤ◌}
use cloudmini_reseller.Common.Action.{Outcome, ok, err}
use cloudmini_reseller.Users.Entity.{Account, Session}
use cloudmini_reseller.Users.World.{Env, World, Error, Config, IsReliable, err_account_suspended}
use cloudmini_reseller.Users.Repo.{
  account_get_by_id, account_get_by_email, update_last_login, session_create, get_by_token,
  count_active_by_user, revoke_by_token, revoke_oldest_by_user, is_live, revoked, is_chosen,
  oldest_live, has_token, has_email, is_present,
}
use cloudmini_reseller.Users.Auth.Spending.{any-update_where}
use cloudmini_reseller.Users.Auth.{
  LoginRequest, RefreshTokenRequest, redeem, reissue, rotate, refresh, is_blocked, claims_of,
  LoginResult, authenticate, make_room, issue_access_token, open_session, enter, login,
}

-- The live sessions of a user, as the query counts them.
abbrev pub live_count : ℤ → ℕ → List Session → ℕ
live_count now user ss = count_where (is_live now user) ss

module _ (now : ℤ) where
  live_count-update_where :
      (user : ℕ) (p : Session → Bool) (ss : List Session)
      → live_count now user (update_where p (revoked now) ss) ≤ live_count now user ss
  live_count-update_where user p [] = omega arith
  live_count-update_where user p (s ∷ ss) = ground (arith, live_count-update_where user p ss)

  abbrev is_same : ℕ → Session → Session → Bool
  is_same user t s = is_live now user s && s.id == t.id

  any-oldest_live :
      (user : ℕ) (ss : List Session) (t : Session)
      → oldest_live now user ss ≡ some t
      → any (is_same user t) ss ≡ true
  any-oldest_live user [] t e = cc
  any-oldest_live user (s ∷ ss) t e = elim (Option-cases (oldest_live now user ss)) [
    | inl no_other ↦ ground arith
    | inr (u, other) ↦ ground (arith, any-oldest_live user ss u other, any-oldest_live user ss t)
  ]

  oldest_live-none :
      (user : ℕ) (ss : List Session) → oldest_live now user ss ≡ none → live_count now user ss ≡ 0
  oldest_live-none user [] e = refl
  oldest_live-none user (s ∷ ss) e = ground (arith, oldest_live-none user ss)

  live_count-drops :
      (user : ℕ) (t : Session) (ss : List Session)
      → any (is_same user t) ss ≡ true
      → suc (live_count now user (update_where (λ s. s.id == t.id) (revoked now) ss))
        ≤ live_count now user ss
  live_count-drops user t [] e = cc
  live_count-drops user t (s ∷ ss) e =
      ground
        (arith, live_count-drops user t ss, live_count-update_where user (λ s. s.id == t.id) ss)

  -- Revoking the oldest live session leaves one fewer, unless there is none.
  live_count-oldest :
      (user : ℕ) (ss : List Session)
      → 1 ≤ live_count now user ss
      → suc (
          live_count now user (update_where (is_chosen (oldest_live now user ss)) (revoked now) ss))
        ≤ live_count now user ss
  live_count-oldest user ss some_live = elim (Option-cases (oldest_live now user ss)) [
    | inl no_other ↦ absurd (omega (arith, oldest_live-none user ss no_other))
    | inr (t, e) ↦ rw e (live_count-drops user t ss (any-oldest_live user ss t e))
  ]

module _ (cfg : Config) (env : Env) where
  abbrev live : ℕ → World → ℕ
  live user w = live_count env.now user w.sessions

  authenticate-sessions :
      (email : String) (password : List ℕ) (w : World)
      → (authenticate email password env w).1.sessions ≡ w.sessions
  unfolding authenticate account_get_by_email
  authenticate-sessions email password w = ground arith

  -- Making room never adds a session, and leaves room for one of the user if it succeeds.
  make_room-live :
      (id user : ℕ) (w : World)
      → let (r, w') = make_room cfg id env w in
        (live user w' ≤ live user w)
        × (r ≡ ok tt
            → 1 ≤ cfg.max_sessions
            → live id w ≤ cfg.max_sessions
            → suc (live id w') ≤ cfg.max_sessions)
  unfolding make_room count_active_by_user revoke_oldest_by_user
  make_room-live id user w = ground (
    arith,
    live_count-update_where env.now user (is_chosen (oldest_live env.now id w.sessions)) w.sessions,
    live_count-oldest env.now id w.sessions,
  )

  open_session-live :
      (a : Account) (ip agent : String) (user : ℕ) (w : World)
      → live user (open_session cfg a ip agent env w).1
        ≤ live user w + (if a.id == user then 1 else 0)
  unfolding open_session session_create
  open_session-live a ip agent user w = ground arith

  enter-live :
      (req : LoginRequest) (a : Account) (user : ℕ) (w : World)
      → 1 ≤ cfg.max_sessions
      → ((id : ℕ) → live id w ≤ cfg.max_sessions)
      → live user (enter cfg req a env w).1 ≤ cfg.max_sessions
  unfolding enter issue_access_token update_last_login
  enter-live req a user w some_room fits =
      let w' = (make_room cfg a.id env w).1 in
      ground (
        arith,
        fits user,
        fits a.id,
        ==_iff a.id user,
        make_room-live a.id user w,
        open_session-live a req.ip_address req.user_agent user (record w' { calls = suc w'.calls }),
      )

  admitted :
      (req : LoginRequest) (user : ℕ) (r : Outcome Error Account) (w : World)
      → 1 ≤ cfg.max_sessions
      → ((id : ℕ) → live id w ≤ cfg.max_sessions)
      → let r' : Outcome Error LoginResult × World = elim r [
        | ok a ↦ enter cfg req a env w
        | err e ↦ (err e, w)
      ] in
        live user r'.1 ≤ cfg.max_sessions
  admitted req user (ok a) w some_room fits = enter-live req a user w some_room fits
  admitted req user (err e) w some_room fits = fits user

  -- If at least one session is allowed and no user has more live sessions than are allowed, then
  -- no user has more after a login, whatever fails.
  pub login-live :
      (req : LoginRequest) (user : ℕ) (w : World)
      → 1 ≤ cfg.max_sessions
      → ((id : ℕ) → live_count env.now id w.sessions ≤ cfg.max_sessions)
      → live_count env.now user (login cfg req env w).1.sessions ≤ cfg.max_sessions
  unfolding login
  login-live req user w some_room fits =
      let (r, w') = authenticate req.email req.password env w in
      admitted req user r w' some_room
        (λ id. rw (authenticate-sessions req.email req.password w) (fits id))

-- A refresh does not look at the account's status. While nothing fails, of an account that is
-- suspended or banned, a login is refused, but the holder of a token of one of its sessions that is
-- neither revoked nor past its time gets, from an address without a port, an access token for the account and a new refresh token.
refresh_blocked :
    (cfg : Config) (req : RefreshTokenRequest) (req' : LoginRequest) (env : Env) (w : World)
    (s : Session) (a : Account)
    → IsReliable env
    → find_where (has_token (env.hash_token req.refresh_token)) w.sessions ≡ some s
    → is_none s.revoked_at ≡ true
    → env.now ≤ℤ s.expires_at
    → find_where (is_present s.user_id) w.accounts ≡ some a
    → any (has_token (env.hash_token (env.tokens w.draws))) w.sessions ≡ false
    → find_where (λ b. has_email req'.email b && is_none b.deleted_at) w.accounts ≡ some a
    → is_blocked a.status ≡ true
    → env.is_inet req.ip_address ≡ true
    → ((login cfg req' env w).0 ≡ err err_account_suspended)
      × ((refresh cfg req env w).0
          ≡ ok (record {
            access_token = env.sign (claims_of cfg a env.now);
            refresh_token = env.tokens w.draws;
            expires_at = env.now +ℤ cfg.access_ttl;
            user_id = a.id;
            role = a.role;
          }))
unfolding login authenticate account_get_by_email refresh rotate reissue redeem issue_access_token
    open_session get_by_token account_get_by_id revoke_by_token session_create
refresh_blocked cfg req req' env w s a up found fresh in_time owner new_token known blocked
      address =
    (
      ground (arith, up w.calls),
      ground (
        arith,
        up w.calls,
        up (suc w.calls),
        up (suc (suc w.calls)),
        up (suc (suc (suc w.calls))),
        up (suc (suc (suc (suc w.calls)))),
        any-update_where (env.hash_token (env.tokens w.draws))
            (has_token (env.hash_token req.refresh_token)) env.now w.sessions,
      ),
    )
