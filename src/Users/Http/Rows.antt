-- ===== src/Users/Http/Rows.antt =====
-- What the repositories of user-service keep of the roles of accounts.
use cloudmini_reseller.Common.{
  ℕ, String, Bool, ◌≡◌, refl, Option, some, List, ◌∷◌, arith, update_where,
}
use cloudmini_reseller.Common.Keeps.{
  Keeps, Keeps-bind, Keeps-then, Keeps-if, Keeps-pure, Keeps-ask, Keeps-attempt, Keeps-or_else,
  Keeps-raise_if,
}
use cloudmini_reseller.Users.Entity.{user, Account, AccountStatus, Session, ApiKey}
use cloudmini_reseller.Users.World.{Env, World, Action, publish, ask, draw, Message}
use cloudmini_reseller.Users.Repo.{
  account_create, account_get_by_id, account_get_by_email, account_update, account_update_status,
  update_last_login, update_totp, account_soft_delete, session_create, get_by_token,
  count_active_by_user, revoke_by_token, revoke_oldest_by_user, key_create, list_keys_by_user,
  key_revoke, is_account, update_accounts,
}
use cloudmini_reseller.Users.Auth.{new_account, RegisterRequest, validate_password, is_taken}

-- A property of the accounts that only depends on their ids and roles, and not on the accounts of
-- ordinary users that are added.
pub record IsAboutRoles (Q : List Account → Type 0) : Type 0 where
  pub added : (a : Account) (xs : List Account) → a.role ≡ user → Q xs → Q (a ∷ xs)
  pub updated :
      (p : Account → Bool) (f : Account → Account) (xs : List Account)
      → ((a : Account) → (f a).id ≡ a.id)
      → ((a : Account) → (f a).role ≡ a.role)
      → Q xs
      → Q (update_where p f xs)

abbrev pub Holds : (List Account → Type 0) → World → Type 0
Holds Q w = Q w.accounts

module _ {Q : List Account → Type 0} (law : IsAboutRoles Q) where
  pub same :
      {A : Type 0} (m : Action A)
      → ((env : Env) (w : World) → (m env w).1.accounts ≡ w.accounts)
      → Keeps (Holds Q) m
  same m e = record { at = λ env w q. rw (e env w) q }

  pub create-Keeps :
      (req : RegisterRequest) (hash : String) (id : ℕ)
      → Keeps (Holds Q) (account_create (new_account req hash id))
  unfolding account_create
  create-Keeps req hash id = record {
    at = λ env w q. ground (arith, law.added (new_account req hash id) w.accounts refl q, q);
  }

  pub get_by_id-Keeps : (id : ℕ) → Keeps (Holds Q) (account_get_by_id id)
  unfolding account_get_by_id
  get_by_id-Keeps id = same _ (λ env w. ground arith)

  pub write-Keeps :
      (id : ℕ) (f : Account → Account)
      → ((a : Account) → (f a).id ≡ a.id)
      → ((a : Account) → (f a).role ≡ a.role)
      → Keeps (Holds Q) (update_accounts id f)
  write-Keeps id f same_id same_role = record {
    at = λ env w q. ground (arith, q, law.updated (is_account id) f w.accounts same_id same_role q);
  }

  pub update-Keeps : (a : Account) → Keeps (Holds Q) (account_update a)
  unfolding account_update
  update-Keeps a = write-Keeps a.id _ (λ b. refl) (λ b. refl)

  pub status-Keeps : (id : ℕ) (s : AccountStatus) → Keeps (Holds Q) (account_update_status id s)
  unfolding account_update_status
  status-Keeps id s = write-Keeps id _ (λ b. refl) (λ b. refl)

  pub totp-Keeps :
      (id : ℕ) (enabled : Bool) (secret : Option String)
      → Keeps (Holds Q) (update_totp id enabled secret)
  unfolding update_totp
  totp-Keeps id enabled secret = write-Keeps id _ (λ b. refl) (λ b. refl)

  pub last_login-Keeps : (id : ℕ) → Keeps (Holds Q) (update_last_login id)
  unfolding update_last_login
  last_login-Keeps id = record {
    at = λ env w q. ground (
      arith,
      q,
      law.updated (is_account id) (λ a. record a { last_login_at = some env.now }) w.accounts
          (λ b. refl) (λ b. refl) q,
    );
  }

  pub soft_delete-Keeps : (id : ℕ) → Keeps (Holds Q) (account_soft_delete id)
  unfolding account_soft_delete
  soft_delete-Keeps id = record {
    at = λ env w q. ground (
      arith,
      q,
      law.updated (is_account id) (λ a. record a { deleted_at = some env.now }) w.accounts
          (λ b. refl) (λ b. refl) q,
    );
  }

  pub get_by_email-Keeps : (email : String) → Keeps (Holds Q) (account_get_by_email email)
  unfolding account_get_by_email
  get_by_email-Keeps email = same _ (λ env w. ground arith)

  pub taken-Keeps : (email : String) → Keeps (Holds Q) (is_taken email)
  unfolding account_get_by_email
  taken-Keeps email = same _ (λ env w. ground arith)

  pub session_create-Keeps : (s : Session) → Keeps (Holds Q) (session_create s)
  unfolding session_create
  session_create-Keeps s = same _ (λ env w. ground arith)

  pub get_by_token-Keeps : (h : String) → Keeps (Holds Q) (get_by_token h)
  unfolding get_by_token
  get_by_token-Keeps h = same _ (λ env w. ground arith)

  pub count-Keeps : (id : ℕ) → Keeps (Holds Q) (count_active_by_user id)
  unfolding count_active_by_user
  count-Keeps id = same _ (λ env w. ground arith)

  pub revoke-Keeps : (h : String) → Keeps (Holds Q) (revoke_by_token h)
  unfolding revoke_by_token
  revoke-Keeps h = same _ (λ env w. ground arith)

  pub revoke_oldest-Keeps : (id : ℕ) → Keeps (Holds Q) (revoke_oldest_by_user id)
  unfolding revoke_oldest_by_user
  revoke_oldest-Keeps id = same _ (λ env w. ground arith)

  pub key_create-Keeps : (k : ApiKey) → Keeps (Holds Q) (key_create k)
  unfolding key_create
  key_create-Keeps k = same _ (λ env w. ground arith)

  pub list_keys-Keeps : (id : ℕ) → Keeps (Holds Q) (list_keys_by_user id)
  unfolding list_keys_by_user
  list_keys-Keeps id = same _ (λ env w. ground arith)

  pub key_revoke-Keeps : (id : ℕ) → Keeps (Holds Q) (key_revoke id)
  unfolding key_revoke
  key_revoke-Keeps id = same _ (λ env w. ground arith)

  pub publish-Keeps : (m : Message) → Keeps (Holds Q) (publish m)
  publish-Keeps m = same _ (λ env w. refl)

  pub ask-Keeps : {A : Type 0} (f : Env → ℕ → A) → Keeps (Holds Q) (ask f)
  ask-Keeps f = same _ (λ env w. refl)

  pub draw-Keeps : {A : Type 0} (f : Env → ℕ → A) → Keeps (Holds Q) (draw f)
  draw-Keeps f = same _ (λ env w. refl)

  pub password-Keeps : (password : List ℕ) → Keeps (Holds Q) (validate_password password)
  unfolding validate_password
  password-Keeps password = same _ (λ env w. refl)

  pub ruleset keeping = (
    Keeps-bind, Keeps-then, Keeps-if, Keeps-pure, Keeps-ask, Keeps-attempt, Keeps-or_else,
    Keeps-raise_if, create-Keeps, get_by_id-Keeps, update-Keeps, status-Keeps, totp-Keeps,
    last_login-Keeps, soft_delete-Keeps, get_by_email-Keeps, taken-Keeps, session_create-Keeps,
    get_by_token-Keeps, count-Keeps, revoke-Keeps, revoke_oldest-Keeps, key_create-Keeps,
    list_keys-Keeps, key_revoke-Keeps, publish-Keeps, ask-Keeps, draw-Keeps, password-Keeps,
  )
