-- ===== src/Resellers/Keys/Revocation.antt =====
-- A revoked API key is refused from then on.
use cloudmini_reseller.Common.{
  ℕ, String, eq_iff, Bool, true, false, ◌&&◌, ◌≡◌, refl, Option, none, some, Option-cases, inl, inr,
  List, [], ◌∷◌, arith, All, any, find_where, update_where, is_none,
}
use cloudmini_reseller.Common.Int.{ℤ}
use cloudmini_reseller.Common.Action.{ok, err}
use cloudmini_reseller.Resellers.Entity.{ResellerApiKey}
use cloudmini_reseller.Resellers.World.{Env, World, err_api_key_not_found}
use cloudmini_reseller.Resellers.Repo.{
  is_key, has_hash, key_create, get_by_hash, keys_by_reseller, key_revoke, update_last_used,
}
use cloudmini_reseller.Resellers.Keys.{
  create_api_key, save_key, validate_hash, validate_api_key, revoke_api_key,
}

-- The hash belongs to a key, and to none that is not revoked.
abbrev pub IsRevoked : String → List ResellerApiKey → Type 0
IsRevoked h ks =
    (any (has_hash h) ks ≡ true) × (any (λ k. has_hash h k && is_none k.revoked_at) ks ≡ false)

pub data Command : Type 0 where
  creates : ℕ → String → Option ℤ → Command
  validates : String → Command
  revokes : ℕ → ℕ → Command

unfoldable pub run : Command → Env → World → World
run (creates reseller name expires) env w = (create_api_key reseller name expires env w).1
run (validates raw) env w = (validate_api_key raw env w).1
run (revokes id reseller) env w = (revoke_api_key id reseller env w).1

unfoldable pub run_all : List (Command × Env) → World → World
run_all [] w = w
run_all ((c, env) ∷ cs) w = run_all cs (run c env w)

abbrev is_live : String → ResellerApiKey → Bool
is_live h k = has_hash h k && is_none k.revoked_at

abbrev revoked_at_time : ℤ → ResellerApiKey → ResellerApiKey
revoked_at_time now k = record k { revoked_at = some now }

abbrev used_at_time : ℤ → ResellerApiKey → ResellerApiKey
used_at_time now k = record k { last_used_at = some now }

module _ (h : String) (now : ℤ) (id : ℕ) where
  any-revoked :
      (ks : List ResellerApiKey)
      → any (has_hash h) (update_where (is_key id) (revoked_at_time now) ks) ≡ any (has_hash h) ks
  any-revoked [] = refl
  any-revoked (k ∷ ks) = ground (arith, any-revoked ks)

  live-revoked :
      (ks : List ResellerApiKey)
      → any (is_live h) ks ≡ false
      → any (is_live h) (update_where (is_key id) (revoked_at_time now) ks) ≡ false
  live-revoked [] none_live = refl
  live-revoked (k ∷ ks) none_live = ground (arith, live-revoked ks)

  any-used :
      (ks : List ResellerApiKey)
      → any (has_hash h) (update_where (is_key id) (used_at_time now) ks) ≡ any (has_hash h) ks
  any-used [] = refl
  any-used (k ∷ ks) = ground (arith, any-used ks)

  live-used :
      (ks : List ResellerApiKey)
      → any (is_live h) (update_where (is_key id) (used_at_time now) ks) ≡ any (is_live h) ks
  live-used [] = refl
  live-used (k ∷ ks) = ground (arith, live-used ks)

  -- The revocation of the only key of a hash.
  live-revoke :
      (ks : List ResellerApiKey)
      → All (λ k. has_hash h k ≡ true → k.id ≡ id) ks
      → any (is_live h) (update_where (is_key id) (revoked_at_time now) ks) ≡ false
  live-revoke [] only = refl
  live-revoke (k ∷ ks) only = ground (arith, live-revoke ks only.1)

module _ (h : String) where
  create-IsRevoked :
      (reseller : ℕ) (name : String) (expires : Option ℤ) (env : Env) (w : World)
      → IsRevoked h w.keys
      → IsRevoked h (create_api_key reseller name expires env w).1.keys
  unfolding create_api_key save_key key_create
  create-IsRevoked reseller name expires env w r =
      let hash = env.hash_key (env.plain_keys w.calls) in ground (arith, eq_iff hash h)

  validate-IsRevoked :
      (raw : String) (env : Env) (w : World)
      → IsRevoked h w.keys
      → IsRevoked h (validate_api_key raw env w).1.keys
  unfolding validate_api_key validate_hash get_by_hash update_last_used
  validate-IsRevoked raw env w r =
      elim (Option-cases (find_where (is_live (env.hash_key raw)) w.keys)) [
        | inl none_found ↦ ground arith
        | inr (k, found) ↦
            ground (arith, any-used h env.now k.id w.keys, live-used h env.now k.id w.keys)
      ]

  revoke-IsRevoked :
      (id reseller : ℕ) (env : Env) (w : World)
      → IsRevoked h w.keys
      → IsRevoked h (revoke_api_key id reseller env w).1.keys
  unfolding revoke_api_key keys_by_reseller key_revoke
  revoke-IsRevoked id reseller env w r =
      ground (arith, any-revoked h env.now id w.keys, live-revoked h env.now id w.keys)

  run_all-IsRevoked :
      (cs : List (Command × Env)) (w : World) → IsRevoked h w.keys → IsRevoked h (run_all cs w).keys
  unfolding run_all run
  run_all-IsRevoked [] w r = r
  run_all-IsRevoked ((creates reseller name expires, env) ∷ cs) w r =
      run_all-IsRevoked cs _ (create-IsRevoked reseller name expires env w r)
  run_all-IsRevoked ((validates raw, env) ∷ cs) w r =
      run_all-IsRevoked cs _ (validate-IsRevoked raw env w r)
  run_all-IsRevoked ((revokes id reseller, env) ∷ cs) w r =
      run_all-IsRevoked cs _ (revoke-IsRevoked id reseller env w r)

  no_live :
      (ks : List ResellerApiKey) → any (is_live h) ks ≡ false → find_where (is_live h) ks ≡ none
  no_live [] e = refl
  no_live (k ∷ ks) e = ground (arith, no_live ks)

-- A revoked API key is refused from then on: if a key of the hash of `raw` is stored, only one id
-- has that hash, and its revocation succeeds, then after every later history of creations,
-- validations and revocations, whatever fails, the raw key is not validated but refused as unknown.
pub validate_revoked :
    (id reseller : ℕ) (raw : String) (env env' : Env) (w : World)
    → any (has_hash (env'.hash_key raw)) w.keys ≡ true
    → All (λ k. has_hash (env'.hash_key raw) k ≡ true → k.id ≡ id) w.keys
    → (revoke_api_key id reseller env w).0 ≡ ok tt
    → (cs : List (Command × Env))
    → (validate_api_key raw env' (run_all cs (revoke_api_key id reseller env w).1)).0
      ≡ err err_api_key_not_found
unfolding validate_api_key validate_hash get_by_hash revoke_api_key keys_by_reseller key_revoke
validate_revoked id reseller raw env env' w stored only done cs =
    let h = env'.hash_key raw in
    let w₁ = (revoke_api_key id reseller env w).1 in
    let revoked : IsRevoked h w₁.keys =
      ground (arith, any-revoked h env.now id w.keys, live-revoke h env.now id w.keys only) in
    let w₂ = run_all cs w₁ in
    ground (arith, no_live h w₂.keys (run_all-IsRevoked h cs w₁ revoked).1)
