-- ===== src/Common/Keeps.antt =====
-- Invariants of operations: one rule for each way to build an operation.
use mathlib.Core.Bool.{Bool, true, false}
use mathlib.Core.Path.{◌≡◌, refl}
use cloudmini_reseller.Common.Tests.{if◌then◌else◌}
use cloudmini_reseller.Common.Action.{
  Action, Outcome, ok, err, pure, ◌>>=◌, ◌>>◌, raise_if, attempt, or_else,
}

-- `m` keeps `P`, whether it ends in a value or in an error.
pub record Keeps {E W X A : Type 0} (P : W → Type 0) (m : Action E W X A) : Type 0 where
  pub at : (env : E) (w : W) → P w → P (m env w).1

module _ {E W X : Type 0} {P : W → Type 0} where
  after :
      {A B : Type 0} (r : Outcome X A) (k : A → Action E W X B)
      → ((a : A) → Keeps P (k a))
      → (env : E) (w : W) → P w
      → let r' : Outcome X B × W = elim r [ ok a ↦ k a env w | err e ↦ (err e, w) ] in P r'.1
  after (ok a) k kk env w p = (kk a).at env w p
  after (err e) k kk env w p = p

  pub Keeps-bind :
      {A B : Type 0} (m : Action E W X A) (k : A → Action E W X B)
      → Keeps P m
      → ((a : A) → Keeps P (k a))
      → Keeps P (m >>= k)
  Keeps-bind m k km kk = record {
    at = λ env w p. after (m env w).0 k kk env (m env w).1 (km.at env w p);
  }

  heeded :
      {A B : Type 0} {Q : A → Type 0} (r : Outcome X A) (k : A → Action E W X B)
      → ((a : A) → r ≡ ok a → Q a)
      → ((a : A) → Q a → Keeps P (k a))
      → (env : E) (w : W) → P w
      → let r' : Outcome X B × W = elim r [ ok a ↦ k a env w | err e ↦ (err e, w) ] in P r'.1
  heeded (ok a) k q kk env w p = (kk a (q a refl)).at env w p
  heeded (err e) k q kk env w p = p

  -- The rest may rely on what is known of the value.
  pub Keeps-heed :
      {A B : Type 0} (Q : A → Type 0) (m : Action E W X A) (k : A → Action E W X B)
      → Keeps P m
      → ((env : E) (w : W) (a : A) → P w → (m env w).0 ≡ ok a → Q a)
      → ((a : A) → Q a → Keeps P (k a))
      → Keeps P (m >>= k)
  Keeps-heed Q m k km q kk = record {
    at = λ env w p.
        heeded {Q = Q} (m env w).0 k (λ a. q env w a p) kk env (m env w).1 (km.at env w p);
  }

  pub Keeps-then :
      {A B : Type 0} (m : Action E W X A) (n : Action E W X B)
      → Keeps P m
      → Keeps P n
      → Keeps P (m >> n)
  Keeps-then m n km kn = Keeps-bind m (λ _. n) km (λ _. kn)

  pub Keeps-if :
      {A : Type 0} (b : Bool) (m n : Action E W X A)
      → Keeps P m
      → Keeps P n
      → Keeps P (if b then m else n)
  Keeps-if true m n km kn = km
  Keeps-if false m n km kn = kn

  undone :
      {A : Type 0} (r : Outcome X A) (undo : Action E W X (Unit {0})) (e : X)
      → Keeps P undo
      → (env : E) (w : W) → P w
      → let r' : Outcome X A × W = elim r [ ok a ↦ (ok a, w) | err _ ↦ (err e, (undo env w).1) ] in
        P r'.1
  undone (ok a) undo e ku env w p = p
  undone (err _) undo e ku env w p = ku.at env w p

  pub Keeps-or_else :
      {A : Type 0} (m : Action E W X A) (undo : Action E W X (Unit {0})) (e : X)
      → Keeps P m
      → Keeps P undo
      → Keeps P (or_else m undo e)
  Keeps-or_else m undo e km ku = record {
    at = λ env w p. undone (m env w).0 undo e ku env (m env w).1 (km.at env w p);
  }

  pub Keeps-attempt : {A : Type 0} (m : Action E W X A) → Keeps P m → Keeps P (attempt m)
  Keeps-attempt m km = record { at = λ env w p. km.at env w p }

  -- An operation that first reads its surroundings.
  pub Keeps-ask :
      {A : Type 0} (f : E → Action E W X A) → ((e : E) → Keeps P (f e)) → Keeps P (λ env. f env env)
  Keeps-ask f kf = record { at = λ env w p. (kf env).at env w p }

  pub Keeps-pure : {A : Type 0} (a : A) → Keeps {E = E} {X = X} P (pure a)
  Keeps-pure a = record { at = λ env w p. p }

  pub Keeps-raise_if : (c : Bool) (e : X) → Keeps {E = E} P (raise_if c e)
  Keeps-raise_if c e = record { at = λ env w p. p }

-- Inversion of a sequence that ended in a value.
module _ {E W X A B : Type 0} where
  joined :
      (r : Outcome X A) (k : A → Action E W X B) (env : E) (w : W) {b : B}
      → let r' : Outcome X B × W = elim r [ ok a ↦ k a env w | err e ↦ (err e, w) ] in
        r'.0 ≡ ok b → (a : A) × (r ≡ ok a) × ((k a env w).0 ≡ ok b) × (r' ≡ k a env w)
  joined (ok a) k env w e = (a, refl, e, refl)
  joined (err x) k env w e = cc

  pub bind-ok :
      (m : Action E W X A) (k : A → Action E W X B) (env : E) (w : W) {b : B}
      → ((m >>= k) env w).0 ≡ ok b
      → (a : A) × ((m env w).0 ≡ ok a)
        × ((k a env (m env w).1).0 ≡ ok b)
        × ((m >>= k) env w ≡ k a env (m env w).1)
  bind-ok m k env w e = joined (m env w).0 k env (m env w).1 e
