-- ===== src/Common/Action.antt =====
-- An operation of a service: it reads its surroundings, changes a world, and ends in a value or an
-- error. What it did before an error stays done.
use mathlib.Core.Bool.{Bool}
use mathlib.Core.Option.{Option, none, some}
use cloudmini_reseller.Common.Tests.{if◌then◌else◌}

pub data Outcome (X A : Type 0) : Type 0 where
  ok : A → Outcome X A
  err : X → Outcome X A

abbrev pub Action : Type 0 → Type 0 → Type 0 → Type 0 → Type 0
Action E W X A = E → W → Outcome X A × W

module _ {E W X : Type 0} where
  abbrev pub pure : {A : Type 0} → A → Action E W X A
  pure a env w = (ok a, w)

  abbrev pub raise : {A : Type 0} → X → Action E W X A
  raise e env w = (err e, w)

  infixl 5 ◌>>=◌ ◌>>◌
  abbrev pub ◌>>=◌ : {A B : Type 0} → Action E W X A → (A → Action E W X B) → Action E W X B
  ◌>>=◌ m f env w = let (r, w') = m env w in elim r [ ok a ↦ f a env w' | err e ↦ (err e, w') ]

  abbrev pub ◌>>◌ : {A B : Type 0} → Action E W X A → Action E W X B → Action E W X B
  m >> k = m >>= λ _. k

  abbrev pub raise_if : Bool → X → Action E W X (Unit {0})
  raise_if c e env w = (if c then err e else ok tt, w)

  abbrev pub modify : (W → W) → Action E W X (Unit {0})
  modify f env w = (ok tt, f w)

  -- `_ = f(…)`: the error is dropped.
  abbrev pub attempt : {A : Type 0} → Action E W X A → Action E W X (Unit {0})
  attempt m env w = (ok tt, (m env w).1)

  -- `if err := f(…); err != nil { g; return … }`: after an error `undo` runs, and `e` is returned.
  abbrev pub or_else : {A : Type 0} → Action E W X A → Action E W X (Unit {0}) → X → Action E W X A
  or_else m undo e env w =
      let (r, w') = m env w in elim r [ ok a ↦ (ok a, w') | err _ ↦ (err e, (undo env w').1) ]

  -- The row that was looked up, or the error of its absence.
  abbrev pub or_raise : {A : Type 0} → Option A → X → Action E W X A
  or_raise none e = raise e
  or_raise (some a) e = pure a
