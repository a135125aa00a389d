-- ===== src/Retry.antt =====
-- Retries with exponential backoff, pkg/retry/retry.go.
--
-- A duration is an integer of nanoseconds. The products of a duration and a float are parameters of
-- the surroundings, and so is what the retried function answers to each attempt.
pub mod Attempts
mod Tests
use cloudmini_reseller.Common.{
  ℕ, zero, suc, ◌==◌, Bool, true, false, not, Option, none, some, List, [], ◌∷◌, if◌then◌else◌,
}
use cloudmini_reseller.Common.Int.{ℤ, pos, pos_part, ltb_ℤ}

pub record Config (E : Type 0) : Type 0 where
  pub max_attempts : ℤ
  pub initial_delay : ℤ
  pub max_delay : ℤ
  pub jitter : Bool
  pub is_retryable : Option (E → Bool)

-- `answer n` is the error of the n-th attempt, if it has one. `cancelled n` and `cancelled_waiting n`
-- say whether the context is done before the n-th attempt and in the wait after it. `multiplied` is
-- the product with the multiplier, `jittered n` the one with the factor of the n-th wait.
pub record Env (E : Type 0) : Type 0 where
  pub answer : ℕ → Option E
  pub cancelled : ℕ → Bool
  pub cancelled_waiting : ℕ → Bool
  pub multiplied : ℤ → ℤ
  pub jittered : ℕ → ℤ → ℤ

-- Nil, an error that is not retried, ErrMaxRetries with the last error, and the two cancellations.
pub data Result (E : Type 0) : Type 0 where
  succeeded : Result E
  not_retryable : E → Result E
  max_retries : Option E → Result E
  context_cancelled context_cancelled_waiting : Result E

-- The result, how often the function was called, and the waits, the first one first.
pub record Run (E : Type 0) : Type 0 where
  pub result : Result E
  pub calls : ℕ
  pub waits : List ℤ

abbrev pub one_millisecond : ℤ
one_millisecond = pos 1000000

unfoldable pub compute_delay : (ℤ → ℤ) → ℤ → ℤ → Bool → ℤ
compute_delay jittered base max jitter =
    let d = if jitter then jittered base else base in
    if ltb_ℤ max d then max else if ltb_ℤ d one_millisecond then one_millisecond else d

module _ {E : Type 0} (cfg : Config E) (env : Env E) where
  abbrev pub is_retried : E → Bool
  is_retried e = elim cfg.is_retryable [ none ↦ true | some test ↦ test e ]

  unfoldable pub next_delay : ℤ → ℤ
  next_delay delay =
      let d = env.multiplied delay in if ltb_ℤ cfg.max_delay d then cfg.max_delay else d

  abbrev pub stop : Result E → ℕ → Run E
  stop r calls = record { result = r; calls = calls; waits = [] }

  abbrev pub wait_then : ℤ → Run E → Run E
  wait_then d run = record { result = run.result; calls = suc run.calls; waits = d ∷ run.waits }

  -- After the error `e` of an attempt; `rest` is what the next attempts come to.
  abbrev pub after_error : ℕ → ℤ → E → Run E → Run E
  after_error attempt delay e rest =
      if not (is_retried e)
      then stop (not_retryable e) 1
      else if attempt == pos_part cfg.max_attempts
      then stop (max_retries (some e)) 1
      else if env.cancelled_waiting attempt
      then stop context_cancelled_waiting 1
      else wait_then (compute_delay (env.jittered attempt) delay cfg.max_delay cfg.jitter) rest

  -- The loop from `attempt` on, of which `left` turns are left.
  unfoldable pub attempts : ℕ → ℕ → ℤ → Option E → Run E
  attempts zero attempt delay last = stop (max_retries last) 0
  attempts (suc left) attempt delay last =
      let e = env.answer attempt in
      let rest = attempts left (suc attempt) (next_delay delay) e in
      if env.cancelled attempt
      then stop context_cancelled 0
      else elim e [ none ↦ stop succeeded 1 | some err ↦ after_error attempt delay err rest ]

  -- Do
  unfoldable pub run_attempts : Run E
  run_attempts = attempts (pos_part cfg.max_attempts) 1 cfg.initial_delay none
