-- ===== src/Retry/Attempts.antt =====
-- How often the function is called, and how the retries end.
use cloudmini_reseller.Common.{
  ℕ, zero, suc, ◌+◌, ◌≤◌, ◌==◌, Bool, true, false, not, ◌&&◌, ◌≡◌, Option, none, some, is_none,
}
use cloudmini_reseller.Common.Int.{ℤ, ◌≤ℤ◌}
use cloudmini_reseller.Retry.{
  Config, Env, Result, succeeded, not_retryable, max_retries, context_cancelled,
  context_cancelled_waiting, Run, one_millisecond, is_retried,
}

module _ {E : Type 0} (cfg : Config E) (env : Env E) where
  -- The attempt ended in an error that is retried.
  abbrev pub failed : ℕ → Bool
  failed n = elim (env.answer n) [ none ↦ false | some e ↦ is_retried cfg env e ]

  -- So did `n` attempts from `first` on.
  abbrev pub all_failed : ℕ → ℕ → Bool
  all_failed zero first = true
  all_failed (suc n) first = failed first && all_failed n (suc first)

  abbrev is_refusal : Option E → Bool
  is_refusal none = false
  is_refusal (some e) = not (is_retried cfg env e)

  -- What the answers from `first` on say of a result after so many calls, at most `left`: the last
  -- call was answered so, and all before it failed.
  abbrev pub agrees : ℕ → ℕ → Result E → ℕ → Bool
  agrees left first succeeded zero = false
  agrees left first succeeded (suc n) = is_none (env.answer (n + first)) && all_failed n first
  agrees left first (not_retryable e) zero = false
  agrees left first (not_retryable e) (suc n) =
      is_refusal (env.answer (n + first)) && all_failed n first
  agrees left first (max_retries last) calls = (calls == left) && all_failed calls first
  agrees left first context_cancelled calls =
      env.cancelled (calls + first) && all_failed calls first
  agrees left first context_cancelled_waiting zero = false
  agrees left first context_cancelled_waiting (suc n) =
      env.cancelled_waiting (n + first) && all_failed (suc n) first

  abbrev Agrees : ℕ → ℕ → Run E → Type 0
  Agrees left first run = (run.calls ≤ left) × (agrees left first run.result run.calls ≡ true)

  -- A wait is at least a millisecond and at most the maximum.
  abbrev pub InRange : ℤ → Type 0
  InRange d = (one_millisecond ≤ℤ d) × (d ≤ℤ cfg.max_delay)
