-- ===== src/Retry/Tests.antt =====
-- Runs and witnesses of the retries.
use cloudmini_reseller.Common.{ℕ, leb, false, ◌≡◌, refl, none, some, [], ◌∷◌, if◌then◌else◌}
use cloudmini_reseller.Common.Int.{pos, ◌+ℤ◌}
use cloudmini_reseller.Retry.{
  Config, Env, succeeded, run_attempts, attempts, compute_delay, next_delay,
}

-- Default(), without its jitter; the errors are numbers.
abbrev default : Config ℕ
default = record {
  max_attempts = pos 3;
  initial_delay = pos 100000000;
  max_delay = pos 5000000000;
  jitter = false;
  is_retryable = none;
}

-- The third attempt succeeds.
abbrev third_time : Env ℕ
third_time = record {
  answer = λ n. if leb n 2 then some n else none;
  cancelled = λ n. false;
  cancelled_waiting = λ n. false;
  multiplied = λ d. d +ℤ d;
  jittered = λ n d. d;
}

third_time_run :
    run_attempts default third_time
    ≡ record { result = succeeded; calls = 3; waits = pos 100000000 ∷ pos 200000000 ∷ [] }
unfolding run_attempts attempts compute_delay next_delay ◌+ℤ◌
third_time_run = refl
