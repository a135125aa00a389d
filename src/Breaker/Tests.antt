-- ===== src/Breaker/Tests.antt =====
-- Runs and witnesses of the circuit breaker.
use cloudmini_reseller.Common.{◌<◌, ◌≡◌, refl, true, false, [], ◌∷◌, length, arith}
use cloudmini_reseller.Common.Int.{◌+ℤ◌}
use cloudmini_reseller.Breaker.{
  state_closed, state_open, Config, CircuitBreaker, new, before_request, after_request, Call,
  execute, execute_all,
}
use cloudmini_reseller.Breaker.Limits.{here, next, starts, ends, IsBounded, Reach-IsBounded}
use cloudmini_reseller.Breaker.Sequence.{IsQuiet, execute_all_trips, execute_recovers}

abbrev cfg : Config
cfg = record { max_failures = 2; timeout = 30; max_half_open_requests = 1; on_state_change = true }

abbrev bad : Call
bad = record { begin = 5; end = 6; failed = true }

abbrev good : Call
good = record { begin = 40; end = 41; failed = false }

abbrev tripped : CircuitBreaker
tripped = record (new cfg) {
  state = state_open;
  failures = 2;
  last_failure = 6;
  changes = (state_closed, state_open) ∷ [];
}

two_failures : execute_all (bad ∷ bad ∷ []) (new cfg) ≡ tripped
unfolding execute_all execute new
two_failures = refl

Reach-IsBounded_example :
    IsBounded (after_request 9 true (before_request 7 (before_request 3 (new cfg)).1).1)
Reach-IsBounded_example =
    Reach-IsBounded cfg (next (next (next here (starts 3)) (starts 7)) (ends 9 true))

tripped-IsQuiet : IsQuiet tripped
unfolding new
tripped-IsQuiet = ground arith

execute_all_trips_example :
    (2 < 2
      → ((execute_all (bad ∷ bad ∷ []) (new cfg)).state ≡ state_closed)
        × ((execute_all (bad ∷ bad ∷ []) (new cfg)).failures ≡ 2))
    × (0 < length (bad ∷ bad ∷ [])
        → length (bad ∷ bad ∷ []) ≡ 2
        → (execute_all (bad ∷ bad ∷ []) (new cfg)).state ≡ state_open)
execute_all_trips_example = execute_all_trips cfg (bad ∷ bad ∷ []) (refl, (refl, tt))

execute_recovers_example :
    ((execute good tripped).1.state ≡ state_closed) × ((execute good tripped).1.failures ≡ 0)
unfolding execute new ◌+ℤ◌
execute_recovers_example = execute_recovers good tripped tripped-IsQuiet refl refl
