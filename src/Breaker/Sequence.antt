-- ===== src/Breaker/Sequence.antt =====
-- Calls of Execute one after another, and the time for which an open circuit refuses.
use cloudmini_reseller.Common.{
  ℕ, ◌+◌, ◌≤◌, ◌<◌, ◌≡◌, ◌≢◌, refl, Bool, true, false, List, [], ◌∷◌, length, All, arith,
}
use cloudmini_reseller.Common.Int.{pos, ◌+ℤ◌, ◌-ℤ◌}
use cloudmini_reseller.Breaker.{
  state_closed, state_open, state_half_open, Config, CircuitBreaker, Admission, admitted,
  err_circuit_open, new, before_request, after_request, Call, execute, execute_all,
}

-- Between calls, with none running.
pub record IsQuiet (cb : CircuitBreaker) : Type 0 where
  pub decided : cb.state ≢ state_half_open
  pub no_probe : cb.half_open ≡ pos 0
  pub below : cb.state ≡ state_closed → 0 < cb.cfg.max_failures → cb.failures < cb.cfg.max_failures

new-IsQuiet : (cfg : Config) → IsQuiet (new cfg)
unfolding new
new-IsQuiet cfg = record { decided = λ e. cc; no_probe = refl; below = λ _ h. h }

execute-IsQuiet : (c : Call) (cb : CircuitBreaker) → IsQuiet cb → IsQuiet (execute c cb).1
unfolding execute ◌+ℤ◌ ◌-ℤ◌
execute-IsQuiet c cb h = ground arith

-- After any calls one after another the circuit is closed or open, no probe is counted as running,
-- and a closed circuit has seen fewer failures in a row than `max_failures`, if that is positive.
execute_all-IsQuiet :
    (cs : List Call) (cb : CircuitBreaker) → IsQuiet cb → IsQuiet (execute_all cs cb)
unfolding execute_all
execute_all-IsQuiet [] cb h = h
execute_all-IsQuiet (c ∷ cs) cb h = execute_all-IsQuiet cs (execute c cb).1 (execute-IsQuiet c cb h)

abbrev pub Fails : Call → Type 0
Fails c = c.failed ≡ true

-- A failing call on a closed circuit counts one more failure, and opens it at the limit.
fail_closed :
    (c : Call) (cb : CircuitBreaker)
    → Fails c
    → cb.state ≡ state_closed
    → ((execute c cb).1.cfg ≡ cb.cfg)
      × ((execute c cb).1.failures ≡ cb.failures + 1)
      × (cb.failures + 1 < cb.cfg.max_failures → (execute c cb).1.state ≡ state_closed)
      × (cb.cfg.max_failures ≤ cb.failures + 1 → (execute c cb).1.state ≡ state_open)
unfolding execute
fail_closed c cb f s = ground arith

closed_below :
    (cs : List Call) (cb : CircuitBreaker)
    → All Fails cs
    → cb.state ≡ state_closed
    → cb.failures + length cs < cb.cfg.max_failures
    → ((execute_all cs cb).state ≡ state_closed)
      × ((execute_all cs cb).failures ≡ cb.failures + length cs)
unfolding execute_all
closed_below [] cb f s h = (s, omega arith)
closed_below (c ∷ cs) cb f s h =
    let (same, count, closed, _) = fail_closed c cb f.0 s in
    let rest = closed_below cs (execute c cb).1 f.1 (closed (omega arith)) in
    ground (arith, rest (rw (same, count) (omega arith)))

open_at :
    (cs : List Call) (cb : CircuitBreaker)
    → All Fails cs
    → 0 < length cs
    → cb.state ≡ state_closed
    → cb.failures + length cs ≡ cb.cfg.max_failures
    → (execute_all cs cb).state ≡ state_open
unfolding execute_all
open_at [] cb f n s h = absurd (omega arith)
open_at (c ∷ []) cb f n s h = (fail_closed c cb f.0 s).3 (omega arith)
open_at (c ∷ d ∷ cs) cb f n s h =
    let (same, count, closed, _) = fail_closed c cb f.0 s in
    open_at (d ∷ cs) (execute c cb).1 f.1 (omega arith) (closed (omega arith))
      (rw (same, count) (omega arith))

-- The circuit trips at exactly `max_failures` failures in a row: from a new breaker, fewer failing
-- calls than that leave it closed with all of them counted, and that many, one at least, leave it
-- open.
pub execute_all_trips :
    (cfg : Config) (cs : List Call)
    → All Fails cs
    → (length cs < cfg.max_failures
        → ((execute_all cs (new cfg)).state ≡ state_closed)
          × ((execute_all cs (new cfg)).failures ≡ length cs))
      × (0 < length cs
          → length cs ≡ cfg.max_failures
          → (execute_all cs (new cfg)).state ≡ state_open)
unfolding new
execute_all_trips cfg cs f = (
  λ h. let (s, n) = closed_below cs (new cfg) f refl (omega arith) in (s, omega arith),
  λ n h. open_at cs (new cfg) f n refl (omega arith),
)

-- A call that is admitted and succeeds closes the circuit and forgets the failures, whatever the
-- breaker's state was, if it ran with no other beside it.
pub execute_recovers :
    (c : Call) (cb : CircuitBreaker)
    → IsQuiet cb
    → c.failed ≡ false
    → (execute c cb).0 ≡ admitted
    → ((execute c cb).1.state ≡ state_closed) × ((execute c cb).1.failures ≡ 0)
unfolding execute
execute_recovers c cb q f a = ground (arith, q.decided)

-- What goroutines that share a breaker do, in some order.
pub data Event : Type 0 where
  starts : ℕ → Event
  ends : ℕ → Bool → Event

-- The admissions that a run of events decides, and the breaker that it leaves.
pub run : List Event → CircuitBreaker → List Admission × CircuitBreaker
run [] cb = ([], cb)
run (starts now ∷ es) cb =
    let (a, cb') = before_request now cb in let (rest, end) = run es cb' in (a ∷ rest, end)
run (ends now failed ∷ es) cb = run es (after_request now failed cb)

-- Up to the time `t`, on a clock that does not go back before `since`.
abbrev pub Within : ℕ → ℕ → Event → Type 0
Within since t (starts now) = now < t
Within since t (ends now failed) = since ≤ now

abbrev pub IsRefusal : Admission → Type 0
IsRefusal a = a ≡ err_circuit_open

start_open :
    (now : ℕ) (cb : CircuitBreaker)
    → cb.state ≡ state_open
    → now < cb.last_failure + cb.cfg.timeout
    → before_request now cb ≡ (err_circuit_open, cb)
unfolding before_request
start_open now cb s h = ground arith

end_open :
    (now : ℕ) (failed : Bool) (cb : CircuitBreaker) (since : ℕ)
    → cb.state ≡ state_open
    → since ≤ now
    → since ≤ cb.last_failure
    → let cb' = after_request now failed cb in
      (cb'.state ≡ state_open) × (since ≤ cb'.last_failure) × (cb'.cfg ≡ cb.cfg)
unfolding after_request
end_open now failed cb since s h k = ground arith

open_run :
    (es : List Event) (cb : CircuitBreaker) (since t : ℕ)
    → cb.state ≡ state_open
    → All (Within since t) es
    → since ≤ cb.last_failure
    → t ≤ since + cb.cfg.timeout
    → All IsRefusal (run es cb).0 × ((run es cb).1.state ≡ state_open)
unfolding run
open_run [] cb since t s w k h = (tt, s)
open_run (starts now ∷ es) cb since t s w k h =
    rw (start_open now cb s (omega arith))
      (let (refused, state) = open_run es cb since t s w.1 k h in ((refl, refused), state))
open_run (ends now failed ∷ es) cb since t s w k h =
    let (state, later, same) = end_open now failed cb since s w.0 k in
    open_run es (after_request now failed cb) since t state w.1 later (rw same h)

-- Until `timeout` has passed since the failure that an open circuit remembers, every request is
-- refused and the circuit stays open, whatever the requests that were still running report.
run_open_refuses :
    (es : List Event) (cb : CircuitBreaker)
    → cb.state ≡ state_open
    → All (Within cb.last_failure (cb.last_failure + cb.cfg.timeout)) es
    → All IsRefusal (run es cb).0 × ((run es cb).1.state ≡ state_open)
run_open_refuses es cb s w = open_run es cb cb.last_failure _ s w (omega arith) (omega arith)
