-- ===== src/Breaker.antt =====
-- The circuit breaker, pkg/circuitbreaker/circuitbreaker.go.
--
-- Every method runs under the breaker's mutex, so each is one function on the whole state. The
-- clock reading that a method makes is its argument `now`, in nanoseconds. The configured numbers
-- are taken to be at least 0; `half_open` is signed, as the `int` of the source is. Every call of
-- the callback OnStateChange is recorded in `changes`, the latest first, if a callback is set.
pub mod Limits
pub mod Sequence
mod Tests
use cloudmini_reseller.Common.{ℕ, ◌+◌, Bool, true, false, List, [], ◌∷◌, ◌||◌, leb, if◌then◌else◌}
use cloudmini_reseller.Common.Int.{ℤ, pos, ◌+ℤ◌, ◌-ℤ◌, ltb_ℤ}

pub data State : Type 0 where
  state_closed state_open state_half_open : State

pub record Config : Type 0 where
  pub max_failures : ℕ
  pub timeout : ℕ
  pub max_half_open_requests : ℕ
  pub on_state_change : Bool

pub record CircuitBreaker : Type 0 where
  pub cfg : Config
  pub state : State
  pub failures : ℕ
  pub successes : ℕ
  pub last_failure : ℕ
  pub half_open : ℤ
  pub changes : List (State × State)

-- The error that beforeRequest returns, or none.
pub data Admission : Type 0 where
  admitted err_circuit_open : Admission

pub new : Config → CircuitBreaker
new cfg = record {
  cfg = cfg;
  state = state_closed;
  failures = 0;
  successes = 0;
  last_failure = 0;
  half_open = pos 0;
  changes = [];
}

abbrev is_half_open : State → Bool
is_half_open state_half_open = true
is_half_open _ = false

notify : CircuitBreaker → State → List (State × State)
notify cb next = if cb.cfg.on_state_change then (cb.state, next) ∷ cb.changes else cb.changes

pub to_closed : CircuitBreaker → CircuitBreaker
unfolding notify
to_closed cb = record cb {
  state = state_closed;
  failures = 0;
  half_open = pos 0;
  changes = notify cb state_closed;
}

pub to_open : CircuitBreaker → CircuitBreaker
unfolding notify
to_open cb = record cb { state = state_open; changes = notify cb state_open }

pub to_half_open : CircuitBreaker → CircuitBreaker
unfolding notify
to_half_open cb = record cb {
  state = state_half_open;
  failures = 0;
  changes = notify cb state_half_open;
}

bump_half_open : CircuitBreaker → CircuitBreaker
bump_half_open cb = record cb { half_open = cb.half_open +ℤ pos 1 }

-- The switch of beforeRequest, by the state that it reads.
admit_at : State → ℕ → CircuitBreaker → Admission × CircuitBreaker
unfolding bump_half_open to_half_open
admit_at state_closed now cb = (admitted, cb)
admit_at state_open now cb =
    if leb (cb.last_failure + cb.cfg.timeout) now
    then (admitted, bump_half_open (to_half_open cb))
    else (err_circuit_open, cb)
admit_at state_half_open now cb =
    if ltb_ℤ cb.half_open (pos cb.cfg.max_half_open_requests)
    then (admitted, bump_half_open cb)
    else (err_circuit_open, cb)

pub before_request : ℕ → CircuitBreaker → Admission × CircuitBreaker
unfolding admit_at
before_request now cb = admit_at cb.state now cb

pub failure : ℕ → CircuitBreaker → CircuitBreaker
unfolding to_open
failure now cb =
    let cb' : CircuitBreaker = record cb {
      failures = cb.failures + 1;
      last_failure = now;
      successes = 0;
    } in
    if is_half_open cb.state || leb cb.cfg.max_failures (cb.failures + 1) then to_open cb' else cb'

pub success : CircuitBreaker → CircuitBreaker
unfolding to_closed
success cb =
    let cb' : CircuitBreaker = record cb { successes = cb.successes + 1; failures = 0 } in
    if is_half_open cb.state then to_closed cb' else cb'

leave_half_open : CircuitBreaker → CircuitBreaker
leave_half_open cb =
    if is_half_open cb.state then record cb { half_open = cb.half_open -ℤ pos 1 } else cb

-- `failed` says whether the call returned an error.
pub after_request : ℕ → Bool → CircuitBreaker → CircuitBreaker
unfolding leave_half_open failure success
after_request now failed cb =
    if failed then failure now (leave_half_open cb) else success (leave_half_open cb)

-- One call of Execute with nothing running beside it: it asks at `begin`, and the function that it
-- guards returns at `end`.
pub record Call : Type 0 where
  pub begin : ℕ
  pub end : ℕ
  pub failed : Bool

pub execute : Call → CircuitBreaker → Admission × CircuitBreaker
unfolding before_request after_request
execute c cb =
    let (a, cb') = before_request c.begin cb in
    elim a [
      | admitted ↦ (admitted, after_request c.end c.failed cb')
      | err_circuit_open ↦ (err_circuit_open, cb')
    ]

pub execute_all : List Call → CircuitBreaker → CircuitBreaker
execute_all [] cb = cb
execute_all (c ∷ cs) cb = execute_all cs (execute c cb).1
