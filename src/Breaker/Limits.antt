-- ===== src/Breaker/Limits.antt =====
-- Requests that overlap: any interleaving of starts and ends.
use cloudmini_reseller.Common.{ℕ, max, ◌≡◌, refl, Bool, arith}
use cloudmini_reseller.Common.Int.{pos, ◌+ℤ◌, ◌-ℤ◌, ◌≤ℤ◌}
use cloudmini_reseller.Breaker.{
  State, state_closed, state_open, state_half_open, Config, CircuitBreaker, new, before_request,
  after_request,
}

-- One step of a breaker that many goroutines share: one of them asks for admission, or one that
-- was admitted at some earlier time, in whatever state, reports its outcome.
pub data Step (cb : CircuitBreaker) : CircuitBreaker → Type 0 where
  starts : (now : ℕ) → Step cb (before_request now cb).1
  ends : (now : ℕ) (failed : Bool) → Step cb (after_request now failed cb)

pub data Reach (cb : CircuitBreaker) : CircuitBreaker → Type 0 where
  here : Reach cb cb
  next : {c d : CircuitBreaker} → Reach cb c → Step c d → Reach cb d

-- The number of probe slots, one at least.
abbrev pub slots : CircuitBreaker → ℕ
slots cb = max cb.cfg.max_half_open_requests 1

abbrev InRange : State → CircuitBreaker → Type 0
InRange state_closed cb = cb.half_open ≡ pos 0
InRange state_open cb = (pos 0 ≤ℤ cb.half_open) × (cb.half_open +ℤ pos 1 ≤ℤ pos (slots cb))
InRange state_half_open cb = (pos 1 ≤ℤ cb.half_open) × (cb.half_open ≤ℤ pos (slots cb))

abbrev pub IsBounded : CircuitBreaker → Type 0
IsBounded cb = InRange cb.state cb

new-IsBounded : (cfg : Config) → IsBounded (new cfg)
unfolding new
new-IsBounded cfg = refl

start-IsBounded :
    (now : ℕ) (cb : CircuitBreaker) → IsBounded cb → IsBounded (before_request now cb).1
unfolding before_request ◌+ℤ◌
start-IsBounded now cb h = ground arith

end-IsBounded :
    (now : ℕ) (failed : Bool) (cb : CircuitBreaker)
    → IsBounded cb
    → IsBounded (after_request now failed cb)
unfolding after_request ◌+ℤ◌ ◌-ℤ◌
end-IsBounded now failed cb h = ground arith

Step-IsBounded : {c d : CircuitBreaker} → Step c d → IsBounded c → IsBounded d
Step-IsBounded {c} (starts now) h = start-IsBounded now c h
Step-IsBounded {c} (ends now failed) h = end-IsBounded now failed c h

-- However requests overlap, the counter `half_open` of a breaker made by New never goes below 0:
-- it is 0 while the circuit is closed, it lies from 1 to the number of probe slots (one at least)
-- while the circuit is half-open, and it is below that number while the circuit is open.
pub Reach-IsBounded : (cfg : Config) {cb : CircuitBreaker} → Reach (new cfg) cb → IsBounded cb
Reach-IsBounded cfg here = new-IsBounded cfg
Reach-IsBounded cfg (next r st) = Step-IsBounded st (Reach-IsBounded cfg r)
