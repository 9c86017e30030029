-- ===== src/Breaker/Invariant.antt =====
-- The breaker's fields agree with one another after any calls.
use control_tower.Prelude.{ℕ, ◌*◌, ◌<◌, ◌≡◌, refl, Bool, true, false, Option, none, some, arith}
use control_tower.Breaker.{
  CircuitBreaker, new, record_failure, record_success, Call, failure, success, step,
  circuit_breaker_cooldown_secs, circuit_breaker_max_failures, second,
}

-- Closed, below the limit and with no time, or broken at some time by exactly the limit.
abbrev pub Agree : Bool → ℕ → Option ℕ → Type 0
Agree false n none = n < circuit_breaker_max_failures
Agree false n (some t) = ⊥
Agree true n none = ⊥
Agree true n (some t) = n ≡ circuit_breaker_max_failures

pub record IsConsistent (cb : CircuitBreaker) : Type 0 where
  pub agree : Agree cb.is_broken cb.failure_count cb.broken_at
  pub minute : cb.cooldown ≡ circuit_breaker_cooldown_secs * second

pub new-IsConsistent : IsConsistent new
unfolding new
new-IsConsistent = record { agree = omega arith; minute = refl }

pub record_failure-IsConsistent :
    (cb : CircuitBreaker) (now : ℕ) → IsConsistent cb → IsConsistent (record_failure cb now)
unfolding record_failure
record_failure-IsConsistent cb now v = ground arith

pub record_success-IsConsistent :
    (cb : CircuitBreaker) → IsConsistent cb → IsConsistent (record_success cb)
unfolding record_success
record_success-IsConsistent cb v = ground arith

pub step-IsConsistent :
    (cb : CircuitBreaker) (c : Call) → IsConsistent cb → IsConsistent (step cb c)
unfolding step
step-IsConsistent cb (failure now) v = record_failure-IsConsistent cb now v
step-IsConsistent cb success v = record_success-IsConsistent cb v
