-- ===== src/Breaker/History.antt =====
-- What a breaker says of the calls that it has seen: the failures since the last success, of which
-- the third breaks it. This is the specification of `CircuitBreaker` of state.rs.
use control_tower.Prelude.{ℕ, ◌≡◌, refl, List, [], ◌∷◌, ◌++◌, arith, min, leb, length, get_elem?}
use control_tower.Breaker.{
  CircuitBreaker, new, record_failure, record_success, Call, failure, success, step, run,
  circuit_breaker_max_failures,
}
use control_tower.Breaker.Invariant.{IsConsistent, new-IsConsistent, step-IsConsistent}

-- The times of the failures since the last success, oldest first, if `ts` were seen before.
pub failures : List ℕ → List Call → List ℕ
failures ts [] = ts
failures ts (failure t ∷ cs) = failures (ts ++ t ∷ []) cs
failures ts (success ∷ cs) = failures [] cs

pub record Tracks (ts : List ℕ) (cb : CircuitBreaker) : Type 0 where
  pub counted : cb.failure_count ≡ min circuit_breaker_max_failures (length ts)
  pub broken : cb.is_broken ≡ leb circuit_breaker_max_failures (length ts)
  pub since : cb.broken_at ≡ get_elem? ts 2

new-Tracks : Tracks [] new
unfolding new
new-Tracks = record { counted = refl; broken = refl; since = refl }

record_failure-Tracks :
    (ts : List ℕ) (cb : CircuitBreaker) (t : ℕ)
    → Tracks ts cb
    → Tracks (ts ++ t ∷ []) (record_failure cb t)
unfolding record_failure
record_failure-Tracks [] cb t k = ground arith
record_failure-Tracks (a ∷ []) cb t k = ground arith
record_failure-Tracks (a ∷ b ∷ []) cb t k = ground arith
record_failure-Tracks (a ∷ b ∷ c ∷ ts) cb t k = ground arith

record_success-Tracks : (ts : List ℕ) (cb : CircuitBreaker) → Tracks [] (record_success cb)
unfolding record_success
record_success-Tracks ts cb = record { counted = refl; broken = refl; since = refl }

pub run-Tracks :
    (ts : List ℕ) (cb : CircuitBreaker) (cs : List Call)
    → Tracks ts cb
    → Tracks (failures ts cs) (run cb cs)
unfolding run failures step
run-Tracks ts cb [] k = k
run-Tracks ts cb (failure t ∷ cs) k =
    run-Tracks (ts ++ t ∷ []) (record_failure cb t) cs (record_failure-Tracks ts cb t k)
run-Tracks ts cb (success ∷ cs) k =
    run-Tracks [] (record_success cb) cs (record_success-Tracks ts cb)

pub run-IsConsistent :
    (cb : CircuitBreaker) (cs : List Call) → IsConsistent cb → IsConsistent (run cb cs)
unfolding run
run-IsConsistent cb [] v = v
run-IsConsistent cb (c ∷ cs) v = run-IsConsistent (step cb c) cs (step-IsConsistent cb c v)

-- After any calls a new breaker counts the failures since the last success up to three, is broken
-- exactly if there are at least three, and since the time of the third; its fields agree, so the
-- count never passes three.
pub run-new : (cs : List Call) → Tracks (failures [] cs) (run new cs) × IsConsistent (run new cs)
run-new cs = (run-Tracks [] new cs new-Tracks, run-IsConsistent new cs new-IsConsistent)
