-- ===== src/Breaker/Cooldown.antt =====
-- The clock side of state.rs `CircuitBreaker`: when a broken breaker allows a start again.
use control_tower.Prelude.{
  ℕ, ◌+◌, ◌*◌, ◌≤◌, ◌<◌, ◌≡◌, refl, true, false, not, some, List, [], ◌∷◌, arith, map,
}
use control_tower.Breaker.{
  CircuitBreaker, is_allowed, record_failure, remaining_cooldown_secs, is_circuit_broken, failure,
  step, run, second, circuit_breaker_cooldown_secs,
}
use control_tower.Breaker.Invariant.{IsConsistent}

-- The two views agree: at any time a breaker is in its cooldown exactly if it refuses a start.
pub is_circuit_broken-is_allowed :
    (cb : CircuitBreaker) (now : ℕ)
    → IsConsistent cb
    → is_circuit_broken cb now ≡ not (is_allowed cb now)
unfolding is_circuit_broken is_allowed
is_circuit_broken-is_allowed cb now v = ground arith

-- What `remaining_cooldown_secs` promises to who waits: with `r` seconds remaining at a time that
-- is not before the break, `r` is at most 60, every start within the next `r` seconds is refused,
-- and from `r + 1` seconds on every start is allowed.
module _ (cb : CircuitBreaker) (now t r : ℕ) (v : IsConsistent cb) (since : cb.broken_at ≡ some t)
    (later : t ≤ now) (left : remaining_cooldown_secs cb now ≡ some r) where
  bounded : r ≤ circuit_breaker_cooldown_secs
  unfolding remaining_cooldown_secs
  bounded = ground arith

  refused : (d : ℕ) → d < r * second → is_allowed cb (now + d) ≡ false
  unfolding remaining_cooldown_secs is_allowed
  refused d h = ground arith

  allowed : (d : ℕ) → (r + 1) * second ≤ d → is_allowed cb (now + d) ≡ true
  unfolding remaining_cooldown_secs is_allowed
  allowed d h = ground arith

  -- With `r` seconds remaining, read at a time that is not before the break: `r` is at most 60,
  -- every start within the next `r` seconds is refused, and every start from `r + 1` seconds on
  -- is allowed.
  remaining_cooldown_secs-is_allowed :
      (r ≤ circuit_breaker_cooldown_secs)
      × ((d : ℕ) → d < r * second → is_allowed cb (now + d) ≡ false)
      × ((d : ℕ) → (r + 1) * second ≤ d → is_allowed cb (now + d) ≡ true)
  remaining_cooldown_secs-is_allowed = (bounded, refused, allowed)

run-broken :
    (cb : CircuitBreaker) (ts : List ℕ) → cb.is_broken ≡ true → run cb (map failure ts) ≡ cb
unfolding run step record_failure
run-broken cb [] h = refl
run-broken cb (t ∷ ts) h = ground (arith, run-broken cb ts h)

-- Once the cooldown of a broken breaker is over, failures do not break it again: whatever their
-- number and times, it goes on allowing starts.
pub run-is_allowed :
    (cb : CircuitBreaker) (t now : ℕ) (ts : List ℕ)
    → IsConsistent cb
    → cb.broken_at ≡ some t
    → t + circuit_breaker_cooldown_secs * second ≤ now
    → (is_allowed (run cb (map failure ts)) now ≡ true)
      × (is_circuit_broken (run cb (map failure ts)) now ≡ false)
unfolding is_allowed is_circuit_broken
run-is_allowed cb t now ts v since h = ground (arith, run-broken cb ts)
