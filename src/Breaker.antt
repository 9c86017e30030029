-- ===== src/Breaker.antt =====
-- crates/control-tower-service-core/src/state.rs: `CircuitBreaker`, which stops automatic restarts
-- of Mihomo for a while after repeated failures. An `Instant` is a number of nanoseconds, and
-- `elapsed` is the truncated difference, as in Rust. Each call that reads the clock takes the
-- reading as its last argument.
pub mod Invariant
pub mod History
pub mod Cooldown
use control_tower.Prelude.{
  ℕ, ◌+◌, ◌-◌, ◌*◌, ◌/◌, Bool, true, false, not, ◌&&◌, Option, none, some, List, [], ◌∷◌, leb,
  is_some, if◌then◌else◌,
}

abbrev pub circuit_breaker_max_failures : ℕ
circuit_breaker_max_failures = 3

abbrev pub circuit_breaker_cooldown_secs : ℕ
circuit_breaker_cooldown_secs = 60

-- Nanoseconds in a second.
abbrev pub second : ℕ
second = 1_000_000_000

pub record CircuitBreaker : Type 0 where
  pub failure_count : ℕ
  pub is_broken : Bool
  pub broken_at : Option ℕ
  pub cooldown : ℕ

-- `CircuitBreaker::new` and `default`
unfoldable pub new : CircuitBreaker
new = record {
  failure_count = 0;
  is_broken = false;
  broken_at = none;
  cooldown = circuit_breaker_cooldown_secs * second;
}

abbrev cooled : Option ℕ → ℕ → ℕ → Bool
cooled none cooldown now = false
cooled (some t) cooldown now = leb cooldown (now - t)

unfoldable pub is_allowed : CircuitBreaker → ℕ → Bool
is_allowed cb now = if not cb.is_broken then true else cooled cb.broken_at cb.cooldown now

unfoldable pub record_failure : CircuitBreaker → ℕ → CircuitBreaker
record_failure cb now =
    if cb.is_broken
    then cb
    else (let failed : CircuitBreaker = record cb { failure_count = cb.failure_count + 1 } in
        if leb circuit_breaker_max_failures failed.failure_count
        then record failed { is_broken = true; broken_at = some now }
        else failed)

unfoldable pub record_success : CircuitBreaker → CircuitBreaker
record_success cb = record cb { failure_count = 0; is_broken = false; broken_at = none }

abbrev remaining : Option ℕ → ℕ → ℕ → Option ℕ
remaining none cooldown now = none
remaining (some t) cooldown now =
    if leb cooldown (now - t) then none else some ((cooldown - (now - t)) / second)

unfoldable pub remaining_cooldown_secs : CircuitBreaker → ℕ → Option ℕ
remaining_cooldown_secs cb now =
    if not cb.is_broken then none else remaining cb.broken_at cb.cooldown now

unfoldable pub is_circuit_broken : CircuitBreaker → ℕ → Bool
unfolding remaining_cooldown_secs
is_circuit_broken cb now = cb.is_broken && is_some (remaining_cooldown_secs cb now)

-- The calls that change a breaker, a failure with the time at which it is recorded.
pub data Call : Type 0 where
  failure : ℕ → Call
  success : Call

unfoldable pub step : CircuitBreaker → Call → CircuitBreaker
unfolding record_failure record_success
step cb (failure now) = record_failure cb now
step cb success = record_success cb

pub run : CircuitBreaker → List Call → CircuitBreaker
run cb [] = cb
run cb (c ∷ cs) = run (step cb c) cs
