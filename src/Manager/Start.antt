-- ===== src/Manager/Start.antt =====
-- What one call of `MihomoManager::start` in mihomo.rs does, on every branch.
use control_tower.Prelude.{ℕ, ◌≡◌, Bool, true, false, ◌&&◌, ◌||◌, some, arith, is_some}
use control_tower.Breaker.{CircuitBreaker, is_allowed, record_failure, record_success}
use control_tower.Files.{FilePath}
use control_tower.Manager.{
  MihomoManager, Host, Outcome, ok, err, breaker_active, log_failed, is_alive, is_running,
  ensure_mihomo, start,
}

pub ensure_mihomo_keeps :
    (m : MihomoManager) (h : Host)
    → ((ensure_mihomo m h).1.child ≡ m.child)
      × ((ensure_mihomo m h).1.circuit_breaker ≡ m.circuit_breaker)
unfolding ensure_mihomo
ensure_mihomo_keeps m h = ground arith

-- A binary that one call has found, and that is still there, is what the next call returns, with
-- no new search and no change.
pub ensure_mihomo_again :
    (m : MihomoManager) (h : Host) (p : FilePath)
    → (ensure_mihomo m h).0 ≡ some p
    → h.exists p ≡ true
    → ensure_mihomo (ensure_mihomo m h).1 h ≡ (some p, (ensure_mihomo m h).1)
unfolding ensure_mihomo
ensure_mihomo_again m h p found there = ground arith

abbrev pub is_ok : Outcome → Bool
is_ok ok = true
is_ok (err e) = false

-- When a start succeeds, read off the documentation of the steps.
abbrev pub can_start : MihomoManager → Host → FilePath → Bool
can_start m h config =
    is_running m h.before
    || (is_allowed m.circuit_breaker h.asked_at
        && (is_some (ensure_mihomo m h).0
            && (h.exists config
                && (is_some h.exe_dir && (h.log_file && (is_some h.spawn && is_alive h.after))))))

-- A start succeeds exactly if the child runs already, or the breaker allows it, the binary is found
-- or installed, the config file exists, the executable's directory and the log file are there, the
-- spawn succeeds, and the child still runs 100 ms later.
pub start-can_start :
    (m : MihomoManager) (h : Host) (config : FilePath)
    → is_ok (start m h config).0 ≡ can_start m h config
unfolding start is_running
start-can_start m h config = ground (arith, ensure_mihomo_keeps m h)

-- What the outcome says of the breaker.
abbrev pub breaker_after : Outcome → CircuitBreaker → ℕ → CircuitBreaker
breaker_after ok cb t = record_success cb
breaker_after (err (breaker_active secs)) cb t = cb
breaker_after (err log_failed) cb t = cb
breaker_after (err _) cb t = record_failure cb t

-- A start that succeeds is recorded as a success, a refusal by the breaker and a log file that
-- cannot be opened are not recorded, and every other error is recorded as one failure.
circuit_breaker-start :
    (m : MihomoManager) (h : Host) (config : FilePath)
    → (start m h config).1.circuit_breaker
      ≡ breaker_after (start m h config).0 m.circuit_breaker h.failed_at
unfolding start
circuit_breaker-start m h config = ground (arith, ensure_mihomo_keeps m h)
