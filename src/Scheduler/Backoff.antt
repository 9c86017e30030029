-- ===== src/Scheduler/Backoff.antt =====
-- The times at which a job of scheduler.rs runs next, over any run of failures.
use control_tower.Prelude.{
  ℕ, zero, suc, ◌+◌, ◌*◌, ◌^◌, ◌%◌, ◌≤◌, ◌<◌, ◌≡◌, refl, ap, ◌∙◌, true, false, some, String, List,
  [], ◌∷◌, ◌++◌, min, arith, length,
}
use control_tower.Scheduler.{
  ProfileCronJob, Schedule, next_run_seconds, mark_failure, is_due, max_cron_interval_mins,
  max_backoff_secs,
}
use native.Mathlib.Nat.{pow-suc, mul-le-mul}
use native.Mathlib.Decide.{dec_lt}

-- A schedule that `parse` returns.
abbrev pub IsSchedule : Schedule → Type 0
IsSchedule s = (1 ≤ s.minutes) × (s.minutes ≤ max_cron_interval_mins)

-- The wait after the `n`-th failure in a row: the interval doubled `n` times, at most six hours.
abbrev pub wait : Schedule → ℕ → ℕ
wait s n = min (s.minutes * 60 * 2 ^ n) max_backoff_secs

-- Failures one after another, each with its error and time, oldest first.
pub fail_all : ProfileCronJob → List (String × ℕ) → ProfileCronJob
fail_all job [] = job
fail_all job ((e, t) ∷ fs) = fail_all (mark_failure job e t) fs

le-mul_pos : (x y : ℕ) → 1 ≤ x → y ≤ x * y
le-mul_pos x y h = grind arith

pow_mono : (m n : ℕ) → m ≤ n → 2 ^ m ≤ 2 ^ n
pow_mono m zero h = ap_le m zero (omega arith)
  where
    ap_le : (a b : ℕ) → a ≡ b → 2 ^ a ≤ 2 ^ b
    ap_le a b e = rw e (omega arith)
pow_mono m (suc n) h = elim (dec_lt m (suc n)) [
  | yes p ↦ omega (arith, pow-suc 2 n, pow_mono m n (omega arith))
  | no p ↦ let e : m ≡ suc n = omega arith in rw e (omega arith)
]

-- The cap of the exponent at 20 is never felt: six hours are reached long before.
wait_cap : (s : Schedule) (n : ℕ) → IsSchedule s → wait s (min n 20) ≡ wait s n
wait_cap s n v = elim (dec_lt n 20) [
  | yes p ↦ let e : min n 20 ≡ n = omega arith in ap (wait s) e
  | no p ↦
      let e : min n 20 ≡ 20 = omega arith in
      ap (wait s) e
      ∙ omega (
        arith,
        pow_mono 20 n (omega arith),
        le-mul_pos (s.minutes * 60) (2 ^ n) (omega arith),
        le-mul_pos (s.minutes * 60) (2 ^ 20) (omega arith),
      )
]

count-fail_all :
    (job : ProfileCronJob) (fs : List (String × ℕ))
    → job.failure_count + length fs < 2 ^ 32
    → ((fail_all job fs).failure_count ≡ job.failure_count + length fs)
      × ((fail_all job fs).schedule ≡ job.schedule)
unfolding fail_all mark_failure
count-fail_all job [] h = (omega arith, refl)
count-fail_all job ((e, t) ∷ fs) h =
    let one : (job.failure_count + 1) % 2 ^ 32 ≡ job.failure_count + 1 = omega arith in
    let (n, s) = count-fail_all (mark_failure job e t) fs (omega (arith, one)) in
    (omega (arith, n, one), s)

fail_all-snoc :
    (job : ProfileCronJob) (fs : List (String × ℕ)) (e : String) (t : ℕ)
    → fail_all job (fs ++ (e, t) ∷ []) ≡ mark_failure (fail_all job fs) e t
unfolding fail_all
fail_all-snoc job [] e t = refl
fail_all-snoc job ((d, u) ∷ fs) e t = fail_all-snoc (mark_failure job d u) fs e t

mark_failure-wait :
    (job : ProfileCronJob) (e : String) (t n : ℕ) (s : Schedule)
    → job.failure_count ≡ n
    → n + 1 < 2 ^ 32
    → job.schedule ≡ s
    → IsSchedule s
    → ((mark_failure job e t).next_run ≡ t + wait s (n + 1))
      × ((mark_failure job e t).failure_count ≡ n + 1)
      × ((mark_failure job e t).last_error ≡ some e)
unfolding mark_failure next_run_seconds
mark_failure-wait job e t n s c h k v =
    let one : (job.failure_count + 1) % 2 ^ 32 ≡ n + 1 = omega arith in
    rw (one, k) (ap (λ x. t + x) (wait_cap s (n + 1) v), refl, refl)

pub wait_bounds :
    (s : Schedule) (n : ℕ) → IsSchedule s → (60 ≤ wait s n) × (wait s n ≤ max_backoff_secs)
wait_bounds s n v = (
  omega (
    arith,
    pow_mono 0 n (omega arith),
    mul-le-mul {n₁ = 60} {m₁ = 1} {n₂ = s.minutes * 60} {m₂ = 2 ^ n} (omega arith)
        (pow_mono 0 n (omega arith)),
  ),
  omega arith,
)

-- After any failures in a row, the last at time `t` with error `e`, a job whose last run before
-- them succeeded has counted them all and keeps `e`; it runs next after its interval doubled as
-- often as it failed, but after six hours at most; it is not due within a minute, and is due six
-- hours later.
pub fail_all-wait :
    (job : ProfileCronJob) (fs : List (String × ℕ)) (e : String) (t : ℕ)
    → IsSchedule job.schedule
    → job.failure_count ≡ 0
    → length fs + 1 < 2 ^ 32
    → ((fail_all job (fs ++ (e, t) ∷ [])).next_run ≡ t + wait job.schedule (length fs + 1))
      × ((fail_all job (fs ++ (e, t) ∷ [])).failure_count ≡ length fs + 1)
      × ((fail_all job (fs ++ (e, t) ∷ [])).last_error ≡ some e)
      × ((now : ℕ) → now < t + 60 → is_due (fail_all job (fs ++ (e, t) ∷ [])) now ≡ false)
      × (is_due (fail_all job (fs ++ (e, t) ∷ [])) (t + max_backoff_secs) ≡ true)
unfolding is_due
fail_all-wait job fs e t v z h =
    let (c, k) = count-fail_all job fs (omega arith) in
    let (next, n, last) =
      mark_failure-wait (fail_all job fs) e t (length fs) job.schedule (omega (arith, c)) h k v in
    let b = wait_bounds job.schedule (length fs + 1) v in
    rw (fail_all-snoc job fs e t)
      (next, n, last, λ now early. ground (arith, next, b), ground (arith, next, b))
