-- ===== src/Scheduler/Cron/Run.antt =====
-- `check_and_run_crons` of scheduler.rs against its description job by job.
use control_tower.Prelude.{
  ℕ, suc, ◌+◌, ◌%◌, ◌^◌, min, ◌≤◌, ◌≡◌, refl, ap, String, false, Option, none, some, List, [], ◌∷◌,
  ◌++◌, map, arith, length, length-append, All, if◌then◌else◌, Bool-cases, inl, inr, append_assoc,
}
use control_tower.Files.{FilePath, Files}
use control_tower.Scheduler.{ProfileCronJob, is_due, mark_failure, mark_success, next_run_seconds}
use control_tower.Scheduler.Backoff.{IsSchedule, wait_bounds}
use control_tower.Scheduler.Subscription.{
  Internet, UpdateResult, ok, err, update_profile_subscription, update_profile_subscription_same,
}
use control_tower.Scheduler.Cron.{
  Due, Fetched, job_file, due_job, due_jobs, fetch, fetch_all, mark, mark_at, stamps, apply_results,
  check_and_run_crons,
}

-- How the update of a job ends, with the files that the check begins with.
pub outcome : Internet → FilePath → Files → ProfileCronJob → Option String → UpdateResult
outcome net dir fs job none = err "No URL configured"
outcome net dir fs job (some url) =
    (update_profile_subscription net url job.options (job_file fs dir job.file job.profile_id) fs).0

module _ (net : Internet) (dir : FilePath) (now : ℕ) (clock : ℕ → ℕ) (fs : Files) where
  -- Every due job, and no other, is marked by its own outcome.
  pub run_each : ℕ → List ProfileCronJob → List ProfileCronJob
  run_each i [] = []
  run_each i (job ∷ jobs) =
      (if is_due job now then mark (outcome net dir fs job job.url) (clock i) job else job)
      ∷ run_each (suc i) jobs

  abbrev stamp_of : UpdateResult → String → List String
  stamp_of ok uid = uid ∷ []
  stamp_of (err e) uid = []

  -- The profiles of the due jobs whose update succeeds, in order.
  pub stamp_each : List ProfileCronJob → List String
  stamp_each [] = []
  stamp_each (job ∷ jobs) =
      (if is_due job now then stamp_of (outcome net dir fs job job.url) job.profile_id else [])
      ++ stamp_each jobs

  fetched : Due → Fetched
  fetched d = record { idx = d.idx; profile_id = d.profile_id; result = (fetch net d d.url fs).0 }

  fetch_same :
      (d : Due) (url : Option String) (fs' : Files)
      → (fetch net d url fs').0 ≡ (fetch net d url fs).0
  unfolding fetch
  fetch_same d none fs' = refl
  fetch_same d (some url) fs' =
      update_profile_subscription_same net url d.options d.profile_file fs' fs

  fetch_all-fetched : (ds : List Due) (fs' : Files) → (fetch_all net ds fs').0 ≡ map fetched ds
  unfolding fetch_all fetched
  fetch_all-fetched [] fs' = refl
  fetch_all-fetched (d ∷ ds) fs' =
      rw (fetch_same d d.url fs')
        (ap (λ rs. fetched d ∷ rs) (fetch_all-fetched ds (fetch net d d.url fs').1))

  fetched-outcome :
      (i : ℕ) (job : ProfileCronJob) (url : Option String)
      → (fetch net (due_job fs dir i job) url fs).0 ≡ outcome net dir fs job url
  unfolding fetch outcome due_job
  fetched-outcome i job none = refl
  fetched-outcome i job (some url) = refl

  mark_at-append :
      (pre jobs : List ProfileCronJob) (job : ProfileCronJob) (r : UpdateResult) (t : ℕ)
      → mark_at (pre ++ job ∷ jobs) (length pre) r t ≡ (pre ++ mark r t job ∷ []) ++ jobs
  mark_at-append [] jobs job r t = refl
  mark_at-append (x ∷ pre) jobs job r t = ap (◌∷◌ x) (mark_at-append pre jobs job r t)

  stamps-append :
      (pre jobs : List ProfileCronJob) (job : ProfileCronJob) (r : UpdateResult) (uid : String)
      → stamps (pre ++ job ∷ jobs) (length pre) r uid ≡ stamp_of r uid
  stamps-append [] jobs job ok uid = refl
  stamps-append [] jobs job (err e) uid = refl
  stamps-append (x ∷ pre) jobs job r uid = stamps-append pre jobs job r uid

  length-snoc :
      (pre : List ProfileCronJob) (x : ProfileCronJob) → length (pre ++ x ∷ []) ≡ suc (length pre)
  length-snoc pre x = omega (arith, length-append pre (x ∷ []))

  apply_results-run_each :
      (pre jobs : List ProfileCronJob)
      → apply_results clock (map fetched (due_jobs fs dir now (length pre) jobs)) (pre ++ jobs)
        ≡ (pre ++ run_each (length pre) jobs, stamp_each jobs)
  unfolding due_jobs apply_results run_each stamp_each fetched due_job
  apply_results-run_each pre [] = refl
  apply_results-run_each pre (job ∷ jobs) = elim (Bool-cases (is_due job now)) [
    | inl due ↦
        let r : UpdateResult = outcome net dir fs job job.url in
        let m : ProfileCronJob = mark r (clock (length pre)) job in
        let ih = rw (length-snoc pre m) at (apply_results-run_each (pre ++ m ∷ []) jobs) in
        rw
          (
            due,
            fetched-outcome (length pre) job job.url,
            mark_at-append pre jobs job r (clock (length pre)),
            stamps-append pre jobs job r job.profile_id,
            ih,
            append_assoc pre (m ∷ []) (run_each (suc (length pre)) jobs),
          )
          refl
    | inr idle ↦
        let ih = apply_results-run_each (pre ++ job ∷ []) jobs in
        rw idle (
          rw
            (
              length-snoc pre job,
              append_assoc pre (job ∷ []) jobs,
              append_assoc pre (job ∷ []) (run_each (suc (length pre)) jobs),
            )
            at ih)
  ]

  -- If nobody else changes the jobs meanwhile, one check marks every job that is due, and no
  -- other, by the outcome of its own update, successes and failures alike; and it sets `updated_at`
  -- of exactly the profiles whose update succeeded.
  pub check_and_run_crons-run_each :
      (jobs : List ProfileCronJob)
      → ((check_and_run_crons net dir now clock fs jobs).0 ≡ run_each 0 jobs)
        × ((check_and_run_crons net dir now clock fs jobs).2 ≡ stamp_each jobs)
  unfolding check_and_run_crons
  check_and_run_crons-run_each jobs =
      rw (fetch_all-fetched (due_jobs fs dir now 0 jobs) fs, apply_results-run_each [] jobs)
        (refl, refl)

abbrev pub IsJob : ProfileCronJob → Type 0
IsJob job = IsSchedule job.schedule

schedule-mark :
    (r : UpdateResult) (t : ℕ) (job : ProfileCronJob) → (mark r t job).schedule ≡ job.schedule
unfolding mark mark_success mark_failure
schedule-mark ok t job = refl
schedule-mark (err e) t job = refl

mark_idle :
    (r : UpdateResult) (now t : ℕ) (job : ProfileCronJob)
    → IsJob job
    → now ≤ t
    → is_due (mark r t job) now ≡ false
unfolding mark mark_success mark_failure is_due next_run_seconds
mark_idle ok now t job v h = ground arith
mark_idle (err e) now t job v h =
    ground (arith, wait_bounds job.schedule (min ((job.failure_count + 1) % 2 ^ 32) 20) v)

module _ (net : Internet) (dir : FilePath) (now : ℕ) (clock : ℕ → ℕ) (fs : Files)
    (later : (i : ℕ) → now ≤ clock i) where
  run_each-idle :
      (i : ℕ) (jobs : List ProfileCronJob)
      → All IsJob jobs
      → All (λ job. IsJob job × (is_due job now ≡ false)) (run_each net dir now clock fs i jobs)
  unfolding run_each
  run_each-idle i [] v = tt
  run_each-idle i (job ∷ jobs) v = elim (Bool-cases (is_due job now)) [
    | inl due ↦
        let r : UpdateResult = outcome net dir fs job job.url in
        rw due (
          (rw (schedule-mark r (clock i) job) v.0, mark_idle r now (clock i) job v.0 (later i)),
          run_each-idle (suc i) jobs v.1,
        )
    | inr idle ↦ rw idle ((v.0, idle), run_each-idle (suc i) jobs v.1)
  ]

  -- After a check, whose marks are not made before it began, no job is due at the time at which it
  -- began, whether its update succeeded or failed; and every job keeps a schedule in range.
  check_and_run_crons-idle :
      (jobs : List ProfileCronJob)
      → All IsJob jobs
      → All
          (λ job. IsJob job × (is_due job now ≡ false))
          (check_and_run_crons net dir now clock fs jobs).0
  check_and_run_crons-idle jobs v =
      rw ((check_and_run_crons-run_each net dir now clock fs jobs).0) (run_each-idle 0 jobs v)
