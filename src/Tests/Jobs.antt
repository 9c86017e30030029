-- ===== src/Tests/Jobs.antt =====
-- The schedules and jobs of scheduler.rs on concrete inputs.
use control_tower.Prelude.{
  ℕ, ◌≡◌, ◌<◌, ◌+◌, refl, true, false, none, some, List, [], ◌∷◌, ◌++◌, arith, map, retain, is_some,
  All,
}
use control_tower.Text.{codes}
use control_tower.Files.{Files}
use control_tower.Profiles.{ProfileItem, ProfilesYaml, manifest}
use control_tower.Scheduler.{Schedule, ProfileCronJob, is_due, max_backoff_secs}
use control_tower.Scheduler.Backoff.{IsSchedule, fail_all, wait, fail_all-wait}
use control_tower.Scheduler.Subscription.{
  Internet, body, ok, request, update_profile_subscription, Accepted, Updates,
  update_profile_subscription-Updates,
}
use control_tower.Scheduler.Cron.{load_cron_jobs, check_and_run_crons}
use control_tower.Scheduler.Cron.Load.{wanted, load_cron_jobs-manifest}
use control_tower.Scheduler.Cron.Run.{IsJob, run_each, stamp_each, check_and_run_crons-run_each}

abbrev hourly : Schedule
hourly = record { minutes = 60 }

hourly-IsSchedule : IsSchedule hourly
hourly-IsSchedule = (omega arith, omega arith)

abbrev job : ProfileCronJob
job = record {
  profile_id = "abcdefghij";
  file = some "a.yaml";
  url = some "http://a";
  schedule = hourly;
  last_run = none;
  next_run = 10;
  failure_count = 0;
  last_error = none;
  options = none;
}

abbrev internet : Internet
internet = record {
  mihomo_port = 7890;
  ask = λ r. body (codes "proxies:");
  write_error = λ p. none;
}

abbrev files : Files
files = λ p. none

abbrev failing : ProfileCronJob
failing = fail_all job (("x", 20) ∷ ("y", 30) ∷ [] ++ ("z", 40) ∷ [])

fail_all-wait_example :
    (failing.next_run ≡ 40 + wait hourly 3)
    × (failing.failure_count ≡ 3)
    × (failing.last_error ≡ some "z")
    × ((now : ℕ) → now < 100 → is_due failing now ≡ false)
    × (is_due failing (40 + max_backoff_secs) ≡ true)
fail_all-wait_example =
    fail_all-wait job (("x", 20) ∷ ("y", 30) ∷ []) "z" 40 hourly-IsSchedule refl (omega arith)

update_profile_subscription-Updates_example :
    Updates
      (update_profile_subscription internet "http://a" none ("a.yaml" ∷ []) files).0
      internet
      (request internet "http://a" none)
      ("a.yaml" ∷ [])
      files
      (update_profile_subscription internet "http://a" none ("a.yaml" ∷ []) files).1
    × ((text : List ℕ)
        → internet.ask (request internet "http://a" none) ≡ body text
        → Accepted text
        → internet.write_error ("a.yaml" ∷ []) ≡ none
        → (update_profile_subscription internet "http://a" none ("a.yaml" ∷ []) files).0 ≡ ok)
update_profile_subscription-Updates_example =
    update_profile_subscription-Updates internet "http://a" none ("a.yaml" ∷ []) files

abbrev item : ProfileItem
item = record {
  uid = "abcdefghij";
  name = none;
  file = some "a.yaml";
  url = some "http://a";
  cron = some " 60";
  updated_at = none;
  options = none;
  kind = none;
  script = none;
  merge = [];
}

abbrev profiles : ProfilesYaml
profiles = record { current = none; items = item ∷ record item { cron = some "0" } ∷ [] }

load_cron_jobs-manifest_example :
    All IsJob (load_cron_jobs (manifest profiles) (λ i. i) (job ∷ []))
    × (map (λ j. j.profile_id) (load_cron_jobs (manifest profiles) (λ i. i) (job ∷ []))
        ≡ map (λ i. i.uid) (retain (λ i. is_some (wanted i)) profiles.items))
load_cron_jobs-manifest_example = load_cron_jobs-manifest profiles (λ i. i) (job ∷ [])

check_and_run_crons-run_each_example :
    ((check_and_run_crons internet [] 20 (λ i. 20 + i) files (job ∷ [])).0
      ≡ run_each internet [] 20 (λ i. 20 + i) files 0 (job ∷ []))
    × ((check_and_run_crons internet [] 20 (λ i. 20 + i) files (job ∷ [])).2
        ≡ stamp_each internet [] 20 (λ i. 20 + i) files (job ∷ []))
check_and_run_crons-run_each_example =
    check_and_run_crons-run_each internet [] 20 (λ i. 20 + i) files (job ∷ [])
