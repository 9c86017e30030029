-- ===== src/Scheduler.antt =====
-- crates/control-tower-service/src/scheduler.rs: `Schedule` and `ProfileCronJob`, the jobs that
-- update subscriptions. Timestamps are seconds since 1970, not negative.
pub mod Parse
pub mod Backoff
pub mod Cron
pub mod Subscription
use control_tower.Prelude.{
  ℕ, ◌+◌, ◌*◌, ◌^◌, ◌%◌, String, Bool, true, false, ◌||◌, Option, none, some, List, min, ltb, leb,
  if◌then◌else◌, and_then, is_empty,
}
use control_tower.Profiles.{ProfileDownloadOptions}
use control_tower.Text.{codes, trim, parse_u32}

-- `settings::consts::MAX_CRON_INTERVAL_MINS`
abbrev pub max_cron_interval_mins : ℕ
max_cron_interval_mins = 10080

abbrev pub max_backoff_secs : ℕ
max_backoff_secs = 6 * 60 * 60

pub record Schedule : Type 0 where
  pub minutes : ℕ

in_range : ℕ → Option Schedule
in_range minutes =
    if ltb minutes 1 || ltb max_cron_interval_mins minutes
    then none
    else some (record { minutes = minutes })

unfoldable pub parse : List ℕ → Option Schedule
unfolding in_range
parse s = let t = trim s in if is_empty t then none else and_then (parse_u32 t) in_range

unfoldable pub next_run_seconds : Schedule → ℕ
next_run_seconds s = s.minutes * 60

pub record ProfileCronJob : Type 0 where
  pub profile_id : String
  pub file : Option String
  pub url : Option String
  pub schedule : Schedule
  pub last_run : Option ℕ
  pub next_run : ℕ
  pub failure_count : ℕ
  pub last_error : Option String
  pub options : Option ProfileDownloadOptions

unfoldable pub new :
    String
    → Option String
    → Option String
    → Schedule
    → Option ProfileDownloadOptions
    → ℕ
    → ProfileCronJob
unfolding next_run_seconds
new profile_id file url schedule options now = record {
  profile_id = profile_id;
  file = file;
  url = url;
  schedule = schedule;
  last_run = none;
  next_run = now + next_run_seconds schedule;
  failure_count = 0;
  last_error = none;
  options = options;
}

-- The `u32` counter wraps in a release build.
unfoldable pub mark_failure : ProfileCronJob → String → ℕ → ProfileCronJob
unfolding next_run_seconds
mark_failure job error now =
    let count : ℕ = (job.failure_count + 1) % 2 ^ 32 in
    let backoff : ℕ = next_run_seconds job.schedule * 2 ^ min count 20 in
    record job {
      last_error = some error;
      failure_count = count;
      next_run = now + min backoff max_backoff_secs;
    }

unfoldable pub mark_success : ProfileCronJob → ℕ → ProfileCronJob
unfolding next_run_seconds
mark_success job now = record job {
  last_error = none;
  failure_count = 0;
  last_run = some now;
  next_run = now + next_run_seconds job.schedule;
}

unfoldable pub is_due : ProfileCronJob → ℕ → Bool
is_due job now = leb job.next_run now
