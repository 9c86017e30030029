-- ===== src/Scheduler/Cron.antt =====
-- The operations of scheduler.rs on the list of jobs: `load_cron_jobs`, `check_and_run_crons` with
-- its three phases, `update_profile_updated_at` and `check_and_update_all_profiles`.
pub mod Load
pub mod Run
use control_tower.Prelude.{
  ℕ, zero, suc, ◌+◌, String, Bool, true, false, not, ◌||◌, Option, none, some, List, [], ◌∷◌, ◌++◌,
  map, str_eq, if◌then◌else◌,
}
use control_tower.Files.{FilePath, Files, join, yaml_file, short_file, is_long, exists}
use control_tower.Profiles.{
  ProfileDownloadOptions, ProfileItem, ProfilesYaml, Manifest, missing, unreadable, invalid,
  manifest,
}
use control_tower.Text.{codes}
use control_tower.Scheduler.{
  ProfileCronJob, Schedule, parse, new, mark_failure, mark_success, is_due,
}
use control_tower.Scheduler.Subscription.{
  Internet, UpdateResult, ok, err, update_profile_subscription,
}

-- The job of one item, if its cron text is a schedule.
job_of : ProfileItem → Option String → ℕ → List ProfileCronJob
job_of item none now = []
job_of item (some cron) now = elim (parse (codes cron)) [
  | none ↦ []
  | some schedule ↦ new item.uid item.file item.url schedule item.options now ∷ []
]

-- `clock` gives the time at which the job of an item is made.
jobs_of : (ℕ → ℕ) → ℕ → List ProfileItem → List ProfileCronJob
unfolding job_of
jobs_of clock i [] = []
jobs_of clock i (item ∷ items) = job_of item item.cron (clock i) ++ jobs_of clock (suc i) items

-- The jobs are kept if the manifest cannot be read, and replaced otherwise.
unfoldable pub load_cron_jobs : Manifest → (ℕ → ℕ) → List ProfileCronJob → List ProfileCronJob
unfolding jobs_of
load_cron_jobs (manifest y) clock jobs = jobs_of clock 0 y.items
load_cron_jobs _ clock jobs = jobs

-- The profile's file of a job: the one that it names if that is there, else by the uid.
unfoldable pub job_file : Files → FilePath → Option String → String → FilePath
job_file fs dir (some f) uid =
    if exists fs (join dir f)
    then join dir f
    else if is_long uid
    then join dir (short_file uid)
    else join dir f
job_file fs dir none uid =
    if is_long uid then join dir (short_file uid) else join dir (yaml_file uid)

pub record Due : Type 0 where
  pub idx : ℕ
  pub profile_id : String
  pub url : Option String
  pub profile_file : FilePath
  pub options : Option ProfileDownloadOptions

due_job : Files → FilePath → ℕ → ProfileCronJob → Due
due_job fs dir i job = record {
  idx = i;
  profile_id = job.profile_id;
  url = job.url;
  profile_file = job_file fs dir job.file job.profile_id;
  options = job.options;
}

-- First phase, under the lock: the due jobs with their positions, from position `i` on.
unfoldable pub due_jobs : Files → FilePath → ℕ → ℕ → List ProfileCronJob → List Due
unfolding due_job
due_jobs fs dir now i [] = []
due_jobs fs dir now i (job ∷ jobs) =
    let rest = due_jobs fs dir now (suc i) jobs in
    if is_due job now then due_job fs dir i job ∷ rest else rest

fetch : Internet → Due → Option String → Files → UpdateResult × Files
fetch net d none fs = (err "No URL configured", fs)
fetch net d (some url) fs = update_profile_subscription net url d.options d.profile_file fs

pub record Fetched : Type 0 where
  pub idx : ℕ
  pub profile_id : String
  pub result : UpdateResult

-- Second phase, without the lock: one request for each due job.
unfoldable pub fetch_all : Internet → List Due → Files → List Fetched × Files
unfolding fetch
fetch_all net [] fs = ([], fs)
fetch_all net (d ∷ ds) fs =
    let (r, fs') = fetch net d d.url fs in
    let (rs, fs'') = fetch_all net ds fs' in
    (record { idx = d.idx; profile_id = d.profile_id; result = r } ∷ rs, fs'')

mark : UpdateResult → ℕ → ProfileCronJob → ProfileCronJob
mark ok now job = mark_success job now
mark (err e) now job = mark_failure job e now

-- `jobs.get_mut(idx)` and the update of that job; nothing if there is no such job.
abbrev mark_at : List ProfileCronJob → ℕ → UpdateResult → ℕ → List ProfileCronJob
mark_at [] i r now = []
mark_at (job ∷ jobs) zero r now = mark r now job ∷ jobs
mark_at (job ∷ jobs) (suc i) r now = job ∷ mark_at jobs i r now

abbrev stamps : List ProfileCronJob → ℕ → UpdateResult → String → List String
stamps [] i r uid = []
stamps (job ∷ jobs) zero ok uid = uid ∷ []
stamps (job ∷ jobs) zero (err e) uid = []
stamps (job ∷ jobs) (suc i) r uid = stamps jobs i r uid

-- Third phase, under the lock again, on the jobs as they are by then: the outcome goes to the job
-- at the same position. The second part is the profiles whose `updated_at` is set.
unfoldable pub apply_results :
    (ℕ → ℕ) → List Fetched → List ProfileCronJob → List ProfileCronJob × List String
unfolding mark
apply_results clock [] jobs = (jobs, [])
apply_results clock (f ∷ rs) jobs =
    let (jobs', stamped) = apply_results clock rs (mark_at jobs f.idx f.result (clock f.idx)) in
    (jobs', stamps jobs f.idx f.result f.profile_id ++ stamped)

-- The whole check, when nobody else changes the jobs during the requests.
unfoldable pub check_and_run_crons :
    Internet
    → FilePath
    → ℕ
    → (ℕ → ℕ)
    → Files
    → List ProfileCronJob
    → List ProfileCronJob × Files × List String
check_and_run_crons net dir now clock fs jobs =
    let (rs, fs') = fetch_all net (due_jobs fs dir now 0 jobs) fs in
    let (jobs', stamped) = apply_results clock rs jobs in (jobs', fs', stamped)

stamp_item : String → ℕ → ProfileItem → ProfileItem
stamp_item uid now item =
    if str_eq item.uid uid then record item { updated_at = some now } else item

-- The manifest after a successful update of one profile.
unfoldable pub update_profile_updated_at : String → ℕ → Manifest → Manifest
unfolding stamp_item
update_profile_updated_at uid now (manifest y) =
    manifest (record y { items = map (stamp_item uid now) y.items })
update_profile_updated_at uid now m = m

-- The file of an item in the check at startup: a name that is not empty is taken even if there is
-- no such file.
unfoldable pub item_file : Files → FilePath → Option String → String → FilePath
item_file fs dir (some f) uid =
    if exists fs (join dir f) || not (str_eq f "")
    then join dir f
    else if is_long uid
    then join dir (short_file uid)
    else join dir (yaml_file uid)
item_file fs dir none uid =
    if is_long uid then join dir (short_file uid) else join dir (yaml_file uid)

succeeded : UpdateResult → Bool
succeeded ok = true
succeeded (err e) = false

update_item : Internet → FilePath → ProfileItem → Option String → Files → (String × Bool) × Files
unfolding succeeded
update_item net dir item none fs = ((item.uid, false), fs)
update_item net dir item (some url) fs =
    if str_eq url ""
    then ((item.uid, false), fs)
    else (let file = item_file fs dir item.file item.uid in
        let (r, fs') = update_profile_subscription net url item.options file fs in
        ((item.uid, succeeded r), fs'))

unfoldable pub update_items :
    Internet → FilePath → List ProfileItem → Files → List (String × Bool) × Files
unfolding update_item
update_items net dir [] fs = ([], fs)
update_items net dir (item ∷ items) fs =
    let (r, fs') = update_item net dir item item.url fs in
    let (rs, fs'') = update_items net dir items fs' in (r ∷ rs, fs'')

unfoldable pub check_and_update_all_profiles :
    Internet → FilePath → Manifest → Files → List (String × Bool) × Files
check_and_update_all_profiles net dir (manifest y) fs = update_items net dir y.items fs
check_and_update_all_profiles net dir _ fs = ([], fs)
