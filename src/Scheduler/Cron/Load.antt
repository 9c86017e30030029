-- ===== src/Scheduler/Cron/Load.antt =====
-- Which jobs `load_cron_jobs` of scheduler.rs makes.
use control_tower.Prelude.{
  ℕ, suc, ◌≡◌, refl, String, Option, none, some, List, [], ◌∷◌, ◌++◌, map, arith, All, Option-cases,
  Bool-cases, inl, inr, is_some, and_then, if◌then◌else◌, retain, append-nil, map-append,
}
use control_tower.Profiles.{ProfileItem, ProfilesYaml, manifest}
use control_tower.Text.{codes, trim}
use control_tower.Text.Numeral.{numeral}
use control_tower.Scheduler.{ProfileCronJob, Schedule, parse, new}
use control_tower.Scheduler.Backoff.{IsSchedule}
use control_tower.Scheduler.Parse.{accept, parse-numeral}
use control_tower.Scheduler.Cron.{job_of, jobs_of, load_cron_jobs}
use control_tower.Scheduler.Cron.Run.{IsJob}

parse-accept : (s : List ℕ) → parse s ≡ accept (numeral (trim s))
parse-accept s = rw (append-nil s) at (parse-numeral [] s [] tt tt)

-- The schedule that an item asks for.
abbrev pub wanted : ProfileItem → Option Schedule
wanted item = and_then item.cron (λ cron. accept (numeral (trim (codes cron))))

accept-IsSchedule : (o : Option ℕ) (s : Schedule) → accept o ≡ some s → IsSchedule s
accept-IsSchedule none s h = cc
accept-IsSchedule (some n) s h = ground arith

-- What is made of one item.
job_of_lem :
    (item : ProfileItem) (cron : Option String) (now : ℕ)
    → All IsJob (job_of item cron now)
      × (map (λ j. j.profile_id) (job_of item cron now) ≡ (
          if is_some (and_then cron (λ c. accept (numeral (trim (codes c)))))
          then item.uid ∷ []
          else []))
unfolding job_of new
job_of_lem item none now = (tt, refl)
job_of_lem item (some cron) now = elim (Option-cases (accept (numeral (trim (codes cron))))) [
  | inl e ↦ rw (parse-accept (codes cron), e, job_of) (tt, refl)
  | inr (s, e) ↦
      rw (parse-accept (codes cron), e, job_of)
        ((accept-IsSchedule (numeral (trim (codes cron))) s e, tt), refl)
]

All-append : (xs ys : List ProfileCronJob) → All IsJob xs → All IsJob ys → All IsJob (xs ++ ys)
All-append [] ys h k = k
All-append (x ∷ xs) ys h k = (h.0, All-append xs ys h.1 k)

jobs_of_lem :
    (clock : ℕ → ℕ) (i : ℕ) (items : List ProfileItem)
    → All IsJob (jobs_of clock i items)
      × (map (λ j. j.profile_id) (jobs_of clock i items)
          ≡ map (λ item. item.uid) (retain (λ item. is_some (wanted item)) items))
unfolding jobs_of
jobs_of_lem clock i [] = (tt, refl)
jobs_of_lem clock i (item ∷ items) =
    let (v, ids) = job_of_lem item item.cron (clock i) in
    let (vs, rest) = jobs_of_lem clock (suc i) items in
    (
      All-append (job_of item item.cron (clock i)) (jobs_of clock (suc i) items) v vs,
      rw
          (
            map-append (λ (j : ProfileCronJob). j.profile_id) (job_of item item.cron (clock i)),
            ids,
            rest,
          )
          (elim (Bool-cases (is_some (wanted item))) [ inl e ↦ rw e refl | inr e ↦ rw e refl ]),
    )

-- From a manifest that can be read, the jobs are those of the items whose cron text is a numeral
-- from 1 to 10080, in the manifest's order, each under its item's uid and with a schedule in range,
-- whatever jobs there were before.
pub load_cron_jobs-manifest :
    (y : ProfilesYaml) (clock : ℕ → ℕ) (jobs : List ProfileCronJob)
    → All IsJob (load_cron_jobs (manifest y) clock jobs)
      × (map (λ j. j.profile_id) (load_cron_jobs (manifest y) clock jobs)
          ≡ map (λ item. item.uid) (retain (λ item. is_some (wanted item)) y.items))
unfolding load_cron_jobs
load_cron_jobs-manifest y clock jobs = jobs_of_lem clock 0 y.items
