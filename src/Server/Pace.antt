-- ===== src/Server/Pace.antt =====
-- How often the loop of `run_server` checks the cron jobs.
use control_tower.Prelude.{
  ℕ, suc, ◌+◌, ◌-◌, ◌*◌, ◌≤◌, ◌<◌, List, [], ◌∷◌, ◌++◌, ◌≡◌, refl, leb, arith, Bool-cases, inl, inr,
}
use control_tower.Settings.{SettingsData}
use control_tower.Settings.Store.{Runtime}
use control_tower.Server.{
  Server, Times, Action, check_and_run_crons, check_and_update_all_profiles, run_auto_latency_test,
  refresh_providers, round, work, run_server, start, cron_check_interval,
}

-- How many of the actions are checks of the cron jobs.
pub checks : List Action → ℕ
checks [] = 0
checks (check_and_run_crons ∷ acts) = suc (checks acts)
checks (check_and_update_all_profiles ∷ acts) = checks acts
checks (run_auto_latency_test ∷ acts) = checks acts
checks (refresh_providers port ∷ acts) = checks acts

checks-append : (acts bs : List Action) → checks (acts ++ bs) ≡ checks acts + checks bs
unfolding checks
checks-append [] bs = omega arith
checks-append (check_and_run_crons ∷ acts) bs = omega (arith, checks-append acts bs)
checks-append (check_and_update_all_profiles ∷ acts) bs = omega (arith, checks-append acts bs)
checks-append (run_auto_latency_test ∷ acts) bs = omega (arith, checks-append acts bs)
checks-append (refresh_providers port ∷ acts) bs = omega (arith, checks-append acts bs)

-- The rounds stand in the order of the clock, which shows `now` before them.
unfoldable pub IsOrdered : ℕ → List (Times × SettingsData) → Type 0
IsOrdered now [] = Unit {0}
IsOrdered now ((t, settings) ∷ ts) = (now ≤ t.begun) × (t.begun ≤ t.ended) × IsOrdered t.ended ts

-- When the last round begins.
pub last_begun : ℕ → List (Times × SettingsData) → ℕ
last_begun now [] = now
last_begun now ((t, settings) ∷ ts) = last_begun t.begun ts

checks-work :
    (t : Times) (settings : SettingsData) (rt : Runtime) (s : Server)
    → checks (work t settings rt s).0 ≡ 1
unfolding work checks
checks-work t settings rt s = ground arith

checked_at :
    (t : Times) (settings : SettingsData) (rt : Runtime) (s : Server)
    → (work t settings rt s).2.last_cron_check ≡ t.ended
unfolding work
checked_at t settings rt s = refl

-- One round keeps the pace.
round-pace :
    (t : Times) (settings : SettingsData) (rt : Runtime) (s : Server)
    → t.begun ≤ t.ended
    → s.last_cron_check ≤ t.begun
    → let r = round t settings rt s in
      (60000 * checks r.0 + s.last_cron_check ≤ r.2.last_cron_check)
      × (r.2.last_cron_check ≤ t.ended)
      × (t.begun < r.2.last_cron_check + 60000)
unfolding round checks
round-pace t settings rt s h k =
    elim (Bool-cases (leb cron_check_interval (t.begun - s.last_cron_check))) [
      | inl e ↦ rw e (ground (arith, checks-work t settings rt s, checked_at t settings rt s, e))
      | inr e ↦ rw e (ground (arith, e))
    ]

run-pace :
    (ts : List (Times × SettingsData)) (rt : Runtime) (s : Server) (now begun : ℕ)
    → IsOrdered now ts
    → s.last_cron_check ≤ now
    → begun < s.last_cron_check + 60000
    → let r = run_server ts rt s in
      (60000 * checks r.0 + s.last_cron_check ≤ r.2.last_cron_check)
      × (last_begun begun ts < r.2.last_cron_check + 60000)
unfolding run_server IsOrdered last_begun checks
run-pace [] rt s now begun o h k = (omega arith, k)
run-pace ((t, settings) ∷ ts) rt s now begun o h k =
    let one = round t settings rt s in
    let p = round-pace t settings rt s o.1 (omega (arith, o.0, h)) in
    let rest = run-pace ts one.1 one.2 t.ended t.begun o.2 p.1 p.2 in
    (omega (arith, p.0, rest.0, checks-append one.0 (run_server ts one.1 one.2).0), rest.1)

-- In any run of the loop of `run_server`, whatever the settings and the state, the checks of the
-- cron jobs are a minute apart or more on average, and none is overdue: when the last round begins,
-- the last check has ended less than a minute ago, or is made in that round.
pub run_server-pace :
    (ts : List (Times × SettingsData)) (rt : Runtime) (now : ℕ) (settings : SettingsData)
    → IsOrdered now ts
    → let r = run_server ts rt (start now settings).1 in
      (60000 * checks r.0 + now ≤ r.2.last_cron_check)
      × (last_begun now ts < r.2.last_cron_check + 60000)
unfolding start
run_server-pace ts rt now settings o =
    run-pace ts rt (start now settings).1 now now o (omega arith) (omega arith)
