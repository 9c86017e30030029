-- ===== src/Server.antt =====
-- The main loop of the daemon: `run_server` of crates/control-tower-service/src/main.rs. A round of
-- the loop checks the cron jobs, starts the automatic latency test and asks Mihomo to refresh the
-- rule providers, each if it is due. Times of the monotonic clock are in milliseconds.
pub mod Pace
use control_tower.Prelude.{
  ℕ, ◌-◌, ◌*◌, ◌/◌, max, min, Bool, true, false, Option, none, some, List, [], ◌∷◌, ◌++◌,
  if◌then◌else◌, map_or, unwrap_or, leb, ltb, is_empty,
}
use control_tower.Profiles.{RuleProviderConfig}
use control_tower.Settings.{SettingsData}
use control_tower.Settings.Store.{Runtime}
use control_tower.Latency.{should_run}

-- `last_cron_check` and `last_provider_refresh`.
pub record Server : Type 0 where
  pub last_cron_check : ℕ
  pub last_provider_refresh : ℕ

-- When a round begins, when the check of its cron jobs has ended, when its request for a refresh
-- has ended, and when its work is done; and the wall clock in seconds.
pub record Times : Type 0 where
  pub begun : ℕ
  pub checked : ℕ
  pub refreshed : ℕ
  pub ended : ℕ
  pub wall : ℕ

pub data Action : Type 0 where
  check_and_update_all_profiles check_and_run_crons run_auto_latency_test : Action
  -- PUT /configs?force=true, at the port.
  refresh_providers : ℕ → Action

-- The least interval of a provider that has one.
unfoldable pub least_interval : List RuleProviderConfig → Option ℕ
least_interval [] = none
least_interval (p ∷ ps) =
    let rest = least_interval ps in
    if ltb 0 p.interval then some (map_or rest p.interval (λ i. min p.interval i)) else rest

abbrev pub min_interval_secs : List RuleProviderConfig → ℕ
min_interval_secs providers = max (unwrap_or (least_interval providers) 3600) 60

-- Whether the providers are to be refreshed.
unfoldable pub refresh_due : Times → SettingsData → Server → Bool
unfolding least_interval
refresh_due t settings s = map_or settings.rule_providers false (λ providers.
    if is_empty providers
    then false
    else leb (min_interval_secs providers) ((t.checked - s.last_provider_refresh) / 1000))

abbrev pub cron_check_interval : ℕ
cron_check_interval = 60000

-- A round that checks the cron jobs.
unfoldable pub work : Times → SettingsData → Runtime → Server → List Action × Runtime × Server
unfolding should_run refresh_due
work t settings rt s =
    let tested = should_run t.wall rt.auto_test in
    let due : Bool = refresh_due t settings s in
    (
      check_and_run_crons ∷ (if tested.0 then run_auto_latency_test ∷ [] else [])
          ++ (if due then refresh_providers rt.api_port ∷ [] else []),
      record rt { auto_test = tested.1 },
      record {
        last_cron_check = t.ended;
        last_provider_refresh = if due then t.refreshed else s.last_provider_refresh;
      },
    )

unfoldable pub round : Times → SettingsData → Runtime → Server → List Action × Runtime × Server
unfolding work
round t settings rt s =
    if leb cron_check_interval (t.begun - s.last_cron_check)
    then work t settings rt s
    else ([], rt, s)

-- What happens before the loop, at a time of the clock.
unfoldable pub start : ℕ → SettingsData → List Action × Server
start now settings = (
  if unwrap_or settings.auto_update_on_startup false
      then check_and_update_all_profiles ∷ []
      else [],
  record { last_cron_check = now; last_provider_refresh = now },
)

-- Rounds one after the other, each with the settings that are read in it.
unfoldable pub run_server :
    List (Times × SettingsData) → Runtime → Server → List Action × Runtime × Server
unfolding round
run_server [] rt s = ([], rt, s)
run_server ((t, settings) ∷ ts) rt s =
    let one = round t settings rt s in
    let rest = run_server ts one.1 one.2 in (one.0 ++ rest.0, rest.1, rest.2)
