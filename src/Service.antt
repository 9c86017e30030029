-- ===== src/Service.antt =====
-- crates/control-tower-service/src/service/lifecycle.rs: start, stop, status and restart of the
-- daemon's `ServiceState`, over the manager of mihomo.rs. What these methods ask of Mihomo's API
-- and write elsewhere comes back as a list of actions; what they read (the clock, settings.yaml,
-- config.yaml) stands in a `Startup`.
pub mod Status
pub mod Ipc
use control_tower.Prelude.{
  ℕ, ◌+◌, ◌-◌, ◌%◌, ◌^◌, String, Bool, true, false, not, Option, none, some, List, [], ◌∷◌, ◌++◌,
  if◌then◌else◌, unwrap_or, map_or, is_some,
}
use control_tower.Breaker.{remaining_cooldown_secs}
use control_tower.Manager
use control_tower.Files.{FilePath}
use control_tower.Manager.{
  MihomoManager, Host, Outcome, ok, err, StartError, ProcStatus, is_running, pid,
}

-- What the daemon writes to its log buffer.
pub data LogLine : Type 0 where
  starting : FilePath → LogLine
  started stopping stopped shutting_down restarting restarted no_previous : LogLine
  start_failed stop_failed restart_failed : StartError → LogLine

-- The fields that these methods use; the others belong to other components.
pub record ServiceState : Type 0 where
  pub manager : MihomoManager
  pub start_time : Option ℕ
  pub last_config_path : Option FilePath
  pub log_buffer : List LogLine
  -- The process-wide flag `SHUTDOWN`.
  pub shutdown : Bool

unfoldable pub new : ServiceState
unfolding Manager.new
new = record {
  manager = Manager.new;
  start_time = none;
  last_config_path = none;
  log_buffer = [];
  shutdown = false;
}

-- A call to a part of the daemon that keeps its own state, or to Mihomo's API.
pub data Action : Type 0 where
  select_proxy set_mode : String → Action
  patch_allow_lan : Bool → Action
  query_proxies query_connections reload_cron : Action
  close_connection : String → Action
  probe : String → ℕ → Action

pub record Startup : Type 0 where
  pub host : Host
  pub now_secs : ℕ
  pub selected_proxy : Option String
  pub mode : Option String
  pub allow_lan : Option Bool

-- After a start the chosen proxy and mode are restored, and `allow-lan` is patched, to true if
-- config.yaml does not say.
abbrev pub restore : Startup → List Action
restore e =
    map_or e.selected_proxy [] (λ p. select_proxy p ∷ [])
    ++ (map_or e.mode [] (λ m. set_mode m ∷ [])
        ++ patch_allow_lan (unwrap_or e.allow_lan true) ∷ [])

started_at :
    ServiceState
    → Startup
    → FilePath
    → Outcome × MihomoManager
    → Outcome × ServiceState × List Action
started_at s e config (ok, m) = (
  ok,
  record s { manager = m; start_time = some e.now_secs; last_config_path = some config },
  restore e,
)
started_at s e config (err x, m) = (err x, record s { manager = m }, [])

unfoldable pub start : ServiceState → Startup → FilePath → Outcome × ServiceState × List Action
unfolding started_at
start s e config =
    if is_running s.manager e.host.before
    then (ok, s, [])
    else started_at s e config (Manager.start s.manager e.host config)

stopped_by : ServiceState → Outcome × MihomoManager → Outcome × ServiceState
stopped_by s (ok, m) = (ok, record s { manager = m; start_time = none })
stopped_by s (err x, m) = (err x, record s { manager = m })

unfoldable pub stop : ServiceState → Bool → Outcome × ServiceState
unfolding stopped_by
stop s killed = stopped_by s (Manager.stop s.manager killed)

-- `restart_mihomo`: none stands for the error that no config path is known. The result of the stop
-- is ignored.
unfoldable pub restart_mihomo :
    ServiceState → Startup → Bool → Option Outcome × ServiceState × List Action
restart_mihomo s e killed = elim s.last_config_path [
  | none ↦ (none, s, [])
  | some config ↦ let (o, s', acts) = start (stop s killed).1 e config in (some o, s', acts)
]

unfoldable pub restart_with_config :
    ServiceState → Startup → Bool → FilePath → Outcome × ServiceState × List Action
restart_with_config s e killed config =
    start (stop (record s { last_config_path = some config }) killed).1 e config

pub data Lifecycle : Type 0 where
  not_running circuit_broken is_up : Lifecycle

pub record ServiceStatus : Type 0 where
  pub running : Bool
  pub pid : Option ℕ
  pub uptime_secs : Option ℕ
  pub state : Lifecycle
  pub config_path : Option FilePath
  pub circuit_breaker_remaining_secs : Option ℕ

-- `u64` subtraction in a release build, which wraps.
abbrev pub sub_u64 : ℕ → ℕ → ℕ
sub_u64 a b = (a + 2 ^ 64 - b) % 2 ^ 64

-- `status`, at a wall clock in seconds and a monotonic clock for the breaker.
unfoldable pub status : ServiceState → ProcStatus → ℕ → ℕ → ServiceStatus
status s p now_secs now =
    let up : Bool = is_running s.manager p in
    let cooling : Option ℕ = remaining_cooldown_secs s.manager.circuit_breaker now in
    record {
      running = up;
      pid = pid s.manager;
      uptime_secs = if up then map_or s.start_time none (λ t. some (sub_u64 now_secs t)) else none;
      state = if not up then not_running else if is_some cooling then circuit_broken else is_up;
      config_path = s.last_config_path;
      circuit_breaker_remaining_secs = if up then cooling else none;
    }
