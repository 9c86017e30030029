-- ===== src/Tests/Daemon.antt =====
-- The breaker of state.rs, the manager of mihomo.rs and the daemon of lifecycle.rs and main.rs on
-- concrete inputs.
use control_tower.Prelude.{
  ℕ, ◌≡◌, ◌≢◌, ◌≤◌, refl, true, none, some, List, [], ◌∷◌, is_some, length, map, min,
}
use control_tower.Files.{FilePath}
use control_tower.Breaker
use control_tower.Breaker.{
  CircuitBreaker, Call, second, failure, success, run, is_allowed, is_circuit_broken,
  remaining_cooldown_secs, record_failure, circuit_breaker_cooldown_secs,
}
use control_tower.Breaker.Invariant.{IsConsistent}
use control_tower.Breaker.History.{failures, Tracks, run-new}
use control_tower.Manager
use control_tower.Manager.{MihomoManager, Host, ok, running, exited, is_running, ensure_mihomo}
use control_tower.Manager.Start.{is_ok, can_start, start-can_start}
use control_tower.Manager.Machine.{System, IsSound, begins, next, starts, proc_after, Reach-IsSound}
use control_tower.Service
use control_tower.Service.{
  ServiceState, Startup, restore, start, status, restart_with_config, stop, circuit_broken,
  not_running,
}
use control_tower.Service.Ipc.{World, start_mihomo, failed, answered, handle_command_with_state}
use control_tower.Service.Ipc.Machine.{created, handles, status-Reachable}
use control_tower.LogBuffer.{append_all, get_logs, log_lines}
use control_tower.LogBuffer.Window.{last, get_logs-append_all}

abbrev config : FilePath
config = "etc" ∷ "config.yaml" ∷ []

-- A host on which a start goes well.
abbrev host : Host
host = record {
  exe_dir = some ("opt" ∷ []);
  exists = λ p. true;
  is_file = λ p. true;
  install = none;
  log_file = true;
  spawn = some 42;
  asked_at = 0;
  failed_at = 0;
  before = exited;
  after = running;
}

abbrev startup : Startup
startup = record {
  host = host;
  now_secs = 100;
  selected_proxy = some "hk";
  mode = none;
  allow_lan = none;
}

abbrev calls : List Call
calls = failure 9 ∷ success ∷ map failure (1 ∷ 2 ∷ 3 ∷ 4 ∷ [])

run-new_example :
    Tracks (failures [] calls) (run Breaker.new calls) × IsConsistent (run Breaker.new calls)
run-new_example = run-new calls

start-can_start_example :
    is_ok (Manager.start Manager.new host config).0 ≡ can_start Manager.new host config
start-can_start_example = start-can_start Manager.new host config

abbrev fresh : System
fresh = record { manager = Manager.new; proc = exited }

Reach-IsSound_example : IsSound (record {
  manager = (Manager.start Manager.new host config).1;
  proc = proc_after Manager.new host config;
})
Reach-IsSound_example = Reach-IsSound (next begins (starts fresh host config refl))

abbrev world : World (Unit {0})
world = record {
  startup = startup;
  killed = true;
  now = 7;
  queried = failed "off";
  refused = none;
  probed = answered none;
}

abbrev up : ServiceState
up = (handle_command_with_state Service.new world (start_mihomo config)).1

status-Reachable_example :
    ((status up (proc_after Service.new.manager host config) 200 7).state ≢ circuit_broken)
    × ((status up (proc_after Service.new.manager host config) 200 7).circuit_breaker_remaining_secs
        ≡ none)
    × ((status up (proc_after Service.new.manager host config) 200 7).running ≡ true
        → (is_some (status up (proc_after Service.new.manager host config) 200 7).uptime_secs
            ≡ true)
          × (is_some (status up (proc_after Service.new.manager host config) 200 7).config_path
              ≡ true))
    × (length up.log_buffer ≤ log_lines)
status-Reachable_example =
    status-Reachable up (proc_after Service.new.manager host config) 200 7
      (handles Service.new world (start_mihomo config) created)

abbrev lines : List ℕ
lines = 1 ∷ 2 ∷ 3 ∷ []

get_logs-append_all_example : get_logs (append_all [] lines) (some 2) ≡ last (min 2 log_lines) lines
get_logs-append_all_example = get_logs-append_all lines 2
