-- ===== src/Service/Ipc.antt =====
-- `IpcCommand`, `IpcResponse` (crates/control-tower-service/src/ipc_types.rs) and
-- `handle_command_with_state` (main.rs): every command that reaches the daemon over its socket.
pub mod Machine
use control_tower.Prelude.{
  ℕ, String, Bool, true, false, Option, none, some, List, [], ◌∷◌, unwrap_or,
}
use control_tower.LogBuffer.{append_log, get_logs}
use control_tower.Files.{FilePath}
use control_tower.Manager.{Outcome, ok, err, StartError}
use control_tower.Service.{
  ServiceState, LogLine, starting, started, stopping, stopped, shutting_down, restarting, restarted,
  no_previous, start_failed, stop_failed, restart_failed, Action, select_proxy, set_mode,
  query_proxies, query_connections, reload_cron, close_connection, probe, Startup, start, stop,
  ServiceStatus, status,
}

pub data IpcCommand : Type 0 where
  start_mihomo : FilePath → IpcCommand
  stop_mihomo shutdown restart get_status : IpcCommand
  logs : Option ℕ → IpcCommand
  get_proxies get_connections : IpcCommand
  close : String → IpcCommand
  cron : IpcCommand
  mode : String → IpcCommand
  select : String → IpcCommand
  test : String → Option ℕ → IpcCommand

-- An `i64`, where `negsuc n` is -(n + 1).
pub data ℤ : Type 0 where
  pos negsuc : ℕ → ℤ

-- How the request of `TestProxy` ends: the `delay` field of the answer, if it has one.
pub data Probe : Type 0 where
  client_failed request_failed http_error bad_json : Probe
  answered : Option ℤ → Probe

pub data Failure : Type 0 where
  lifecycle : StartError → Failure
  no_previous_config : Failure
  api : String → Failure
  probe_failed : Probe → Failure

-- The data of a response; `J` is the JSON that Mihomo's API returns.
pub data Payload (J : Type 0) : Type 0 where
  status_data : ServiceStatus → Payload J
  log_data : List LogLine → Payload J
  json : J → Payload J
  -- `delay` and whether `error` is set.
  delay_data : ℤ → Bool → Payload J

-- `code` is 0 for the first two and -1 for an error.
pub data IpcResponse (J : Type 0) : Type 0 where
  success : IpcResponse J
  success_with_data : Payload J → IpcResponse J
  error : Failure → IpcResponse J

pub data ApiResult (J : Type 0) : Type 0 where
  done : J → ApiResult J
  failed : String → ApiResult J

-- What the rest of the daemon and Mihomo answer while a command is handled.
pub record World (J : Type 0) : Type 0 where
  pub startup : Startup
  pub killed : Bool
  pub now : ℕ
  -- The JSON of a query, or its error.
  pub queried : ApiResult J
  -- The error of a request without a result.
  pub refused : Option String
  pub probed : Probe

pub log : LogLine → ServiceState → ServiceState
log l s = record s { log_buffer = append_log s.log_buffer l }

module _ {J : Type 0} where
  -- The line and the response for the outcome of a start or stop.
  conclude :
      LogLine
      → (StartError → LogLine)
      → Outcome × ServiceState × List Action
      → IpcResponse J × ServiceState × List Action
  unfolding log
  conclude good bad (ok, s, acts) = (success, log good s, acts)
  conclude good bad (err e, s, acts) = (error (lifecycle e), log (bad e) s, acts)

  handle_start : ServiceState → World J → FilePath → IpcResponse J × ServiceState × List Action
  unfolding conclude
  handle_start s w config =
      conclude started start_failed (start (log (starting config) s) w.startup config)

  handle_stop : ServiceState → World J → IpcResponse J × ServiceState × List Action
  unfolding conclude
  handle_stop s w =
      let (o, s') = stop (log stopping s) w.killed in conclude stopped stop_failed (o, s', [])

  handle_shutdown : ServiceState → World J → IpcResponse J × ServiceState × List Action
  unfolding log
  handle_shutdown s w =
      (success, record (stop (log shutting_down s) w.killed).1 { shutdown = true }, [])

  restart_from :
      ServiceState → World J → Option FilePath → IpcResponse J × ServiceState × List Action
  unfolding conclude
  restart_from s w none = (error no_previous_config, log no_previous s, [])
  restart_from s w (some config) = conclude restarted restart_failed (start s w.startup config)

  handle_restart : ServiceState → World J → IpcResponse J × ServiceState × List Action
  unfolding restart_from
  handle_restart s w =
      let s' = (stop (log restarting s) w.killed).1 in restart_from s' w s'.last_config_path

  of_query : ApiResult J → IpcResponse J
  of_query (done j) = success_with_data (json j)
  of_query (failed e) = error (api e)

  of_request : Option String → IpcResponse J
  of_request none = success
  of_request (some e) = error (api e)

  of_delay : ℤ → IpcResponse J
  of_delay (pos n) = success_with_data (delay_data (pos n) false)
  of_delay (negsuc n) = success_with_data (delay_data (negsuc n) true)

  of_probe : Probe → IpcResponse J
  unfolding of_delay
  of_probe (answered d) = of_delay (unwrap_or d (negsuc 0))
  of_probe p = error (probe_failed p)

  -- The process status is that at the time of the call, `w.startup.host.before`.
  unfoldable pub handle_command_with_state :
      ServiceState → World J → IpcCommand → IpcResponse J × ServiceState × List Action
  unfolding handle_start handle_stop handle_shutdown handle_restart of_query of_request of_probe
  handle_command_with_state s w (start_mihomo config) = handle_start s w config
  handle_command_with_state s w stop_mihomo = handle_stop s w
  handle_command_with_state s w shutdown = handle_shutdown s w
  handle_command_with_state s w restart = handle_restart s w
  handle_command_with_state s w get_status = (
    success_with_data (status_data (status s w.startup.host.before w.startup.now_secs w.now)),
    s,
    [],
  )
  handle_command_with_state s w (logs lines) =
      (success_with_data (log_data (get_logs s.log_buffer lines)), s, [])
  handle_command_with_state s w get_proxies = (of_query w.queried, s, query_proxies ∷ [])
  handle_command_with_state s w get_connections = (of_query w.queried, s, query_connections ∷ [])
  handle_command_with_state s w (close id) = (of_request w.refused, s, close_connection id ∷ [])
  handle_command_with_state s w cron = (success, s, reload_cron ∷ [])
  handle_command_with_state s w (mode m) = (of_request w.refused, s, set_mode m ∷ [])
  handle_command_with_state s w (select name) = (of_request w.refused, s, select_proxy name ∷ [])
  handle_command_with_state s w (test name timeout_ms) =
      (of_probe w.probed, s, probe name (unwrap_or timeout_ms 5000) ∷ [])
