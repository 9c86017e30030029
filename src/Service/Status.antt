-- ===== src/Service/Status.antt =====
-- What one call of the lifecycle methods and of `status` (lifecycle.rs) guarantees.
use control_tower.Prelude.{ℕ, ◌≡◌, false, not, ◌&&◌, some, [], arith, if◌then◌else◌}
use control_tower.Files.{FilePath}
use control_tower.Manager.{exited, is_running, pid}
use control_tower.Manager.Start.{is_ok, can_start, start-can_start}
use control_tower.Service.{ServiceState, Startup, restore, start, status, not_running}

-- The daemon's start succeeds exactly in the cases in which the manager's does, and then, unless
-- Mihomo ran already, it notes the time and the config path and restores proxy, mode and
-- `allow-lan`; if it fails, neither is noted and nothing is asked of the API.
pub start_lem :
    (s : ServiceState) (e : Startup) (config : FilePath)
    → (is_ok (start s e config).0 ≡ can_start s.manager e.host config)
      × ((start s e config).1.start_time ≡ (
          if not (is_running s.manager e.host.before) && can_start s.manager e.host config
          then some e.now_secs
          else s.start_time))
      × ((start s e config).1.last_config_path ≡ (
          if not (is_running s.manager e.host.before) && can_start s.manager e.host config
          then some config
          else s.last_config_path))
      × ((start s e config).2 ≡ (
          if not (is_running s.manager e.host.before) && can_start s.manager e.host config
          then restore e
          else []))
unfolding start
start_lem s e config = ground (arith, start-can_start s.manager e.host config)

-- A process that has ended is still reported: `status` then says that Mihomo does not run, and
-- gives the id of the ended process as its `pid`.
pub pid-status_exited :
    (s : ServiceState) (n now_secs now : ℕ)
    → s.manager.child ≡ some n
    → ((status s exited now_secs now).running ≡ false)
      × ((status s exited now_secs now).state ≡ not_running)
      × ((status s exited now_secs now).pid ≡ some n)
unfolding status is_running pid
pid-status_exited s n now_secs now h = ground arith
