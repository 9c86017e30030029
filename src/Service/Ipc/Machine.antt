-- ===== src/Service/Ipc/Machine.antt =====
-- The daemon as a state machine: IPC commands (main.rs), restarts by the HTTP handlers
-- (lifecycle.rs) and the life of the Mihomo process, in any order.
use control_tower.Prelude.{
  ℕ, ◌≤◌, ◌≡◌, ◌≢◌, refl, Bool, true, false, Option, none, some, List, [], ◌∷◌, arith, is_some,
  length, length-append, length-drop, drop, Bool-cases, inl, inr,
}
use control_tower.LogBuffer.{append_log, log_lines}
use control_tower.Breaker.{remaining_cooldown_secs}
use control_tower.Manager
use control_tower.Files.{FilePath}
use control_tower.Manager.{
  MihomoManager, Host, Outcome, ok, err, ProcStatus, running, exited, wait_error, is_running, pid,
}
use control_tower.Manager.Machine.{
  IsSound, starts, stops, fares, proc_after, start_leaves, fares_closed, Step-IsSound,
  Reach-IsSound, begins,
}
use control_tower.Service
use control_tower.Service.{
  ServiceState, Startup, restarting, start, stop, status, restart_with_config, Lifecycle,
  not_running, circuit_broken, is_up,
}
use control_tower.Service.Ipc.{
  IpcCommand, World, handle_command_with_state, start_mihomo, stop_mihomo, shutdown, restart, log,
  conclude, handle_restart, restart_from, Action, LogLine, StartError,
}

-- The process owned after a command.
abbrev restarted_proc : ServiceState → Startup → Option FilePath → ProcStatus
restarted_proc s e none = e.host.before
restarted_proc s e (some config) = proc_after s.manager e.host config

abbrev proc_next : {J : Type 0} → ServiceState → World J → IpcCommand → ProcStatus
proc_next s w (start_mihomo config) = proc_after s.manager w.startup.host config
proc_next s w restart =
    let s' = (stop (log restarting s) w.killed).1 in restarted_proc s' w.startup s'.last_config_path
proc_next s w c = w.startup.host.before

record Invariant (s : ServiceState) (p : ProcStatus) : Type 0 where
  sound : IsSound (record { manager = s.manager; proc = p })
  timed : is_running s.manager p ≡ true → is_some s.start_time ≡ true
  known : is_running s.manager p ≡ true → is_some s.last_config_path ≡ true
  short : length s.log_buffer ≤ log_lines

append_log-short :
    {A : Type 0} (xs : List A) (x : A)
    → length xs ≤ log_lines
    → length (append_log xs x) ≤ log_lines
unfolding append_log
append_log-short xs x h =
    ground (arith, length-append xs (x ∷ []), length-append (drop 1 xs) (x ∷ []), length-drop 1 xs)

start_running :
    (s : ServiceState) (e : Startup) (config : FilePath)
    → is_running s.manager e.host.before ≡ true
    → ((start s e config).1 ≡ s) × (proc_after s.manager e.host config ≡ e.host.before)
unfolding start Manager.start
start_running s e config h = ground arith

start_stopped :
    (s : ServiceState) (e : Startup) (config : FilePath)
    → is_running s.manager e.host.before ≡ false
    → ((start s e config).1.manager ≡ (Manager.start s.manager e.host config).1)
      × ((start s e config).1.log_buffer ≡ s.log_buffer)
      × ((Manager.start s.manager e.host config).0 ≡ ok
          → ((start s e config).1.start_time ≡ some e.now_secs)
            × ((start s e config).1.last_config_path ≡ some config))
unfolding start
start_stopped s e config h = ground arith

start-Invariant :
    (s : ServiceState) (e : Startup) (config : FilePath)
    → Invariant s e.host.before
    → Invariant (start s e config).1 (proc_after s.manager e.host config)
start-Invariant s e config v = elim (Bool-cases (is_running s.manager e.host.before)) [
  | inl r ↦ let (same, p) = start_running s e config r in rw (same, p) v
  | inr r ↦
      let (m, l, noted) = start_stopped s e config r in
      let leaves = start_leaves s.manager e.host config in
      record {
        sound = rw m (Step-IsSound (starts _ e.host config refl) v.sound);
        timed = λ up. rw ((noted (leaves (rw m at up))).0) refl;
        known = λ up. rw ((noted (leaves (rw m at up))).1) refl;
        short = rw l v.short;
      }
]

stop_fields :
    (s : ServiceState) (killed : Bool) (p : ProcStatus)
    → is_running (stop s killed).1.manager p ≡ true
    → (is_running s.manager p ≡ true) × ((stop s killed).1.start_time ≡ s.start_time)
unfolding stop Manager.stop is_running
stop_fields s killed p = ground arith

stop_same :
    (s : ServiceState) (killed : Bool)
    → ((stop s killed).1.manager ≡ (Manager.stop s.manager killed).1)
      × ((stop s killed).1.last_config_path ≡ s.last_config_path)
      × ((stop s killed).1.log_buffer ≡ s.log_buffer)
unfolding stop
stop_same s killed = ground arith

stop-Invariant :
    (s : ServiceState) (killed : Bool) (p : ProcStatus)
    → Invariant s p
    → Invariant (stop s killed).1 p
stop-Invariant s killed p v =
    let (m, c, l) = stop_same s killed in
    record {
      sound = rw m (Step-IsSound (stops _ killed) v.sound);
      timed = λ up. let (r, t) = stop_fields s killed p up in rw t (v.timed r);
      known = λ up. let (r, t) = stop_fields s killed p up in rw c (v.known r);
      short = rw l v.short;
    }

log-Invariant :
    (l : LogLine) (s : ServiceState) (p : ProcStatus) → Invariant s p → Invariant (log l s) p
unfolding log
log-Invariant l s p v = record {
  sound = v.sound;
  timed = v.timed;
  known = v.known;
  short = append_log-short s.log_buffer l v.short;
}

conclude-Invariant :
    (J : Type 0) (good : LogLine) (bad : StartError → LogLine)
    (r : Outcome × ServiceState × List Action) (p : ProcStatus)
    → Invariant r.1 p
    → Invariant (conclude {J = J} good bad r).1 p
unfolding conclude
conclude-Invariant J good bad (ok, s, acts) p v = log-Invariant good s p v
conclude-Invariant J good bad (err e, s, acts) p v = log-Invariant (bad e) s p v

flag-Invariant :
    (s : ServiceState) (p : ProcStatus) → Invariant s p → Invariant (record s { shutdown = true }) p
flag-Invariant s p v = record { sound = v.sound; timed = v.timed; known = v.known; short = v.short }

restart_from-Invariant :
    {J : Type 0} (s : ServiceState) (w : World J) (config : Option FilePath)
    → Invariant s w.startup.host.before
    → Invariant (restart_from s w config).1 (restarted_proc s w.startup config)
unfolding restart_from
restart_from-Invariant s w none v = log-Invariant _ s _ v
restart_from-Invariant s w (some config) v =
    conclude-Invariant _ _ _ (start s w.startup config) _ (start-Invariant s w.startup config v)

-- A command keeps the invariant.
handle-Invariant :
    {J : Type 0} (s : ServiceState) (w : World J) (c : IpcCommand)
    → Invariant s w.startup.host.before
    → Invariant (handle_command_with_state s w c).1 (proc_next s w c)
unfolding handle_command_with_state handle_restart
handle-Invariant s w (start_mihomo config) v =
    conclude-Invariant _ _ _ (start (log _ s) w.startup config) _
      (start-Invariant (log _ s) w.startup config (log-Invariant _ s _ v))
handle-Invariant s w stop_mihomo v =
    conclude-Invariant _ _ _ _ _ (stop-Invariant (log _ s) w.killed _ (log-Invariant _ s _ v))
handle-Invariant s w shutdown v =
    flag-Invariant (stop (log _ s) w.killed).1 _
      (stop-Invariant (log _ s) w.killed _ (log-Invariant _ s _ v))
handle-Invariant s w restart v =
    restart_from-Invariant _ w _
      (stop-Invariant (log restarting s) w.killed _ (log-Invariant _ s _ v))
handle-Invariant s w _ v = v

config-Invariant :
    (s : ServiceState) (p : ProcStatus) (config : FilePath)
    → Invariant s p
    → Invariant (record s { last_config_path = some config }) p
config-Invariant s p config v = record {
  sound = v.sound;
  timed = v.timed;
  known = λ up. refl;
  short = v.short;
}

-- The daemon with the status of its process, from its creation on.
pub data Reachable (J : Type 0) : ServiceState → ProcStatus → Type 0 where
  created : Reachable J Service.new exited
  handles :
      (s : ServiceState) (w : World J) (c : IpcCommand)
      → Reachable J s w.startup.host.before
      → Reachable J (handle_command_with_state s w c).1 (proc_next s w c)
  restarts :
      (s : ServiceState) (e : Startup) (killed : Bool) (config : FilePath)
      → Reachable J s e.host.before
      → Reachable J (restart_with_config s e killed config).1 (
          proc_after
            (stop (record s { last_config_path = some config }) killed).1.manager
            e.host
            config)
  lives : (s : ServiceState) (p q : ProcStatus) → Reachable J s p → p ≢ exited → Reachable J s q

lives-Invariant : (s : ServiceState) (p q : ProcStatus) → p ≢ exited → Invariant s p → Invariant s q
lives-Invariant s p q h v = record {
  sound = Step-IsSound (fares _ q h) v.sound;
  timed = λ up. v.timed (fares_closed s.manager p q h up);
  known = λ up. v.known (fares_closed s.manager p q h up);
  short = v.short;
}

Reachable-Invariant :
    {J : Type 0} (s : ServiceState) (p : ProcStatus) → Reachable J s p → Invariant s p
unfolding Service.new restart_with_config is_running
Reachable-Invariant s p created = record {
  sound = Reach-IsSound begins;
  timed = λ up. cc;
  known = λ up. cc;
  short = omega arith;
}
Reachable-Invariant s p (handles s' w c r) = handle-Invariant s' w c (Reachable-Invariant _ _ r)
Reachable-Invariant s p (restarts s' e killed config r) =
    start-Invariant _ e config
      (stop-Invariant _ killed _ (config-Invariant s' _ config (Reachable-Invariant _ _ r)))
Reachable-Invariant s p (lives s' p' q r h) =
    lives-Invariant s' p' q h (Reachable-Invariant s' p' r)

remaining-closed :
    (s : ServiceState) (now : ℕ)
    → s.manager.circuit_breaker.is_broken ≡ false
    → remaining_cooldown_secs s.manager.circuit_breaker now ≡ none
unfolding remaining_cooldown_secs
remaining-closed s now h = ground arith

-- Whatever commands and restarts came before and however the process fared: `status` never reports
-- the state of a broken circuit nor a remaining cooldown, and while Mihomo runs it reports an uptime
-- and a config path; the log buffer holds at most a hundred lines.
pub status-Reachable :
    {J : Type 0} (s : ServiceState) (p : ProcStatus) (now_secs now : ℕ)
    → Reachable J s p
    → ((status s p now_secs now).state ≢ circuit_broken)
      × ((status s p now_secs now).circuit_breaker_remaining_secs ≡ none)
      × ((status s p now_secs now).running ≡ true
          → (is_some (status s p now_secs now).uptime_secs ≡ true)
            × (is_some (status s p now_secs now).config_path ≡ true))
      × (length s.log_buffer ≤ log_lines)
unfolding status
status-Reachable s p now_secs now r =
    let v = Reachable-Invariant s p r in
    let closed = v.sound.closed in
    let cool = remaining-closed s now in
    (
      ground (arith, v.timed, v.known, closed, cool),
      ground (arith, closed, cool),
      λ up. (ground (arith, v.timed up), v.known up),
      v.short,
    )
