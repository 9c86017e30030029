-- ===== src/Manager.antt =====
-- crates/control-tower-service-core/src/mihomo.rs: `MihomoManager`, which owns the Mihomo process.
-- A path is the list of its components. What the operating system answers during one call stands
-- in a `Host`: the file system, the clock, the installer, and how the spawned process fares. The
-- copies of the geoip and geosite files touch nothing that the manager reads and are left out.
pub mod Start
pub mod Machine
use control_tower.Prelude.{
  ℕ, String, Bool, true, false, not, ◌&&◌, Option, none, some, List, [], ◌∷◌, ◌++◌, if◌then◌else◌,
  unwrap_or, or_else, is_some,
}
use control_tower.Breaker
use control_tower.Files.{FilePath}
use control_tower.Breaker.{
  CircuitBreaker, is_allowed, record_failure, record_success, remaining_cooldown_secs,
}

-- What `Child::try_wait` finds: still running, an exit status, or an error.
pub data ProcStatus : Type 0 where
  running exited wait_error : ProcStatus

pub record MihomoManager : Type 0 where
  pub mihomo_path : Option FilePath
  pub config_path : Option FilePath
  pub child : Option ℕ
  pub circuit_breaker : CircuitBreaker

pub record Host : Type 0 where
  pub exe_dir : Option FilePath
  pub exists : FilePath → Bool
  pub is_file : FilePath → Bool
  -- `MihomoInstaller::install`, with none for an error.
  pub install : Option FilePath
  -- Whether the log file could be opened and its handle copied.
  pub log_file : Bool
  -- The process id of the spawned child, with none for an error.
  pub spawn : Option ℕ
  -- The clock when the breaker is asked, and when a failure is recorded.
  pub asked_at : ℕ
  pub failed_at : ℕ
  -- The old child when the call begins, and the new one 100 ms after the spawn.
  pub before : ProcStatus
  pub after : ProcStatus

pub data StartError : Type 0 where
  breaker_active : ℕ → StartError
  download_failed config_not_found log_failed spawn_failed exited_with_status : StartError
  exited_immediately kill_failed : StartError

pub data Outcome : Type 0 where
  ok : Outcome
  err : StartError → Outcome

unfoldable pub new : MihomoManager
unfolding Breaker.new
new = record { mihomo_path = none; config_path = none; child = none; circuit_breaker = Breaker.new }

-- `try_wait().ok().flatten().is_none()`: an error counts as running.
abbrev pub is_alive : ProcStatus → Bool
is_alive running = true
is_alive exited = false
is_alive wait_error = true

unfoldable pub is_running : MihomoManager → ProcStatus → Bool
is_running m p = is_some m.child && is_alive p

unfoldable pub pid : MihomoManager → Option ℕ
pid m = m.child

-- The first candidate that is there.
first_existing : (FilePath → Bool) → List FilePath → Option FilePath
first_existing exists [] = none
first_existing exists (p ∷ ps) =
    let rest = first_existing exists ps in if exists p then some p else rest

abbrev possible_paths : List FilePath
possible_paths =
    ("." ∷ "mihomo" ∷ "mihomo" ∷ [])
    ∷ ("." ∷ "mihomo" ∷ [])
    ∷ ("/" ∷ "usr" ∷ "local" ∷ "bin" ∷ "mihomo" ∷ [])
    ∷ ("/" ∷ "usr" ∷ "bin" ∷ "mihomo" ∷ [])
    ∷ []

beside_exe : Host → Option FilePath
beside_exe h = elim h.exe_dir [
  | none ↦ none
  | some dir ↦
      let nested = dir ++ "mihomo" ∷ "mihomo" ∷ [] in
      let alt_path = dir ++ "mihomo" ∷ [] in
      if h.exists nested
      then some nested
      else if h.exists alt_path && h.is_file alt_path
      then some alt_path
      else none
]

unfoldable pub find_in_common_locations : Host → Option FilePath
unfolding first_existing beside_exe
find_in_common_locations h = or_else (beside_exe h) (first_existing h.exists possible_paths)

unfoldable pub get_mihomo_path : MihomoManager → Host → Option FilePath
get_mihomo_path m h = or_else m.mihomo_path (find_in_common_locations h)

-- The path at hand, if its file is there.
abbrev known_path : Option FilePath → (FilePath → Bool) → Option FilePath
known_path none exists = none
known_path (some p) exists = if exists p then some p else none

found_or_installed : MihomoManager → Host → Option FilePath × MihomoManager
found_or_installed m h = elim (or_else (find_in_common_locations h) h.install) [
  | none ↦ (none, m)
  | some p ↦ (some p, record m { mihomo_path = some p })
]

-- A path that is found or installed is kept for the next time.
unfoldable pub ensure_mihomo : MihomoManager → Host → Option FilePath × MihomoManager
unfolding found_or_installed
ensure_mihomo m h = elim (known_path m.mihomo_path h.exists) [
  | some p ↦ (some p, m)
  | none ↦ found_or_installed m h
]

-- An error that the circuit breaker counts.
abbrev pub fail : MihomoManager → Host → StartError → Outcome × MihomoManager
fail m h e = (err e, record m { circuit_breaker = record_failure m.circuit_breaker h.failed_at })

abbrev succeed : MihomoManager → Outcome × MihomoManager
succeed m = (ok, record m { circuit_breaker = record_success m.circuit_breaker })

exit_error : Option ℕ → ProcStatus → StartError
exit_error (some pid) exited = exited_with_status
exit_error _ _ = exited_immediately

-- The check 100 ms after the spawn, with what the child does then.
settle : MihomoManager → Host → ProcStatus → Outcome × MihomoManager
unfolding exit_error
settle m h p =
    if not (is_running m p)
    then fail (record m { child = none }) h (exit_error m.child p)
    else succeed m

-- Without a directory for the executable nothing is spawned, and the old child is looked at again.
launch : MihomoManager → Host → FilePath → Outcome × MihomoManager
unfolding settle
launch m h config = elim h.exe_dir [
  | none ↦ settle m h h.before
  | some dir ↦ if not h.log_file then (err log_failed, m) else elim h.spawn [
    | none ↦ fail m h spawn_failed
    | some pid ↦ settle (record m { child = some pid; config_path = some config }) h h.after
  ]
]

-- From the search for the binary on, when the breaker allows a start.
attempt : MihomoManager → Host → FilePath → Outcome × MihomoManager
unfolding launch
attempt m h config =
    let (path, m') = ensure_mihomo m h in
    if not (is_some path)
    then fail m' h download_failed
    else if not (h.exists config)
    then fail m' h config_not_found
    else launch m' h config

unfoldable pub start : MihomoManager → Host → FilePath → Outcome × MihomoManager
unfolding attempt
start m h config =
    if is_running m h.before
    then succeed m
    else if not (is_allowed m.circuit_breaker h.asked_at)
    then (let secs = remaining_cooldown_secs m.circuit_breaker h.asked_at in
        (err (breaker_active (unwrap_or secs 0)), m))
    else attempt m h config

-- `kill` may fail, and then nothing changes.
unfoldable pub stop : MihomoManager → Bool → Outcome × MihomoManager
stop m killed =
    if is_some m.child && not killed then (err kill_failed, m) else (ok, record m { child = none })
