-- ===== src/Manager/Machine.antt =====
-- The manager of mihomo.rs beside the process that it owns: calls and the life of the process as
-- steps. A process that has exited stays so, as `try_wait` documents; any other status may change.
use control_tower.Prelude.{◌≡◌, ◌≢◌, refl, Bool, true, false, arith}
use control_tower.Breaker.{record_success}
use control_tower.Breaker.Invariant.{
  IsConsistent, new-IsConsistent, record_failure-IsConsistent, record_success-IsConsistent,
}
use control_tower.Files.{FilePath}
use control_tower.Manager.{
  MihomoManager, Host, Outcome, ok, err, ProcStatus, running, exited, wait_error, is_alive,
  is_running, start, stop,
}
use control_tower.Manager
use control_tower.Manager.Start.{ensure_mihomo_keeps}

pub record System : Type 0 where
  pub manager : MihomoManager
  pub proc : ProcStatus

-- The process that the manager owns after a start: the new one if the call was the first to succeed.
abbrev pub proc_after : MihomoManager → Host → FilePath → ProcStatus
proc_after m h config = elim (start m h config).0 [
  | ok ↦ elim (is_running m h.before) [ true ↦ h.before | false ↦ h.after ]
  | err e ↦ h.before
]

pub data Step : System → System → Type 0 where
  starts :
      (s : System) (h : Host) (config : FilePath)
      → h.before ≡ s.proc
      → Step s
          (record { manager = (start s.manager h config).1; proc = proc_after s.manager h config })
  stops : (s : System) (killed : Bool) → Step s (record s { manager = (stop s.manager killed).1 })
  fares : (s : System) (p : ProcStatus) → s.proc ≢ exited → Step s (record s { proc = p })

pub data Reach : System → Type 0 where
  begins : Reach (record { manager = Manager.new; proc = exited })
  next : {s t : System} → Reach s → Step s t → Reach t

-- While the process runs the breaker is closed.
pub record IsSound (s : System) : Type 0 where
  pub consistent : IsConsistent s.manager.circuit_breaker
  pub closed : is_running s.manager s.proc ≡ true → s.manager.circuit_breaker.is_broken ≡ false

start-IsConsistent :
    (m : MihomoManager) (h : Host) (config : FilePath)
    → IsConsistent m.circuit_breaker
    → IsConsistent (start m h config).1.circuit_breaker
unfolding start
start-IsConsistent m h config v = ground (
  arith,
  ensure_mihomo_keeps m h,
  record_failure-IsConsistent m.circuit_breaker h.failed_at v,
  record_success-IsConsistent m.circuit_breaker v,
)

start_closed :
    (m : MihomoManager) (h : Host) (config : FilePath)
    → is_running (start m h config).1 (proc_after m h config) ≡ true
    → (start m h config).1.circuit_breaker.is_broken ≡ false
unfolding start is_running record_success
start_closed m h config = ground (arith, ensure_mihomo_keeps m h)

-- A start that leaves the process running has succeeded.
pub start_leaves :
    (m : MihomoManager) (h : Host) (config : FilePath)
    → is_running (start m h config).1 (proc_after m h config) ≡ true
    → (start m h config).0 ≡ ok
unfolding start is_running
start_leaves m h config = ground (arith, ensure_mihomo_keeps m h)

pub stop_closed :
    (m : MihomoManager) (killed : Bool) (p : ProcStatus)
    → is_running (stop m killed).1 p ≡ true
    → (is_running m p ≡ true) × ((stop m killed).1.circuit_breaker ≡ m.circuit_breaker)
unfolding stop is_running
stop_closed m killed p = ground arith

stop_keeps :
    (m : MihomoManager) (killed : Bool) → (stop m killed).1.circuit_breaker ≡ m.circuit_breaker
unfolding stop
stop_keeps m killed = ground arith

pub fares_closed :
    (m : MihomoManager) (p q : ProcStatus)
    → p ≢ exited
    → is_running m q ≡ true
    → is_running m p ≡ true
unfolding is_running
fares_closed m running q h r = ground arith
fares_closed m exited q h r = absurd (h refl)
fares_closed m wait_error q h r = ground arith

pub Step-IsSound : {s t : System} → Step s t → IsSound s → IsSound t
Step-IsSound (starts s h config e) v = record {
  consistent = start-IsConsistent s.manager h config v.consistent;
  closed = start_closed s.manager h config;
}
Step-IsSound (stops s killed) v = record {
  consistent = rw (stop_keeps s.manager killed) v.consistent;
  closed =
      λ r. let (before, same) = stop_closed s.manager killed s.proc r in rw same (v.closed before);
}
Step-IsSound (fares s p h) v = record {
  consistent = v.consistent;
  closed = λ r. v.closed (fares_closed s.manager s.proc p h r);
}

-- In every state that calls and the life of the process can reach, the fields of the breaker agree,
-- and the breaker is closed while the process runs.
pub Reach-IsSound : {s : System} → Reach s → IsSound s
unfolding Manager.new is_running
Reach-IsSound begins = record { consistent = new-IsConsistent; closed = λ r. cc }
Reach-IsSound (next r st) = Step-IsSound st (Reach-IsSound r)
