-- ===== src/Cli/Remote/Start.antt =====
-- `start_service` and `restart_service` of the client: the command over the socket, and a new daemon
-- if nobody answers. A socket that is not there at first is taken to be missing also at the second
-- test, which follows at once.
use control_tower.Prelude.{
  ℕ, zero, suc, ◌<◌, ◌≡◌, ◌⊎◌, inl, inr, Bool, true, false, Option, none, some, if◌then◌else◌, ◌==◌,
  map_or, arith, if_elim, map_or_elim,
}
use control_tower.Files.{FilePath}
use control_tower.Service.Ipc as Ipc
use control_tower.Service.Ipc.{IpcCommand, IpcResponse, start_mihomo}
use control_tower.Socket.{Response, is_success, Codec, Client, Sent, answer, ipc_connect_and_send}

-- How the search for the program of the daemon and its start end.
pub data Spawn : Type 0 where
  no_program failed spawned : Spawn

pub data Outcome : Type 0 where
  ok no_config refused not_spawned no_answer never_there : Outcome

module _ {J V : Type 0} (commands : Codec IpcCommand) (responses : Codec (Response V))
    (wire : IpcResponse J → Response V) where
  -- Whether the socket is there, and what the connection does.
  pub record Attempt : Type 0 where
    pub there : Bool
    pub client : Client commands responses wire

  pub record Start : Type 0 where
    pub first : Attempt
    -- The path of config.yaml, if the directory is known, and whether it exists, at first and later.
    pub path : Option FilePath
    pub exists : Bool
    pub exists_later : Bool
    -- A socket that nobody answers on can be removed.
    pub removable : Bool
    -- The socket is still there after an answer of success.
    pub still_there : Bool
    pub spawn : Spawn
    -- The attempts after the daemon has been started.
    pub attempts : ℕ → Attempt

  abbrev pub asked : Attempt → IpcCommand → Sent commands responses wire
  asked a cmd = ipc_connect_and_send commands responses wire a.there a.client cmd

  abbrev pub reply_of : Sent commands responses wire → Option (Response V)
  reply_of (answer r) = some r
  reply_of _ = none

  -- The ways on after an answer of success, and without an answer.
  unfoldable pub after_first : Sent commands responses wire → Outcome → Outcome → Outcome
  after_first x next other = map_or (reply_of x) other (λ r. if is_success r then next else refused)

  unfoldable pub after_sent : Sent commands responses wire → Outcome → Outcome
  unfolding after_first
  after_sent x other = after_first x ok other

  -- The loop of five attempts, by the number of those that are left.
  unfoldable pub attempt : ℕ → (ℕ → Attempt) → IpcCommand → Outcome
  unfolding after_sent ipc_connect_and_send
  attempt zero at cmd = never_there
  attempt (suc n) at cmd =
      let rest = attempt n (λ i. at (suc i)) cmd in
      if (at 0).there
      then after_sent (asked (at 0) cmd) (if n == 0 then no_answer else rest)
      else rest

  unfoldable pub after_spawn : Start → Spawn → Outcome
  unfolding attempt
  after_spawn s no_program = not_spawned
  after_spawn s failed = not_spawned
  after_spawn s spawned =
      map_or s.path no_config
        (λ p. if s.exists_later then attempt 5 s.attempts (start_mihomo p) else no_config)

  -- A socket that nobody answers on is removed; if this fails, nothing more is done. A daemon is
  -- spawned also if the socket has gone after an answer of success.
  unfoldable pub start_service : Start → Outcome
  unfolding after_spawn after_first ipc_connect_and_send
  start_service s =
      if s.first.there
      then (map_or s.path no_config (λ p.
          if s.exists
          then after_first (asked s.first (start_mihomo p))
              (if s.still_there then ok else after_spawn s s.spawn)
              (if s.removable then after_spawn s s.spawn else ok)
          else no_config))
      else after_spawn s s.spawn

  -- `restart_service`
  unfoldable pub restart_service : Start → Outcome
  unfolding start_service after_sent ipc_connect_and_send
  restart_service s =
      if s.first.there then after_sent (asked s.first Ipc.restart) no_answer else start_service s

  -- The daemon has answered the command with success.
  abbrev pub Succeeds : Attempt → IpcCommand → Type 0
  Succeeds a cmd =
      (r : Response V) × (a.there ≡ true)
      × (reply_of (asked a cmd) ≡ some r)
      × (is_success r ≡ true)

  abbrev pub Within : ℕ → (ℕ → Attempt) → IpcCommand → Type 0
  Within n at cmd = (i : ℕ) × (i < n) × Succeeds (at i) cmd

  -- Nobody answers on a socket that cannot be removed.
  abbrev pub IsStale : Start → IpcCommand → Type 0
  IsStale s cmd =
      (s.first.there ≡ true) × (s.removable ≡ false) × (reply_of (asked s.first cmd) ≡ none)

  unfoldable pub IsStarted : Start → Type 0
  IsStarted s =
      (p : FilePath) × (s.path ≡ some p)
      × (Succeeds s.first (start_mihomo p)
          ⊎ Within 5 s.attempts (start_mihomo p)
          ⊎ IsStale s (start_mihomo p))

  after_first-ok :
      (a : Attempt) (cmd : IpcCommand) (next other : Outcome) (P : Type 0)
      → a.there ≡ true
      → (reply_of (asked a cmd) ≡ none → other ≡ ok → P)
      → after_first (asked a cmd) next other ≡ ok
      → Succeeds a cmd ⊎ P
  unfolding after_first
  after_first-ok a cmd next other P t f =
      map_or_elim (λ o. o ≡ ok → Succeeds a cmd ⊎ P) (reply_of (asked a cmd)) other
        (λ r. if is_success r then next else refused) (λ e h. inr (f e h))
        (λ r e.
          if_elim (λ o. o ≡ ok → Succeeds a cmd ⊎ P) (is_success r) next refused
            (λ b h. inl (r, t, e, b)) (λ b h. absurd (ground (arith, h))))

  after_sent-ok :
      (a : Attempt) (cmd : IpcCommand) (other : Outcome) (P : Type 0)
      → a.there ≡ true
      → (reply_of (asked a cmd) ≡ none → other ≡ ok → P)
      → after_sent (asked a cmd) other ≡ ok
      → Succeeds a cmd ⊎ P
  unfolding after_sent
  after_sent-ok a cmd other P t f = after_first-ok a cmd ok other P t f

  Within-later :
      (n : ℕ) (at : ℕ → Attempt) (cmd : IpcCommand)
      → Within n (λ i. at (suc i)) cmd
      → Within (suc n) at cmd
  Within-later n at cmd (i, l, s) = (suc i, omega arith, s)

  attempt-ok :
      (n : ℕ) (at : ℕ → Attempt) (cmd : IpcCommand) → attempt n at cmd ≡ ok → Within n at cmd
  unfolding attempt
  attempt-ok zero at cmd h = absurd (ground (arith, h))
  attempt-ok (suc n) at cmd h =
      let rest = attempt n (λ i. at (suc i)) cmd in
      if_elim (λ o. o ≡ ok → Within (suc n) at cmd) (at 0).there
        (after_sent (asked (at 0) cmd) (if n == 0 then no_answer else rest)) rest
        (λ t h.
          elim (after_sent-ok (at 0) cmd (if n == 0 then no_answer else rest)
            (Within (suc n) at cmd) t
            (λ g.
              if_elim (λ o. o ≡ ok → Within (suc n) at cmd) (n == 0) no_answer rest
                (λ z k. absurd (ground (arith, k)))
                (λ z k. Within-later n at cmd (attempt-ok n (λ i. at (suc i)) cmd k)))
            h) [ inl s ↦ (0, omega arith, s) | inr w ↦ w ])
        (λ t h. Within-later n at cmd (attempt-ok n (λ i. at (suc i)) cmd h)) h

  after_spawn-ok :
      (s : Start) (x : Spawn)
      → after_spawn s x ≡ ok
      → (p : FilePath) × (s.path ≡ some p) × Within 5 s.attempts (start_mihomo p)
  unfolding after_spawn
  after_spawn-ok s no_program h = absurd (ground (arith, h))
  after_spawn-ok s failed h = absurd (ground (arith, h))
  after_spawn-ok s spawned h =
      let P : Outcome → Type 0 =
        λ o. o ≡ ok → (p : FilePath) × (s.path ≡ some p) × Within 5 s.attempts (start_mihomo p) in
      map_or_elim P s.path no_config _ (λ e h. absurd (ground (arith, h)))
        (λ p e.
          if_elim P s.exists_later (attempt 5 s.attempts (start_mihomo p)) no_config
            (λ t h. (p, e, attempt-ok 5 s.attempts (start_mihomo p) h))
            (λ t h. absurd (ground (arith, h))))
        h

  -- A start that the client reports as done is one to which the daemon has answered with success, at
  -- once or in one of the five attempts after a new daemon was spawned, or else one in which nobody
  -- answered on the socket and the socket could not be removed.
  pub start_service-IsStarted : (s : Start) → start_service s ≡ ok → IsStarted s
  unfolding start_service IsStarted
  start_service-IsStarted s =
      let P : Outcome → Type 0 = λ o. o ≡ ok → IsStarted s in
      if_elim P s.first.there _ (after_spawn s s.spawn)
        (λ t.
          map_or_elim P s.path no_config _ (λ e h. absurd (ground (arith, h)))
            (λ p e.
              if_elim P s.exists _ no_config
                (λ x h.
                  elim (after_first-ok s.first (start_mihomo p)
                    (if s.still_there then ok else after_spawn s s.spawn)
                    (if s.removable then after_spawn s s.spawn else ok) (IsStarted s) t
                    (λ silent.
                      if_elim P s.removable (after_spawn s s.spawn) ok
                        (λ b k. let (q, f, w) = after_spawn-ok s s.spawn k in (q, f, inr (inl w)))
                        (λ b k. (p, e, inr (inr (t, b, silent)))))
                    h) [ inl w ↦ (p, e, inl w) | inr w ↦ w ])
                (λ x h. absurd (ground (arith, h)))))
        (λ t h. let (q, f, w) = after_spawn-ok s s.spawn h in (q, f, inr (inl w)))
