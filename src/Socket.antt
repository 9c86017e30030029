-- ===== src/Socket.antt =====
-- The socket for commands: `IpcServer` and `connect_and_send` of
-- crates/control-tower-service/src/ipc_server.rs, and `ipc_connect_and_send` of
-- crates/control-tower-cli/src/service.rs. A message is JSON with a newline behind it.
pub mod Line
pub mod Exchange
use control_tower.Prelude.{
  ℕ, zero, suc, String, Bool, true, false, ◌&&◌, Option, none, some, List, [], ◌∷◌, ◌++◌,
  if◌then◌else◌, any, map_or, is_empty, ◌==◌,
}
use control_tower.Service.{ServiceState, Action}
use control_tower.Service.Ipc.{IpcCommand, IpcResponse, World, ℤ, handle_command_with_state}

-- What one `read` gives: bytes, where none are the end of the stream, no bytes yet, or an error.
pub data Read : Type 0 where
  bytes : List ℕ → Read
  would_block broken : Read

-- The reads of a connection, in order.
abbrev pub Reads : Type 0
Reads = ℕ → Read

abbrev pub later : Reads → Reads
later reads i = reads (suc i)

-- How the reading of a message ends; `waiting` is that the rounds are over before it does.
pub data Received : Type 0 where
  waiting read_error : Received
  received : List ℕ → Received

abbrev pub newline : ℕ
newline = b'\n'

-- `buffer.contains(&b'\n')`
abbrev pub has_newline : List ℕ → Bool
has_newline = any (λ c. c == newline)

-- One read, with what comes after it.
unfoldable pub after_read : Read → List ℕ → (List ℕ → Received) → Received
after_read (bytes b) buffer more =
    if is_empty b
    then received buffer
    else if has_newline (buffer ++ b)
    then received (buffer ++ b)
    else more (buffer ++ b)
after_read would_block buffer more = more buffer
after_read broken buffer more = read_error

-- The loop that reads a message, with the number of its rounds.
unfoldable pub read_message : ℕ → Reads → List ℕ → Received
unfolding after_read
read_message zero reads buffer = waiting
read_message (suc n) reads buffer = after_read (reads 0) buffer (read_message n (later reads))

-- `while buffer.last() == Some(&b'\n') { buffer.pop(); }`
unfoldable pub strip_newlines : List ℕ → List ℕ
strip_newlines [] = []
strip_newlines (c ∷ s) =
    let rest = strip_newlines s in if is_empty rest && c == newline then [] else c ∷ rest

-- The `IpcResponse` that goes over the socket, with JSON of type V.
pub record Response (V : Type 0) : Type 0 where
  pub code : ℤ
  pub message : String
  pub data_value : Option V

-- `Response::is_success` of the client.
abbrev pub is_success : {V : Type 0} → Response V → Bool
is_success r = elim r.code [ ℤ.pos n ↦ n == 0 | ℤ.negsuc n ↦ false ]

-- The server's socket: whether it listens, and whether the file of the socket exists.
pub record IpcServer : Type 0 where
  pub listening : Bool
  pub socket : Bool

pub data StartResult : Type 0 where
  started not_removed not_bound not_set : StartResult

-- What the system answers to the removal of an old socket, the bind and the change of mode.
pub record Binding : Type 0 where
  pub removed : Bool
  pub bound : Bool
  pub nonblocking : Bool

unfoldable pub bind : Binding → IpcServer → StartResult × IpcServer
bind b s =
    if b.bound
    then (if b.nonblocking
        then (started, record { listening = true; socket = true })
        else (not_set, record s { socket = true }))
    else (not_bound, record s { socket = false })

-- `IpcServer::start`
unfoldable pub start : Binding → IpcServer → StartResult × IpcServer
unfolding bind
start b s = if s.socket then (if b.removed then bind b s else (not_removed, s)) else bind b s

-- `IpcServer::stop`, which drops the listener and removes the file if it can.
unfoldable pub stop : Bool → IpcServer → IpcServer
stop removable s = record { listening = false; socket = if removable then false else s.socket }

-- What serde_json, which is not part of the repository, does for commands and responses.
pub record Codec (A : Type 0) : Type 0 where
  pub to_vec : A → Option (List ℕ)
  pub from_slice : List ℕ → Option A

-- `wire` is the response as the functions of ipc_types.rs build it.
module _ {J V : Type 0} (commands : Codec IpcCommand) (responses : Codec (Response V))
    (wire : IpcResponse J → Response V) where
  -- What a connection does while a request is handled.
  pub record Connection : Type 0 where
    pub rounds : ℕ
    pub reads : Reads
    pub writable : Bool

  pub data Accept : Type 0 where
    none_waiting accept_failed : Accept
    accepted : Connection → Accept

  pub data Handled : Type 0 where
    not_started idle accept_error still_reading unreadable no_request bad_message : Handled
    unserialized write_error : Handled
    handled : IpcCommand → Handled

  -- The result, the state, the requests to Mihomo, and the bytes written.
  abbrev pub Served : Type 0
  Served = Handled × ServiceState × List Action × List ℕ

  unfoldable pub reply : Bool → IpcCommand → ServiceState × List Action → Option (List ℕ) → Served
  reply writable cmd (s, acts) none = (unserialized, s, acts, [])
  reply writable cmd (s, acts) (some t) =
      if writable then (handled cmd, s, acts, t ++ newline ∷ []) else (write_error, s, acts, [])

  unfoldable pub handle_message : ServiceState → World J → Bool → IpcCommand → Served
  unfolding reply
  handle_message s w writable cmd =
      let (resp, s', acts) = handle_command_with_state s w cmd in
      reply writable cmd (s', acts) (responses.to_vec (wire resp))

  unfoldable pub handle_received : ServiceState → World J → Bool → Received → Served
  unfolding handle_message
  handle_received s w writable waiting = (still_reading, s, [], [])
  handle_received s w writable read_error = (unreadable, s, [], [])
  handle_received s w writable (received buffer) =
      if is_empty buffer
      then (no_request, s, [], [])
      else map_or (commands.from_slice buffer) (bad_message, s, [], [])
          (handle_message s w writable)

  unfoldable pub handle_accept : ServiceState → World J → Accept → Served
  unfolding handle_received read_message
  handle_accept s w none_waiting = (idle, s, [], [])
  handle_accept s w accept_failed = (accept_error, s, [], [])
  handle_accept s w (accepted c) = handle_received s w c.writable (read_message c.rounds c.reads [])

  -- `IpcServer::handle_one`
  unfoldable pub handle_one : IpcServer → ServiceState → World J → Accept → Served
  unfolding handle_accept
  handle_one server s w a =
      if server.listening then handle_accept s w a else (not_started, s, [], [])

  -- What the client's side of a connection does.
  pub record Client : Type 0 where
    pub connected : Bool
    pub writable : Bool
    pub rounds : ℕ
    pub reads : Reads

  pub data Sent : Type 0 where
    no_socket not_connected not_serialized not_written still_waiting lost bad_response : Sent
    answer : Response V → Sent

  unfoldable pub parse_response : Received → Sent
  unfolding strip_newlines
  parse_response waiting = still_waiting
  parse_response read_error = lost
  parse_response (received buffer) =
      map_or (responses.from_slice (strip_newlines buffer)) bad_response answer

  -- The bytes that a command becomes.
  abbrev pub request : IpcCommand → Option (List ℕ)
  request cmd = map_or (commands.to_vec cmd) none (λ t. some (t ++ newline ∷ []))

  -- `connect_and_send`
  unfoldable pub connect_and_send : Client → IpcCommand → Sent
  unfolding parse_response read_message
  connect_and_send c cmd =
      if c.connected
      then (map_or (request cmd) not_serialized (λ t.
          if c.writable then parse_response (read_message c.rounds c.reads []) else not_written))
      else not_connected

  -- `ipc_connect_and_send` of the command line client, which looks for the socket first.
  unfoldable pub ipc_connect_and_send : Bool → Client → IpcCommand → Sent
  unfolding connect_and_send
  ipc_connect_and_send exists c cmd = if exists then connect_and_send c cmd else no_socket
