-- ===== src/Socket/Exchange.antt =====
-- A command sent over the socket and the answer that comes back.
use control_tower.Prelude.{ℕ, ◌+◌, ◌≡◌, refl, true, false, some, List, [], ◌∷◌, ◌++◌, is_empty}
use control_tower.Service.{ServiceState}
use control_tower.Service.Ipc.{IpcCommand, IpcResponse, World, handle_command_with_state}
use control_tower.Socket.{
  Reads, newline, has_newline, Response, IpcServer, Codec, accepted, handled, reply, handle_message,
  handle_received, handle_accept, handle_one, answer, parse_response, connect_and_send,
}
use control_tower.Socket.Line.{Delivers, read_message-line, strip_newlines-line}

-- What the program relies on: the compact JSON of a value has no newline in it, and the parser reads
-- it back, with white space behind it or none.
pub record IsFaithful {A : Type 0} (c : Codec A) : Type 0 where
  pub one_line : (a : A) (t : List ℕ) → c.to_vec a ≡ some t → has_newline t ≡ false
  pub read_back : (a : A) (t : List ℕ) → c.to_vec a ≡ some t → c.from_slice t ≡ some a
  pub read_line :
      (a : A) (t : List ℕ) → c.to_vec a ≡ some t → c.from_slice (t ++ newline ∷ []) ≡ some a

is_empty-line : (t : List ℕ) → is_empty (t ++ newline ∷ []) ≡ false
is_empty-line [] = refl
is_empty-line (c ∷ t) = refl

module _ {J V : Type 0} (commands : Codec IpcCommand) (responses : Codec (Response V))
    (wire : IpcResponse J → Response V) where
  handle_one-handled :
      (s : ServiceState) (w : World J) (cmd : IpcCommand) (t u : List ℕ) (k n : ℕ) (reads : Reads)
      (server : IpcServer)
      → IsFaithful commands
      → server.listening ≡ true
      → commands.to_vec cmd ≡ some t
      → responses.to_vec (wire (handle_command_with_state s w cmd).0) ≡ some u
      → Delivers reads (t ++ newline ∷ []) k
      → handle_one commands responses wire server s w
          (accepted (record { rounds = k + n; reads = reads; writable = true }))
        ≡ (
          handled cmd,
          (handle_command_with_state s w cmd).1,
          (handle_command_with_state s w cmd).2,
          u ++ newline ∷ [],
        )
  unfolding handle_one handle_accept handle_received handle_message reply
  handle_one-handled s w cmd t u k n reads server f l e g d =
      rw
        (
          l,
          read_message-line k n reads [] t (t ++ newline ∷ []) refl (f.one_line cmd t e) refl d,
          is_empty-line t,
          f.read_line cmd t e,
          g,
        )
        refl

  connect_and_send-answer :
      (cmd : IpcCommand) (t u : List ℕ) (r : Response V) (k n : ℕ) (reads : Reads)
      → IsFaithful responses
      → commands.to_vec cmd ≡ some t
      → responses.to_vec r ≡ some u
      → Delivers reads (u ++ newline ∷ []) k
      → connect_and_send commands responses wire
          (record { connected = true; writable = true; rounds = k + n; reads = reads })
          cmd
        ≡ answer r
  unfolding connect_and_send parse_response
  connect_and_send-answer cmd t u r k n reads f e g d =
      rw
        (
          e,
          read_message-line k n reads [] u (u ++ newline ∷ []) refl (f.one_line r u g) refl d,
          strip_newlines-line u (f.one_line r u g),
          f.read_back r u g,
        )
        refl

  -- A command sent to a listening server, with the bytes written by either side delivered to the other
  -- in pieces of any sizes, with pauses: the server handles just this command, is then in the state
  -- and has the requests to Mihomo that `handle_command_with_state` gives, and has written the JSON of
  -- its response and a newline; and the client, which reads these, answers with that response. Each
  -- side reads as often as the bytes come in. The JSON of the command and of the response can be made.
  pub connect_and_send-handle_one :
      (s : ServiceState) (w : World J) (cmd : IpcCommand) (t u : List ℕ) (j k m n : ℕ)
      (requests answers : Reads) (server : IpcServer)
      → IsFaithful commands
      → IsFaithful responses
      → server.listening ≡ true
      → commands.to_vec cmd ≡ some t
      → responses.to_vec (wire (handle_command_with_state s w cmd).0) ≡ some u
      → Delivers requests (t ++ newline ∷ []) j
      → Delivers answers (u ++ newline ∷ []) k
      → (handle_one commands responses wire server s w
            (accepted (record { rounds = j + m; reads = requests; writable = true }))
          ≡ (
            handled cmd,
            (handle_command_with_state s w cmd).1,
            (handle_command_with_state s w cmd).2,
            u ++ newline ∷ [],
          ))
        × (connect_and_send commands responses wire
              (record { connected = true; writable = true; rounds = k + n; reads = answers })
              cmd
            ≡ answer (wire (handle_command_with_state s w cmd).0))
  connect_and_send-handle_one s w cmd t u j k m n requests answers server f g l e h d b = (
    handle_one-handled s w cmd t u j m requests server f l e h d,
    connect_and_send-answer cmd t u (wire (handle_command_with_state s w cmd).0) k n answers g e h
        b,
  )
