-- ===== src/Tests/Client.antt =====
-- The socket and the command line client on concrete inputs.
use control_tower.Prelude.{
  ℕ, String, Bool, true, false, Option, none, some, List, [], ◌∷◌, ◌≡◌, refl, ◌↔◌, map, ◌==◌, ◌&&◌,
  if◌then◌else◌, str_eq, eq_iff, arith, ap, Bool-cases, inl, inr,
}
use control_tower.ActiveConfig.{write_atomically}
use control_tower.ActiveConfig.Replace.{replace_from_profile}
use control_tower.Catalog as Catalog
use control_tower.Text.{codes, parse_u32}
use control_tower.Cli as Cli
use control_tower.Cli.{ProfilesFile, written_by_daemon, item_of, entry}
use control_tower.Cli.Edit.{Addition, Texts, add_profile, new_profile, is_off, set_cron}
use control_tower.Cli.Switch.{Home, Activation, activate_profile}
use control_tower.Cli.Shared.{daemon_of, with_new, forget, daemon_of-add_profile}
use control_tower.Cli.Cron.{IsScheduled, set_cron-IsScheduled}
use control_tower.Cli.Activate.{HasJust, activate_profile-HasJust}
use control_tower.Service.Ipc.{
  IpcCommand, IpcResponse, World, ℤ, start_mihomo, stop_mihomo, shutdown, restart, get_status, logs,
  get_proxies, get_connections, close, cron, mode, select, test, success, success_with_data, error,
  failed, client_failed, handle_command_with_state,
}
use control_tower.Socket.{
  bytes, would_block, Reads, waiting, newline, Codec, Response, accepted, handled, answer,
  handle_one, connect_and_send, read_message,
}
use control_tower.Socket.Line.{AllGoOn, Delivers, read_message-waiting}
use control_tower.Socket.Exchange.{IsFaithful, connect_and_send-handle_one}
use control_tower.Yaml.Instance.{plain, str, map_of, field, end}
use control_tower.Tests.Profiles as Profiles

quiet : Reads
quiet i = would_block

read_message-waiting_example : (read_message 2 quiet [] ≡ waiting) ↔ AllGoOn 2 quiet
read_message-waiting_example = read_message-waiting 2 quiet [] refl

-- Two messages are enough here: the command to reload the jobs, and the answer that it is done.
abbrev command_bytes : IpcCommand → Option (List ℕ)
command_bytes cron = some (b'c' ∷ [])
command_bytes _ = none

abbrev pub commands : Codec IpcCommand
commands = record { to_vec = command_bytes; from_slice = λ t. some cron }

abbrev fine : Response Bool
fine = record { code = ℤ.pos 0; message = ""; data_value = none }

abbrev response_bytes : ℤ → String → Option Bool → Option (List ℕ)
response_bytes (ℤ.pos n) m none = if n == 0 && str_eq m "" then some (b'f' ∷ []) else none
response_bytes (ℤ.pos n) m (some d) = none
response_bytes (ℤ.negsuc n) m d = none

abbrev pub responses : Codec (Response Bool)
responses = record {
  to_vec = λ r. response_bytes r.code r.message r.data_value;
  from_slice = λ t. some fine;
}

abbrev pub wire : IpcResponse Bool → Response Bool
wire success = fine
wire (success_with_data d) = record { code = ℤ.pos 0; message = ""; data_value = some true }
wire (error e) = record { code = ℤ.negsuc 0; message = ""; data_value = none }

command_lem :
    (c : IpcCommand) (t : List ℕ) → command_bytes c ≡ some t → (t ≡ b'c' ∷ []) × (c ≡ cron)
command_lem cron t e = (cc, refl)
command_lem (start_mihomo p) t e = ground (arith, e)
command_lem stop_mihomo t e = ground (arith, e)
command_lem shutdown t e = ground (arith, e)
command_lem restart t e = ground (arith, e)
command_lem get_status t e = ground (arith, e)
command_lem (logs n) t e = ground (arith, e)
command_lem get_proxies t e = ground (arith, e)
command_lem get_connections t e = ground (arith, e)
command_lem (close i) t e = ground (arith, e)
command_lem (mode m) t e = ground (arith, e)
command_lem (select n) t e = ground (arith, e)
command_lem (test n m) t e = ground (arith, e)

commands-IsFaithful : IsFaithful commands
commands-IsFaithful = record {
  one_line = λ c t e. rw (command_lem c t e).0 refl;
  read_back = λ c t e. rw (command_lem c t e).1 refl;
  read_line = λ c t e. rw (command_lem c t e).1 refl;
}

response_lem :
    (c : ℤ) (m : String) (d : Option Bool) (t : List ℕ)
    → response_bytes c m d ≡ some t
    → (t ≡ b'f' ∷ []) × (fine ≡ record { code = c; message = m; data_value = d })
response_lem (ℤ.pos n) m none t e = elim (Bool-cases (n == 0 && str_eq m "")) [
  | inl k ↦
      let zero_n : 0 ≡ n = ground (arith, k) in
      let empty_m : "" ≡ m = ground (arith, k, eq_iff m "") in
      (
        ground (arith, e, k),
        λ i. record { code = ℤ.pos (zero_n i); message = empty_m i; data_value = none },
      )
  | inr k ↦ absurd (ground (arith, e, k))
]
response_lem (ℤ.pos n) m (some d) t e = ground (arith, e)
response_lem (ℤ.negsuc n) m d t e = ground (arith, e)

responses-IsFaithful : IsFaithful responses
responses-IsFaithful = record {
  one_line = λ r t e. rw (response_lem r.code r.message r.data_value t e).0 refl;
  read_back = λ r t e. ap some (response_lem r.code r.message r.data_value t e).1;
  read_line = λ r t e. ap some (response_lem r.code r.message r.data_value t e).1;
}

abbrev command_reads : Reads
command_reads i = bytes (b'c' ∷ newline ∷ [])

abbrev pub answer_reads : Reads
answer_reads i = bytes (b'f' ∷ newline ∷ [])

abbrev world : World Bool
world = record {
  startup = Profiles.answers.startup;
  killed = true;
  now = 7;
  queried = failed "";
  refused = none;
  probed = client_failed;
}

answered_lem :
    responses.to_vec (wire (handle_command_with_state Profiles.service world cron).0)
    ≡ some (b'f' ∷ [])
unfolding handle_command_with_state
answered_lem = refl

command_reads_lem : Delivers command_reads (b'c' ∷ newline ∷ []) 1
command_reads_lem = Delivers.piece 0 (b'c' ∷ newline ∷ []) [] refl refl refl Delivers.all

answer_reads_lem : Delivers answer_reads (b'f' ∷ newline ∷ []) 1
answer_reads_lem = Delivers.piece 0 (b'f' ∷ newline ∷ []) [] refl refl refl Delivers.all

connect_and_send-handle_one_example :
    (handle_one commands responses wire
        (record { listening = true; socket = true })
        Profiles.service
        world
        (accepted (record { rounds = 1; reads = command_reads; writable = true }))
      ≡ (
        handled cron,
        (handle_command_with_state Profiles.service world cron).1,
        (handle_command_with_state Profiles.service world cron).2,
        b'f' ∷ newline ∷ [],
      ))
    × (connect_and_send commands responses wire
          (record { connected = true; writable = true; rounds = 1; reads = answer_reads })
          cron
        ≡ answer (wire (handle_command_with_state Profiles.service world cron).0))
connect_and_send-handle_one_example =
    connect_and_send-handle_one commands responses wire Profiles.service world cron (b'c' ∷ [])
      (b'f' ∷ []) 1 1 0 0 command_reads answer_reads (record { listening = true; socket = true })
      commands-IsFaithful responses-IsFaithful refl refl answered_lem command_reads_lem
      answer_reads_lem

abbrev addition : Addition
addition = record {
  download = some (1 ∷ []);
  id = "u2";
  path = "u2.yaml";
  dir_made = true;
  written = true;
  left = none;
  saved = Cli.complete;
  now = 9;
}

abbrev texts : Texts
texts file = if str_eq file "u1.yaml" then some (1 ∷ []) else none

abbrev file : ProfilesFile
file = written_by_daemon Profiles.yaml

addition-done : (add_profile addition "https://a.b/d" none file texts).0 ≡ none
unfolding add_profile
addition-done = refl

daemon_of-add_profile_example :
    daemon_of (add_profile addition "https://a.b/d" none file texts).1
    ≡ some (with_new Profiles.yaml (item_of (entry (new_profile addition "https://a.b/d" none))))
daemon_of-add_profile_example =
    daemon_of-add_profile addition "https://a.b/d" none Profiles.yaml texts addition-done

not-off : is_off (codes "30") ≡ false
unfolding is_off
not-off = refl

set-done : (set_cron Cli.complete "u1" (some "30") file).0 ≡ none
unfolding set_cron written_by_daemon parse_u32
set-done = refl

set_cron-IsScheduled_example : IsScheduled "u1" "30" (set_cron Cli.complete "u1" (some "30") file)
set_cron-IsScheduled_example = set_cron-IsScheduled Cli.complete "u1" "30" file not-off set-done

abbrev home : Home plain Profiles.content_of
home = record {
  profiles = file;
  texts = texts;
  config = record { active = some (some (map_of (field "mode" (str "rule") end))); temp = none };
}

abbrev activation : Activation plain Profiles.content_of
activation = record { io = Profiles.io; saved = Cli.complete; running = true; served = true }

activation-done : (activate_profile plain Profiles.content_of activation "u1" home).0 ≡ none
unfolding activate_profile written_by_daemon replace_from_profile write_atomically
activation-done = refl

found_lem : Catalog.find "u1" Profiles.yaml.items ≡ some Profiles.item
unfolding Catalog.find
found_lem = refl

activate_profile-HasJust_example :
    (daemon_of (activate_profile plain Profiles.content_of activation "u1" home).1.profiles
      ≡ some (record { current = some "u1"; items = map forget Profiles.yaml.items }))
    × HasJust plain Profiles.content_of
        (map_of Profiles.profile)
        (activate_profile plain Profiles.content_of activation "u1" home).1.config
activate_profile-HasJust_example =
    activate_profile-HasJust plain Profiles.content_of activation "u1" home Profiles.yaml
      Profiles.item "u1.yaml" (1 ∷ []) (some (map_of (field "mode" (str "rule") end)))
      (map_of Profiles.profile) Profiles.profile refl refl found_lem refl refl refl refl refl refl
      refl activation-done
