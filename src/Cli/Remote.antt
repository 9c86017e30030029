-- ===== src/Cli/Remote.antt =====
-- The commands of the client that go to the daemon, or to Mihomo if it does not answer:
-- crates/control-tower-cli/src/service.rs, with `set_current_mode` of mode.rs and
-- `select_proxy_node` of proxy.rs. `exists` is whether the file of the socket is there.
pub mod Start
pub mod Lost
pub mod Select
use control_tower.Prelude.{
  ℕ, zero, suc, String, Bool, true, false, ◌||◌, Option, none, some, List, [], ◌∷◌, if◌then◌else◌,
  str_eq,
}
use control_tower.Files.{FilePath}
use control_tower.Profiles.{RuleProviderConfig}
use control_tower.Yaml.{Yaml}
use control_tower.ActiveConfig.{Disk, Io}
use control_tower.ActiveConfig.Edit as Edit
use control_tower.ActiveConfig.Edit.{perform}
use control_tower.Service.Ipc as Ipc
use control_tower.Service.Ipc.{IpcCommand, IpcResponse, start_mihomo}
use control_tower.Socket.{Response, is_success, Codec, Client, Sent, answer, ipc_connect_and_send}
use control_tower.Cli.Settings.{ClientSettings, SharedFile, Save, set_selected_proxy, set_mode}
use control_tower.Cli.Proxies.{Resolved, chosen, resolve_proxy_name}

-- A request to Mihomo's API: an error, or an answer with success or not.
pub data Direct : Type 0 where
  not_sent : Direct
  replied : Bool → Direct

abbrev pub went_well : Direct → Bool
went_well not_sent = false
went_well (replied b) = b

-- `["rule", "global", "direct"].contains(&mode)`
abbrev pub is_mode : String → Bool
is_mode mode = str_eq mode "rule" || str_eq mode "global" || str_eq mode "direct"

module _ {J V : Type 0} (y : Yaml) (to_value : RuleProviderConfig → y.Value)
    (commands : Codec IpcCommand) (responses : Codec (Response V))
    (wire : IpcResponse J → Response V) where
  -- What is answered to a command.
  pub record Remote : Type 0 where
    pub exists : Bool
    pub client : Client commands responses wire
    pub direct : Direct

  abbrev pub succeeded : Sent commands responses wire → Bool
  succeeded (answer r) = is_success r
  succeeded _ = false

  -- The command succeeds over the socket.
  abbrev pub served : Remote → IpcCommand → Bool
  served r cmd = succeeded (ipc_connect_and_send commands responses wire r.exists r.client cmd)

  -- Over the socket, and otherwise by a request to Mihomo.
  abbrev pub done : Remote → IpcCommand → Bool
  done r cmd = if served r cmd then true else went_well r.direct

  pub record Session : Type 0 where
    pub settings : ClientSettings
    pub file : SharedFile
    pub config : Disk y

  -- `crate::settings::set_mode` and `update_config_mode`, whose error is a warning.
  unfoldable pub persist_mode : Save → Option (Io y) → String → Session → Session
  unfolding set_mode perform
  persist_mode w none mode s =
      let (settings, file) = set_mode w mode s.settings s.file in
      record s { settings = settings; file = file }
  persist_mode w (some io) mode s =
      let (settings, file) = set_mode w mode s.settings s.file in
      record {
        settings = settings;
        file = file;
        config = (perform y to_value (Edit.set_mode mode) io s.config).1;
      }

  -- `set_mode` of service.rs; config.yaml has no path if no path of the settings is known.
  unfoldable pub change_mode : Remote → Save → Option (Io y) → String → Session → Bool × Session
  unfolding persist_mode ipc_connect_and_send
  change_mode r w io mode s =
      if done r (Ipc.mode mode) then (true, persist_mode w io mode s) else (false, s)

  -- `set_current_mode`
  unfoldable pub set_current_mode :
      Remote → Save → Option (Io y) → String → Session → Bool × Session
  unfolding change_mode
  set_current_mode r w io mode s = if is_mode mode then change_mode r w io mode s else (false, s)

  abbrev pub persist_proxy : Save → String → Session → Session
  persist_proxy w name s =
      let (settings, file) = set_selected_proxy w name s.settings s.file in
      record s { settings = settings; file = file }

  -- `select_proxy`
  unfoldable pub select_proxy : Remote → Save → String → Session → Bool × Session
  unfolding set_selected_proxy ipc_connect_and_send
  select_proxy r w name s =
      if done r (Ipc.select name) then (true, persist_proxy w name s) else (false, s)

  -- `select_proxy_node`, which stores the proxy once more.
  abbrev pub after_selection : Save → String → Bool × Session → Bool × Session
  after_selection w name (false, s) = (false, s)
  after_selection w name (true, s) = (true, persist_proxy w name s)

  unfoldable pub select_resolved : Remote → Save → Save → Resolved → Session → Bool × Session
  unfolding select_proxy
  select_resolved r w again (chosen name) s = after_selection again name (select_proxy r w name s)
  select_resolved r w again _ s = (false, s)

  unfoldable pub select_proxy_node :
      (String → String) → List String → Remote → Save → Save → String → Session → Bool × Session
  unfolding select_resolved resolve_proxy_name
  select_proxy_node to_lowercase names r w again selector s =
      select_resolved r w again (resolve_proxy_name to_lowercase names selector) s

  -- `close_connection_via_ipc`
  unfoldable pub close_connection_via_ipc : Remote → String → Bool
  unfolding ipc_connect_and_send
  close_connection_via_ipc r id = done r (Ipc.close id)

  -- `stop_service`; `running` is whether Mihomo's API answers. Any answer of it counts.
  unfoldable pub stop_service : Remote → Bool → Bool
  unfolding ipc_connect_and_send
  stop_service r running =
      if r.exists then served r Ipc.stop_mihomo else if running then sent r.direct else true
    where
      sent : Direct → Bool
      sent not_sent = false
      sent (replied b) = true
