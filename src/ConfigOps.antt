-- ===== src/ConfigOps.antt =====
-- crates/control-tower-service/src/service/config_ops.rs: the changes of the mode, the ports, TUN
-- and DNS, which write config.yaml in place and settings.yaml, and restart Mihomo.
pub mod Dns
pub mod Expected
pub mod Ports
pub mod Section
use control_tower.Prelude.{
  ℕ, String, Bool, true, false, Option, none, some, List, [], ◌∷◌, ◌++◌, if◌then◌else◌, map_or,
  is_some,
}
use control_tower.Yaml.{Yaml}
use control_tower.ActiveConfig.{
  Result, ok, err, ◌>>=◌, or_fail, io_error, yaml_error, not_found, Disk, Written, complete, failed,
  parse, with_mapping,
}
use control_tower.Manager
use control_tower.Service.{ServiceState, Startup, Action, restart_mihomo}
use control_tower.Service as Service
use control_tower.Settings.{SettingsData, no_settings}
use control_tower.Settings.Store.{
  SettingsFile, Runtime, Host, Saved, PortSettings, get_settings, save_settings,
  load_settings_ports,
}

-- The step that an operation fails in.
pub data Failure : Type 0 where
  no_config no_settings_saved no_restart no_patch : Failure

module _ (y : Yaml) (flag : Bool → y.Value) (address : String → ℕ → String) where
  open y use {
    Content, Value, Mapping, to_string, string, number, sequence, mapping, new, insert, remove,
  }

  -- How a read of config.yaml and a write of it in place end.
  pub record File : Type 0 where
    pub readable : Bool
    pub written : Written y

  unfoldable pub write : Written y → Disk y → Result Content → Bool × Disk y
  write w d (err e) = (false, d)
  write complete d (ok c) = (true, record d { active = some c })
  write (failed left) d (ok c) = (false, record d { active = left })

  -- The text is read, parsed, changed if it is a mapping, printed and written.
  unfoldable pub update_content : (Mapping → Mapping) → File → Disk y → Content → Bool × Disk y
  unfolding write
  update_content f a d c =
      if a.readable
      then write a.written d
          (parse y c >>= λ v. or_fail (to_string (with_mapping y f v)) yaml_error)
      else (false, d)

  unfoldable pub update_config : (Mapping → Mapping) → File → Disk y → Bool × Disk y
  unfolding update_content
  update_config f a d = map_or d.active (false, d) (update_content f a d)

  pub record Daemon : Type 0 where
    pub settings : SettingsFile
    pub runtime : Runtime
    pub config : Disk y
    pub service : ServiceState

  -- What is answered during an operation.
  pub record Answers : Type 0 where
    pub file : File
    pub host : Host
    pub startup : Startup
    pub killed : Bool
    pub patched : Bool

  -- The failure, if there is one, the daemon, and the requests to Mihomo.
  abbrev pub Outcome : Type 0
  Outcome = Option Failure × Daemon × List Action

  unfoldable pub save_mode : Host → String → SettingsFile → Runtime → Saved
  unfolding save_settings get_settings
  save_mode host mode file rt =
      save_settings host (record (get_settings file) { mode = some mode }) file rt

  unfoldable pub update_config_mode : String → File → Disk y → Bool × Disk y
  unfolding update_config
  update_config_mode mode = update_config (insert "mode" (string mode))

  -- The save's outcome is only logged.
  unfoldable pub mode_updated : Answers → String → Daemon → Bool × Disk y → Outcome
  unfolding save_mode
  mode_updated a mode s (false, d) = (some no_config, record s { config = d }, [])
  mode_updated a mode s (true, d) =
      let saved : Saved = save_mode a.host mode s.settings s.runtime in
      (
        if a.patched then none else some no_patch,
        record s { config = d; settings = saved.1; runtime = saved.2 },
        Service.set_mode mode ∷ [],
      )

  unfoldable pub set_mode : Answers → String → Daemon → Outcome
  unfolding mode_updated update_config_mode
  set_mode a mode s = mode_updated a mode s (update_config_mode mode a.file s.config)

  abbrev pub set_ports : String → ℕ → ℕ → Mapping → Mapping
  set_ports controller http_port socks_port m =
      insert "external-controller" (string controller)
        (insert "socks-port" (number socks_port) (insert "mixed-port" (number http_port) m))

  unfoldable pub update_config_ports : ℕ → ℕ → Runtime → File → Disk y → Bool × Disk y
  unfolding update_config
  update_config_ports http_port socks_port rt =
      update_config (set_ports (address rt.api_host rt.api_port) http_port socks_port)

  -- The settings that both applications save; entries that are none keep what the file has.
  abbrev pub kept : Runtime → SettingsData → SettingsData
  kept rt old = record no_settings {
    api_host = some "127.0.0.1";
    api_port = some rt.api_port;
    mixed_port = old.mixed_port;
    service_port = some 8080;
    latency_test_mode = old.latency_test_mode;
    custom_rules = old.custom_rules;
    profile_rules_count = old.profile_rules_count;
    auto_update_on_startup = old.auto_update_on_startup;
    rule_providers = old.rule_providers;
    dns = old.dns;
    connection_history = old.connection_history;
    closed_connections = old.closed_connections;
  }

  unfoldable pub port_settings : ℕ → ℕ → Runtime → SettingsFile → SettingsData
  unfolding get_settings load_settings_ports
  port_settings http_port socks_port rt file = record (kept rt (get_settings file)) {
    http_port = some http_port;
    socks_port = some socks_port;
    tun_enabled = (load_settings_ports file).tun_enabled;
  }

  unfoldable pub after_restart :
      Daemon → Option Manager.Outcome × ServiceState × List Action → Outcome
  after_restart s (some Manager.ok, t, acts) = (none, record s { service = t }, acts)
  after_restart s (_, t, acts) = (some no_restart, record s { service = t }, acts)

  -- Mihomo is restarted if a config path is known.
  unfoldable pub restart_known : Answers → Daemon → Outcome
  unfolding after_restart restart_mihomo
  restart_known a s =
      let r = restart_mihomo s.service a.startup a.killed in
      if is_some s.service.last_config_path then after_restart s r else (none, s, [])

  unfoldable pub settings_saved : Answers → Daemon → Saved → Outcome
  unfolding restart_known
  settings_saved a s (false, file, rt) =
      (some no_settings_saved, record s { settings = file; runtime = rt }, [])
  settings_saved a s (true, file, rt) = restart_known a (record s { settings = file; runtime = rt })

  -- The settings are saved after config.yaml is written.
  unfoldable pub config_updated : Answers → SettingsData → Daemon → Bool × Disk y → Outcome
  unfolding settings_saved save_settings
  config_updated a new s (false, d) = (some no_config, record s { config = d }, [])
  config_updated a new s (true, d) =
      settings_saved a (record s { config = d }) (save_settings a.host new s.settings s.runtime)

  unfoldable pub apply_port_settings : Answers → ℕ → ℕ → Daemon → Outcome
  unfolding config_updated update_config_ports port_settings
  apply_port_settings a http_port socks_port s =
      config_updated a (port_settings http_port socks_port s.runtime s.settings) s
        (update_config_ports http_port socks_port s.runtime a.file s.config)

  unfoldable pub tun_map : Mapping
  tun_map = insert "dns-hijack" (sequence (string "udp://0.0.0.0:53" ∷ [])) (
      insert "auto-detect-interface" (flag true) (
        insert "auto-route" (flag true) (
          insert "mtu" (number 9000) (
            insert "name" (string "mihomo")
              (insert "stack" (string "gvisor") (insert "enable" (flag true) new))))))

  abbrev pub set_tun : Bool → Mapping → Mapping
  set_tun tun_enabled m = if tun_enabled then insert "tun" (mapping tun_map) m else remove "tun" m

  unfoldable pub update_config_tun : Bool → File → Disk y → Bool × Disk y
  unfolding update_config tun_map
  update_config_tun tun_enabled = update_config (set_tun tun_enabled)

  unfoldable pub tun_settings : Bool → Runtime → SettingsFile → SettingsData
  unfolding get_settings load_settings_ports
  tun_settings tun_enabled rt file =
      let old : SettingsData = get_settings file in
      let ports : PortSettings = load_settings_ports file in
      record (kept rt old) {
        http_port = ports.http_port;
        socks_port = ports.socks_port;
        tun_enabled = some tun_enabled;
        mode = old.mode;
        auto_test = old.auto_test;
      }

  unfoldable pub apply_tun_settings : Answers → Bool → Daemon → Outcome
  unfolding config_updated update_config_tun tun_settings
  apply_tun_settings a tun_enabled s =
      config_updated a (tun_settings tun_enabled s.runtime s.settings) s
        (update_config_tun tun_enabled a.file s.config)
