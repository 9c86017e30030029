-- ===== src/Cli/Settings.antt =====
-- The settings of the client: crates/control-tower-cli/src/settings.rs. The client and the daemon
-- read and write one file settings.yaml with structs of their own; the file is what the parsers of
-- both make of it. `SETTINGS` is loaded once, when the client starts, and nothing poisons its lock.
use control_tower.Prelude.{
  ℕ, String, Bool, false, Option, none, some, if◌then◌else◌, map_or, unwrap_or, or_else,
}
use control_tower.Files.{FilePath, join}
use control_tower.Settings.{SettingsData, no_settings, reread}
use control_tower.Settings.Store as Store
use control_tower.Settings.Store.{SettingsFile, Parsed, starting_of, ports_of}

-- `Settings`
pub record ClientSettings : Type 0 where
  pub working_dir : Option FilePath
  pub mihomo_path : Option FilePath
  pub api_port : Option ℕ
  pub http_port : Option ℕ
  pub socks_port : Option ℕ
  pub service_port : Option ℕ
  pub tun_enabled : Bool
  pub log_level : Option String
  pub selected_proxy : Option String
  pub mode : Option String

-- `Settings::default`
abbrev pub default_client : ClientSettings
default_client = record {
  working_dir = none;
  mihomo_path = none;
  api_port = none;
  http_port = none;
  socks_port = none;
  service_port = none;
  tun_enabled = false;
  log_level = none;
  selected_proxy = none;
  mode = none;
}

-- The file, with what the client's parser makes of a text after what the daemon's parsers do.
pub data SharedFile : Type 0 where
  missing unreadable : SharedFile
  content : Parsed → Option ClientSettings → SharedFile

-- The daemon's settings as the client reads them, and the client's as the daemon does.
abbrev pub client_of : SettingsData → ClientSettings
client_of s = record {
  working_dir = none;
  mihomo_path = none;
  api_port = s.api_port;
  http_port = s.http_port;
  socks_port = s.socks_port;
  service_port = s.service_port;
  tun_enabled = unwrap_or s.tun_enabled false;
  log_level = s.log_level;
  selected_proxy = none;
  mode = s.mode;
}

abbrev pub settings_of : ClientSettings → SettingsData
settings_of c = record no_settings {
  api_port = c.api_port;
  http_port = c.http_port;
  socks_port = c.socks_port;
  service_port = c.service_port;
  tun_enabled = some c.tun_enabled;
  log_level = c.log_level;
  mode = c.mode;
}

abbrev pub parsed_of : SettingsData → Parsed
parsed_of s = record {
  settings = some (reread s);
  starting = some (starting_of s);
  ports = some (ports_of s);
}

abbrev pub written_by_daemon : SettingsData → SharedFile
written_by_daemon s = content (parsed_of s) (some (client_of s))

abbrev pub written_by_client : ClientSettings → SharedFile
written_by_client c = content (parsed_of (settings_of c)) (some c)

-- What the daemon finds.
abbrev pub daemon_file : SharedFile → SettingsFile
daemon_file missing = Store.missing
daemon_file unreadable = Store.unreadable
daemon_file (content p c) = Store.content p

-- `load_settings`, with the default of `SETTINGS` for an error.
unfoldable pub load_settings : SharedFile → ClientSettings
load_settings missing = default_client
load_settings unreadable = default_client
load_settings (content p c) = unwrap_or c default_client

-- The custom path, or the file next to the executable or in the configuration directory if it
-- exists, or the place of a new file.
unfoldable pub find_settings_path :
    Option FilePath → Option FilePath → Option FilePath → (FilePath → Bool) → Option FilePath
find_settings_path custom exe_dir config_dir exists =
    let in_exe : Option FilePath = map_or exe_dir none (λ d. some (join d "settings.yaml")) in
    let in_config : Option FilePath = map_or config_dir none (λ d. some (join d "settings.yaml")) in
    let found : Option FilePath → Option FilePath =
      λ o. map_or o none (λ p. if exists p then some p else none) in
    or_else custom (or_else (found in_exe) (or_else (found in_config) in_exe))

-- How the save ends, whose errors are not reported.
pub data Save : Type 0 where
  complete no_path unprinted : Save
  failed : SharedFile → Save

unfoldable pub save : Save → ClientSettings → SharedFile → SharedFile
save complete s f = written_by_client s
save no_path s f = f
save unprinted s f = f
save (failed left) s f = left

unfoldable pub set_selected_proxy :
    Save → String → ClientSettings → SharedFile → ClientSettings × SharedFile
unfolding save
set_selected_proxy w name s f =
    let new : ClientSettings = record s { selected_proxy = some name } in (new, save w new f)

unfoldable pub set_mode : Save → String → ClientSettings → SharedFile → ClientSettings × SharedFile
unfolding save
set_mode w mode s f =
    let new : ClientSettings = record s { mode = some mode } in (new, save w new f)
