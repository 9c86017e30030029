-- ===== src/Settings/Store.antt =====
-- crates/control-tower-service/src/service/settings_ops.rs: `load_settings`, `get_settings`,
-- `save_settings`, `get_latency_test_mode` and `ensure_settings_file`, with `hot_patch_configs` of
-- service/config_ops.rs. The file is what its parsers make of it: the code reads the same text as
-- `SettingsData`, as the entries that the daemon starts with, and as three entries about ports.
use control_tower.Prelude.{
  ℕ, ◌*◌, String, Bool, true, false, ◌&&◌, Option, none, some, List, [], ◌∷◌, ◌++◌, if◌then◌else◌,
  map_or, or_else, unwrap_or, is_some, is_empty, ◌||◌, ◌≡◌, refl, ◌⊎◌, inl, inr,
}
use control_tower.Settings.{SettingsData, default_settings, no_settings, reread}

-- `LatencyResult` and `AutoTestState` of ipc_types.rs.
pub record LatencyResult : Type 0 where
  pub name : String
  pub latency : Option ℕ
  pub error : Option String

pub record AutoTestState : Type 0 where
  pub enabled : Bool
  pub interval_secs : ℕ
  pub last_test_at : Option ℕ
  pub fastest : Option LatencyResult
  pub results : List LatencyResult
  pub running : Bool

-- `AutoTestYaml` and `Settings` of `load_settings`.
pub record AutoTestYaml : Type 0 where
  pub enabled : Option Bool
  pub interval_minutes : Option ℕ

pub record StartSettings : Type 0 where
  pub api_host : Option String
  pub api_port : Option ℕ
  pub auto_test : Option AutoTestYaml

-- `Settings` of `load_settings_ports`.
pub record PortSettings : Type 0 where
  pub http_port : Option ℕ
  pub socks_port : Option ℕ
  pub tun_enabled : Option Bool

-- What a text parses to, with none for an error.
pub record Parsed : Type 0 where
  pub settings : Option SettingsData
  pub starting : Option StartSettings
  pub ports : Option PortSettings

pub data SettingsFile : Type 0 where
  missing unreadable : SettingsFile
  content : Parsed → SettingsFile

-- The three views of the text that the printer writes.
abbrev pub starting_of : SettingsData → StartSettings
starting_of s = record {
  api_host = s.api_host;
  api_port = s.api_port;
  auto_test =
      map_or s.auto_test none (λ c.
        some (record { enabled = some c.enabled; interval_minutes = some c.interval_minutes }));
}

abbrev pub ports_of : SettingsData → PortSettings
ports_of s = record {
  http_port = s.http_port;
  socks_port = s.socks_port;
  tun_enabled = s.tun_enabled;
}

abbrev pub printed : SettingsData → SettingsFile
printed s = content (record {
  settings = some (reread s);
  starting = some (starting_of s);
  ports = some (ports_of s);
})

-- The body of a request PATCH /configs.
pub record Patch : Type 0 where
  pub log_level : Option String
  pub allow_lan : Option Bool
  pub ipv6 : Option Bool
  pub tcp_concurrent : Option Bool

-- The fields of `ServiceState` that the settings reach, and the patches sent to Mihomo so far, whose
-- outcome is only logged.
pub record Runtime : Type 0 where
  pub api_host : String
  pub api_port : ℕ
  pub auto_test : AutoTestState
  pub patches : List Patch

-- `hot_patch_configs`, for an HTTP client that is built or not.
unfoldable pub hot_patch_configs : Bool → Patch → Runtime → Runtime
hot_patch_configs client p rt =
    if client
      && (is_some p.log_level || is_some p.allow_lan || is_some p.ipv6 || is_some p.tcp_concurrent)
    then record rt { patches = rt.patches ++ p ∷ [] }
    else rt

unfoldable pub load_auto_test : AutoTestYaml → AutoTestState → AutoTestState
load_auto_test c t = record t {
  enabled = unwrap_or c.enabled false;
  interval_secs = unwrap_or c.interval_minutes 5 * 60;
}

unfoldable pub load_starting : StartSettings → Runtime → Runtime
unfolding load_auto_test
load_starting s rt = record rt {
  api_host = unwrap_or s.api_host rt.api_host;
  api_port = unwrap_or s.api_port rt.api_port;
  auto_test = map_or s.auto_test rt.auto_test (λ c. load_auto_test c rt.auto_test);
}

unfoldable pub load_settings : SettingsFile → Runtime → Runtime
unfolding load_starting
load_settings missing rt = rt
load_settings unreadable rt = rt
load_settings (content p) rt = map_or p.starting rt (λ s. load_starting s rt)

unfoldable pub get_settings : SettingsFile → SettingsData
get_settings missing = default_settings
get_settings unreadable = default_settings
get_settings (content p) = unwrap_or p.settings default_settings

unfoldable pub get_latency_test_mode : SettingsFile → String
unfolding get_settings
get_latency_test_mode file =
    let s : SettingsData = get_settings file in unwrap_or s.latency_test_mode "http"

-- `load_settings_ports`
unfoldable pub load_settings_ports : SettingsFile → PortSettings
load_settings_ports missing = record { http_port = none; socks_port = none; tun_enabled = none }
load_settings_ports unreadable = record { http_port = none; socks_port = none; tun_enabled = none }
load_settings_ports (content p) =
    unwrap_or p.ports (record { http_port = none; socks_port = none; tun_enabled = none })

-- The merge of `save_settings`: the old settings with the new entries that are given.
unfoldable pub merge_settings : SettingsData → SettingsData → SettingsData
merge_settings new old = record old {
  api_host = or_else new.api_host old.api_host;
  api_port = or_else new.api_port old.api_port;
  http_port = or_else new.http_port old.http_port;
  socks_port = or_else new.socks_port old.socks_port;
  service_port = or_else new.service_port old.service_port;
  tun_enabled = or_else new.tun_enabled old.tun_enabled;
  log_level = or_else new.log_level old.log_level;
  allow_lan = or_else new.allow_lan old.allow_lan;
  ipv6 = or_else new.ipv6 old.ipv6;
  tcp_concurrent = or_else new.tcp_concurrent old.tcp_concurrent;
  mode = or_else new.mode old.mode;
  latency_test_mode = or_else new.latency_test_mode old.latency_test_mode;
  auto_test = or_else new.auto_test old.auto_test;
  custom_rules = or_else new.custom_rules old.custom_rules;
  profile_rules_count = or_else new.profile_rules_count old.profile_rules_count;
  auto_update_on_startup = or_else new.auto_update_on_startup old.auto_update_on_startup;
  rule_providers = or_else new.rule_providers old.rule_providers;
  dns = or_else new.dns old.dns;
  connection_history = or_else new.connection_history old.connection_history;
  auth = or_else new.auth old.auth;
  closed_connections =
      (if is_empty new.closed_connections then old.closed_connections else new.closed_connections);
}

-- How the printer and the write of the file end: the printer fails and the file stays, or the write
-- fails and leaves a part of the text, or both succeed.
pub data Write : Type 0 where
  complete unprinted : Write
  failed : SettingsFile → Write

pub Write-cases :
    (w : Write) → (w ≡ complete) ⊎ (w ≡ unprinted) ⊎ (left : SettingsFile) × (w ≡ failed left)
Write-cases complete = inl refl
Write-cases unprinted = inr (inl refl)
Write-cases (failed left) = inr (inr (left, refl))

pub record Host : Type 0 where
  pub client : Bool
  pub write : Write

-- The result, the file and the runtime state.
abbrev pub Saved : Type 0
Saved = Bool × SettingsFile × Runtime

unfoldable pub write_settings : Write → SettingsData → SettingsFile → Runtime → Saved
unfolding load_settings
write_settings complete s file rt = (true, printed s, load_settings (printed s) rt)
write_settings unprinted s file rt = (false, file, rt)
write_settings (failed left) s file rt = (false, left, rt)

abbrev pub patch_of : SettingsData → Patch
patch_of s = record {
  log_level = s.log_level;
  allow_lan = s.allow_lan;
  ipv6 = s.ipv6;
  tcp_concurrent = s.tcp_concurrent;
}

unfoldable pub save_settings : Host → SettingsData → SettingsFile → Runtime → Saved
unfolding write_settings hot_patch_configs merge_settings get_settings
save_settings host new file rt =
    write_settings host.write (merge_settings new (get_settings file)) file
      (hot_patch_configs host.client (patch_of new) rt)

abbrev pub first_settings : SettingsData
first_settings = record no_settings {
  api_host = some "127.0.0.1";
  api_port = some 9090;
  http_port = some 7890;
  socks_port = some 7891;
  service_port = some 8080;
  tun_enabled = some false;
  log_level = some "info";
  allow_lan = some true;
  ipv6 = some true;
  tcp_concurrent = some false;
  mode = some "rule";
  latency_test_mode = some "http";
}

-- The text that is written when the printer fails.
abbrev pub fallback_settings : SettingsData
fallback_settings = record no_settings {
  api_host = some "127.0.0.1";
  api_port = some 9090;
  http_port = some 7890;
  socks_port = some 7891;
  service_port = some 8080;
  tun_enabled = some false;
  log_level = some "info";
  mode = some "rule";
}

-- `ensure_settings_file`
unfoldable pub ensure_settings_file : Write → SettingsFile → SettingsFile
ensure_settings_file complete missing = printed first_settings
ensure_settings_file unprinted missing = printed fallback_settings
ensure_settings_file (failed left) missing = left
ensure_settings_file w unreadable = unreadable
ensure_settings_file w (content p) = content p
