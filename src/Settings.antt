-- ===== src/Settings.antt =====
-- crates/control-tower-service/src/settings.rs: the settings that settings.yaml keeps, their
-- defaults, and `reread`, which is what the parser makes of the text that the printer writes by the
-- attributes of the fields: an option that is none and an empty list are left out and default to
-- none and to an empty list; an empty text of `DnsSettings` is left out and gets its default.
-- Children: Store for service/settings_ops.rs, Merge and Sync about a save, Auth for the passwords.
pub mod Store
pub mod Merge
pub mod Update
pub mod Auth
pub mod Sync
use Prim.Native.String
use control_tower.Prelude.{
  ℕ, String, Bool, true, false, Option, none, some, List, [], ◌∷◌, str_eq, if◌then◌else◌, map_or,
}
use control_tower.Profiles.{RuleProviderConfig}
use control_tower.Connections.{ClosedConnection}

pub record AutoTestConfig : Type 0 where
  pub enabled : Bool
  pub interval_minutes : ℕ
  pub latency_test_mode : Option String

pub record FallbackFilter : Type 0 where
  pub geoip : Bool
  pub geoip_code : Option String
  pub ipcidr : List String

pub record HostEntry : Type 0 where
  pub host : String
  pub ip : String

pub record NameserverPolicyEntry : Type 0 where
  pub match_domain : String
  pub nameserver : List String

pub record DnsSettings : Type 0 where
  pub enable : Bool
  pub enhanced_mode : String
  pub fake_ip_range : String
  pub nameserver : List String
  pub fallback : List String
  pub fallback_filter : Option FallbackFilter
  pub hosts : List HostEntry
  pub nameserver_policy : List NameserverPolicyEntry

pub record ConnectionHistoryConfig : Type 0 where
  pub enabled : Bool
  pub max_count : ℕ

pub record HttpsConfig : Type 0 where
  pub enabled : Bool
  pub cert_path : Option String
  pub key_path : Option String

pub record AuthConfig : Type 0 where
  pub enabled : Bool
  pub password : Option String

pub record SettingsData : Type 0 where
  pub api_host : Option String
  pub api_port : Option ℕ
  pub http_port : Option ℕ
  pub socks_port : Option ℕ
  pub mixed_port : Option ℕ
  pub service_port : Option ℕ
  pub tun_enabled : Option Bool
  pub log_level : Option String
  pub allow_lan : Option Bool
  pub ipv6 : Option Bool
  pub tcp_concurrent : Option Bool
  pub mode : Option String
  pub latency_test_mode : Option String
  pub auto_test : Option AutoTestConfig
  pub custom_rules : Option (List String)
  pub profile_rules_count : Option ℕ
  pub auto_update_on_startup : Option Bool
  pub rule_providers : Option (List RuleProviderConfig)
  pub dns : Option DnsSettings
  pub connection_history : Option ConnectionHistoryConfig
  pub closed_connections : List ClosedConnection
  pub https : Option HttpsConfig
  pub auth : Option AuthConfig

-- The settings without any entry.
abbrev pub no_settings : SettingsData
no_settings = record {
  api_host = none;
  api_port = none;
  http_port = none;
  socks_port = none;
  mixed_port = none;
  service_port = none;
  tun_enabled = none;
  log_level = none;
  allow_lan = none;
  ipv6 = none;
  tcp_concurrent = none;
  mode = none;
  latency_test_mode = none;
  auto_test = none;
  custom_rules = none;
  profile_rules_count = none;
  auto_update_on_startup = none;
  rule_providers = none;
  dns = none;
  connection_history = none;
  closed_connections = [];
  https = none;
  auth = none;
}

abbrev pub default_auto_test : AutoTestConfig
default_auto_test = record { enabled = false; interval_minutes = 15; latency_test_mode = none }

-- `SettingsData::default`
abbrev pub default_settings : SettingsData
default_settings = record no_settings { auto_test = some default_auto_test }

-- A text that is left out if it is empty, and then read as the default.
abbrev pub text_or_default : String → String → String
text_or_default default s = if str_eq s "" then default else s

unfoldable pub reread_dns : DnsSettings → DnsSettings
reread_dns d = record d {
  enhanced_mode = text_or_default "fake-ip" d.enhanced_mode;
  fake_ip_range = text_or_default "198.18.0.1/15" d.fake_ip_range;
}

unfoldable pub reread : SettingsData → SettingsData
unfolding reread_dns
reread s = record s { dns = map_or s.dns none (λ d. some (reread_dns d)) }
