-- ===== src/Settings/Update.antt =====
-- PUT /api/settings: `put_settings` of api/settings_handlers.rs with `UpdateSettingsRequest`, and
-- what a save makes known to the daemon.
use control_tower.Prelude.{ℕ, String, Bool, Option, ◌≡◌, ap, ◌∙◌, or_else}
use control_tower.Settings.{SettingsData, AutoTestConfig, no_settings, reread}
use control_tower.Settings.Store.{
  SettingsFile, Runtime, Host, complete, Saved, get_settings, merge_settings, save_settings,
}
use control_tower.Settings.Merge.{saved_as, or_else_same, given_same, IsStable}

pub record UpdateSettingsRequest : Type 0 where
  pub api_host : Option String
  pub api_port : Option ℕ
  pub http_port : Option ℕ
  pub socks_port : Option ℕ
  pub mixed_port : Option ℕ
  pub service_port : Option ℕ
  pub tun_enabled : Option Bool
  pub log_level : Option String
  pub allow_lan : Option Bool
  pub ipv6 : Option Bool
  pub tcp_concurrent : Option Bool
  pub mode : Option String
  pub latency_test_mode : Option String
  pub auto_test : Option AutoTestConfig

-- The settings that `put_settings` saves: the request's, and the entries of the rules as they are.
unfoldable pub settings_of : UpdateSettingsRequest → SettingsData → SettingsData
settings_of body current = record no_settings {
  api_host = body.api_host;
  api_port = body.api_port;
  http_port = body.http_port;
  socks_port = body.socks_port;
  mixed_port = body.mixed_port;
  service_port = body.service_port;
  tun_enabled = body.tun_enabled;
  log_level = body.log_level;
  allow_lan = body.allow_lan;
  ipv6 = body.ipv6;
  tcp_concurrent = body.tcp_concurrent;
  mode = body.mode;
  latency_test_mode = body.latency_test_mode;
  auto_test = body.auto_test;
  custom_rules = current.custom_rules;
  profile_rules_count = current.profile_rules_count;
  auto_update_on_startup = current.auto_update_on_startup;
  rule_providers = current.rule_providers;
  dns = current.dns;
  connection_history = current.connection_history;
  closed_connections = current.closed_connections;
}

unfoldable pub put_settings : Host → UpdateSettingsRequest → SettingsFile → Runtime → Saved
unfolding settings_of
put_settings host body file rt = save_settings host (settings_of body (get_settings file)) file rt

merged_request :
    (body : UpdateSettingsRequest) (s : SettingsData)
    → merge_settings (settings_of body s) s ≡ record s {
      api_host = or_else body.api_host s.api_host;
      api_port = or_else body.api_port s.api_port;
      http_port = or_else body.http_port s.http_port;
      socks_port = or_else body.socks_port s.socks_port;
      service_port = or_else body.service_port s.service_port;
      tun_enabled = or_else body.tun_enabled s.tun_enabled;
      log_level = or_else body.log_level s.log_level;
      allow_lan = or_else body.allow_lan s.allow_lan;
      ipv6 = or_else body.ipv6 s.ipv6;
      tcp_concurrent = or_else body.tcp_concurrent s.tcp_concurrent;
      mode = or_else body.mode s.mode;
      latency_test_mode = or_else body.latency_test_mode s.latency_test_mode;
      auto_test = or_else body.auto_test s.auto_test;
    }
unfolding merge_settings settings_of
merged_request body s = λ i. record s {
  api_host = or_else body.api_host s.api_host;
  api_port = or_else body.api_port s.api_port;
  http_port = or_else body.http_port s.http_port;
  socks_port = or_else body.socks_port s.socks_port;
  service_port = or_else body.service_port s.service_port;
  tun_enabled = or_else body.tun_enabled s.tun_enabled;
  log_level = or_else body.log_level s.log_level;
  allow_lan = or_else body.allow_lan s.allow_lan;
  ipv6 = or_else body.ipv6 s.ipv6;
  tcp_concurrent = or_else body.tcp_concurrent s.tcp_concurrent;
  mode = or_else body.mode s.mode;
  latency_test_mode = or_else body.latency_test_mode s.latency_test_mode;
  auto_test = or_else body.auto_test s.auto_test;
  custom_rules = or_else_same s.custom_rules i;
  profile_rules_count = or_else_same s.profile_rules_count i;
  auto_update_on_startup = or_else_same s.auto_update_on_startup i;
  rule_providers = or_else_same s.rule_providers i;
  dns = or_else_same s.dns i;
  connection_history = or_else_same s.connection_history i;
  closed_connections = given_same s.closed_connections i;
}

-- After a PUT of the settings with a write that completes, on settings such as a save leaves them,
-- each entry of the request that is given, except `mixed_port`, is the one that is read, and every
-- other entry is read as before: those of the rules, the providers, DNS, the history and the
-- password too.
pub get_settings-put_settings :
    (client : Bool) (body : UpdateSettingsRequest) (file : SettingsFile) (rt : Runtime)
    → IsStable file
    → get_settings (put_settings (record { client = client; write = complete }) body file rt).1
      ≡ record (get_settings file) {
        api_host = or_else body.api_host (get_settings file).api_host;
        api_port = or_else body.api_port (get_settings file).api_port;
        http_port = or_else body.http_port (get_settings file).http_port;
        socks_port = or_else body.socks_port (get_settings file).socks_port;
        service_port = or_else body.service_port (get_settings file).service_port;
        tun_enabled = or_else body.tun_enabled (get_settings file).tun_enabled;
        log_level = or_else body.log_level (get_settings file).log_level;
        allow_lan = or_else body.allow_lan (get_settings file).allow_lan;
        ipv6 = or_else body.ipv6 (get_settings file).ipv6;
        tcp_concurrent = or_else body.tcp_concurrent (get_settings file).tcp_concurrent;
        mode = or_else body.mode (get_settings file).mode;
        latency_test_mode = or_else body.latency_test_mode (get_settings file).latency_test_mode;
        auto_test = or_else body.auto_test (get_settings file).auto_test;
      }
unfolding put_settings reread
get_settings-put_settings client body file rt stable =
    saved_as client (settings_of body (get_settings file)) file rt
    ∙ (ap reread (merged_request body (get_settings file)) ∙ ap (over body) stable)
  where
    over : UpdateSettingsRequest → SettingsData → SettingsData
    over b s = record (get_settings file) {
      dns = s.dns;
      api_host = or_else b.api_host (get_settings file).api_host;
      api_port = or_else b.api_port (get_settings file).api_port;
      http_port = or_else b.http_port (get_settings file).http_port;
      socks_port = or_else b.socks_port (get_settings file).socks_port;
      service_port = or_else b.service_port (get_settings file).service_port;
      tun_enabled = or_else b.tun_enabled (get_settings file).tun_enabled;
      log_level = or_else b.log_level (get_settings file).log_level;
      allow_lan = or_else b.allow_lan (get_settings file).allow_lan;
      ipv6 = or_else b.ipv6 (get_settings file).ipv6;
      tcp_concurrent = or_else b.tcp_concurrent (get_settings file).tcp_concurrent;
      mode = or_else b.mode (get_settings file).mode;
      latency_test_mode = or_else b.latency_test_mode (get_settings file).latency_test_mode;
      auto_test = or_else b.auto_test (get_settings file).auto_test;
    }
