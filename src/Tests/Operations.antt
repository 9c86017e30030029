-- ===== src/Tests/Operations.antt =====
-- The changes of the configuration on a concrete daemon.
use control_tower.Prelude.{Bool, true, false, none, some, [], ◌∷◌, ◌≡◌, refl, if◌then◌else◌}
use control_tower.ActiveConfig.{complete}
use control_tower.Settings.{reread_dns, DnsSettings}
use control_tower.ConfigOps.Dns.{apply_dns_settings, dns_saved, dns_applied, put_dns_settings}
use control_tower.ConfigOps.Section.{DnsSet, put_dns_settings-agrees}
use control_tower.Settings.Store.{
  first_settings, printed, get_settings, save_settings, load_settings_ports, write_settings,
}
use control_tower.Settings.Store as Store
use control_tower.Yaml.Instance.{plain, Node, Fields, str, map_of, field, end}
use control_tower.ConfigOps.{Daemon, Answers, update_config, update_content, write}
use control_tower.Tests.Profiles as Profiles

abbrev flag : Bool → Node
flag b = str (if b then "true" else "false")

abbrev config : Fields
config = field "mode" (str "rule") end

abbrev answers : Answers plain flag Profiles.address
answers = record {
  file = record { readable = true; written = complete };
  host = record { client = true; write = Store.complete };
  startup = Profiles.answers.startup;
  killed = false;
  patched = true;
}

abbrev daemon : Daemon plain flag Profiles.address
daemon = record {
  settings = printed first_settings;
  runtime = record {
    api_host = "127.0.0.1";
    api_port = 9090;
    auto_test = record {
      enabled = false;
      interval_secs = 300;
      running = false;
      last_test_at = none;
      fastest = none;
      results = [];
    };
    patches = [];
  };
  config = record { active = some (some (map_of config)); temp = none };
  service = Profiles.service;
}

abbrev dns : DnsSettings
dns = record {
  enable = true;
  enhanced_mode = "";
  fake_ip_range = "198.18.0.1/16";
  nameserver = "1.1.1.1" ∷ [];
  fallback = [];
  fallback_filter = none;
  hosts = [];
  nameserver_policy = [];
}

dns_stored :
    (put_dns_settings plain flag Profiles.address answers.file answers.host dns daemon).0 ≡ none
unfolding put_dns_settings apply_dns_settings dns_applied dns_saved update_config update_content
    write save_settings write_settings
dns_stored = refl

put_dns_settings-agrees_example :
    (get_settings
        (put_dns_settings plain flag Profiles.address answers.file answers.host dns
          daemon).1.settings
      ≡ record (get_settings daemon.settings) { dns = some (reread_dns dns) })
    × DnsSet plain flag Profiles.address
        (map_of config)
        dns
        (put_dns_settings plain flag Profiles.address answers.file answers.host dns daemon).1.config
put_dns_settings-agrees_example =
    put_dns_settings-agrees plain flag Profiles.address answers.file answers.host dns daemon
      (some (map_of config)) (map_of config) config refl refl refl dns_stored
