-- ===== src/Tests/Commands.antt =====
-- The commands of the client on concrete inputs.
use control_tower.Prelude.{
  ℕ, String, true, false, none, some, List, [], ◌∷◌, ◌++◌, ◌≡◌, refl, map_or,
}
use mathlib.Core.List.{Memᴰ}
use control_tower.Profiles.{RuleProviderConfig}
use control_tower.Yaml.Instance.{plain, Node, str, map_of}
use control_tower.ActiveConfig.{ok, Disk, write_atomically, change_rules}
use control_tower.ActiveConfig.Edit.{edited}
use control_tower.Text.{codes, starts_with, is_whitespace}
use control_tower.Settings.{default_settings}
use control_tower.Service.Ipc as Ipc
use control_tower.Socket.{Codec, Client}
use control_tower.Cli.Proxies.{resolve_proxy_name}
use control_tower.Cli.Proxies.Named.{Picks, resolve_proxy_name-Picks}
use control_tower.Cli.Settings as Settings
use control_tower.Cli.Settings.{default_client, client_of, written_by_daemon, load_settings}
use control_tower.Cli.Remote.{Remote, Session, not_sent, is_mode, set_current_mode}
use control_tower.Cli.Remote.Start as Start
use control_tower.Cli.Remote.Start.{
  Attempt, spawned, start_service, IsStarted, start_service-IsStarted,
}
use control_tower.Cli.Remote.Lost.{IsLost, set_current_mode-IsLost}
use control_tower.Cli.Rules.{stored, refusal, trimmed, add_rule, parse_rules_from_config}
use control_tower.Cli.Rules.Listed.{parse_rules_from_config-add_rule}
use control_tower.Tests.Profiles as Profiles
use control_tower.Tests.Client.{responses, wire, answer_reads}

-- A lower case that leaves every text as it is.
abbrev same_case : String → String
same_case s = s

abbrev names : List String
names = "tokyo 1" ∷ "tokyo 11" ∷ "osaka" ∷ []

no_sign : starts_with (codes "tokyo 1") (b'#' ∷ []) ≡ false
unfolding starts_with
no_sign = refl

resolve_proxy_name-Picks_example :
    Picks same_case names "tokyo 1" (resolve_proxy_name same_case names "tokyo 1")
resolve_proxy_name-Picks_example =
    resolve_proxy_name-Picks same_case names "tokyo 1" (Memᴰ.head refl) no_sign refl

-- One byte stands for every command.
abbrev commands : Codec Ipc.IpcCommand
commands = record { to_vec = λ c. some (b'c' ∷ []); from_slice = λ t. none }

abbrev client : Client commands responses wire
client = record { connected = true; writable = true; rounds = 1; reads = answer_reads }

abbrev attempt : Attempt commands responses wire
attempt = record { there = true; client = client }

abbrev nobody : Attempt commands responses wire
nobody = record { there = false; client = client }

-- Nobody is there at first.
abbrev start : Start.Start commands responses wire
start = record {
  first = nobody;
  path = some ("config.yaml" ∷ []);
  exists = true;
  exists_later = true;
  removable = true;
  still_there = true;
  spawn = spawned;
  attempts = λ i. attempt;
}

started : start_service commands responses wire start ≡ Start.ok
unfolding start_service
started = refl

start_service-IsStarted_example : IsStarted commands responses wire start
start_service-IsStarted_example = start_service-IsStarted commands responses wire start started

abbrev to_value : RuleProviderConfig → Node
to_value p = str p.name

abbrev remote : Remote plain to_value commands responses wire
remote = record { exists = true; client = client; direct = not_sent }

abbrev rules_file : Disk plain
rules_file = record { active = some (some (map_of Profiles.profile)); temp = none }

abbrev session : Session plain to_value commands responses wire
session = record {
  settings = client_of default_settings;
  file = written_by_daemon default_settings;
  config = rules_file;
}

loaded : client_of default_settings ≡ load_settings (written_by_daemon default_settings)
unfolding load_settings
loaded = refl

mode_set :
    (set_current_mode plain to_value commands responses wire remote Settings.complete
      (some Profiles.io)
      "rule"
      session).0
    ≡ true
unfolding set_current_mode
mode_set = refl

set_current_mode-IsLost_example :
    (is_mode "rule" ≡ true)
    × IsLost plain to_value commands responses wire same_case "rule" default_settings
        (set_current_mode plain to_value commands responses wire remote Settings.complete
          (some Profiles.io)
          "rule"
          session).1.file
set_current_mode-IsLost_example =
    set_current_mode-IsLost plain to_value commands responses wire same_case remote
      (some Profiles.io) "rule" session default_settings refl loaded mode_set

abbrev upper : List ℕ → List ℕ
upper s = s

rule_added :
    (add_rule plain to_value upper Profiles.io " GEOIP,CN,DIRECT " rules_file).0 ≡ stored (ok tt)
unfolding add_rule is_whitespace edited change_rules write_atomically
rule_added = refl

parse_rules_from_config-add_rule_example :
    (refusal upper (codes (trimmed " GEOIP,CN,DIRECT ")) ≡ none)
    × (parse_rules_from_config plain to_value upper true
          (add_rule plain to_value upper Profiles.io " GEOIP,CN,DIRECT " rules_file).1
        ≡ map_or
            (parse_rules_from_config plain to_value upper true rules_file)
            none
            (λ old. some (old ++ trimmed " GEOIP,CN,DIRECT " ∷ [])))
parse_rules_from_config-add_rule_example =
    parse_rules_from_config-add_rule plain to_value upper Profiles.io " GEOIP,CN,DIRECT " rules_file
      (some (map_of Profiles.profile)) (map_of Profiles.profile) Profiles.profile refl refl refl
      refl rule_added
