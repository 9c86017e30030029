-- ===== src/Tests/Profiles.antt =====
-- The handlers of the profiles on concrete inputs.
use control_tower.Prelude.{
  ℕ, ◌≡◌, refl, String, true, false, none, some, List, [], ◌∷◌, Option, if◌then◌else◌,
}
use control_tower.Files.{FilePath, join, path_eq}
use control_tower.Manager
use control_tower.Manager.{Host, running, exited}
use control_tower.Text.{trim, is_whitespace, starts_with}
use control_tower.Profiles.{ProfileItem, ProfilesYaml, RuleProviderConfig, manifest}
use control_tower.Yaml.Instance.{plain, Node, str, seq, cons, nil, map_of, Fields, field, end}
use control_tower.ActiveConfig.{Io, complete, write_atomically}
use control_tower.Settings.Store.{first_settings, printed, get_settings, Parsed, content}
use control_tower.Settings.{reread}
use control_tower.Settings.Store as Store
use control_tower.ActiveConfig.Replace.{replace_from_profile}
use control_tower.Service.{ServiceState, Startup, restart_with_config}
use control_tower.Service
use control_tower.Catalog.{
  Catalog, written, done, find, resolve_profile_file, by_uid, store_manifest, write_file,
}
use control_tower.Catalog as Catalog
use control_tower.Catalog.Activate.{
  System, Answers, activate_profile, activate_in, activate_found, profile_text, validated,
  has_proxies, marked, replace_active, replace_config, replaced, restarted, answered,
  update_profile_rules_count, inject_providers,
}
use control_tower.Catalog.Current.{closed_in}
use control_tower.Catalog.Item.{
  Body, absent, text, unchanged, edited, normalised, cron_of, change_first,
}
use control_tower.Catalog.Add.{body, is_blank, is_page}
use control_tower.Catalog.Update.{
  Replies, update_profile, update_manifest, update_found, update_edited, fetch, fetch_from, receive,
  stamped, downloaded, with_jobs,
}
use control_tower.Catalog.Requests.{activate, delete, start, step, handle, Reach-closed}
use control_tower.Catalog.Lost.{update_profile-stamp}
use control_tower.Catalog.Stamp.{IsStamped}
use control_tower.Catalog.InStep.{InStep, activate_profile-InStep}

abbrev dir : FilePath
dir = "profiles" ∷ []

abbrev config : FilePath
config = "config.yaml" ∷ []

abbrev pub profile : Fields
profile = field "proxies" (seq nil) (field "rules" (seq (cons (str "MATCH,DIRECT") nil)) end)

abbrev pub content_of : List ℕ → Option Node
content_of t = some (map_of profile)

abbrev text_of : Option Node → List ℕ
text_of c = []

abbrev to_value : RuleProviderConfig → Node
to_value p = str p.name

abbrev pub address : String → ℕ → String
address h p = h

abbrev pub item : ProfileItem
item = record {
  uid = "u1";
  name = some "one";
  file = some "u1.yaml";
  url = some "https://a.b/c";
  cron = none;
  updated_at = none;
  options = none;
  kind = some "remote";
  script = none;
  merge = [];
}

abbrev pub yaml : ProfilesYaml
yaml = record { current = none; items = item ∷ [] }

abbrev catalog : Catalog
catalog = record {
  manifest = manifest yaml;
  files = λ p. if path_eq p ("profiles" ∷ "u1.yaml" ∷ []) then some (1 ∷ []) else none;
}

-- Mihomo runs, and cannot be killed.
abbrev pub service : ServiceState
service = record {
  manager = record {
    mihomo_path = none;
    config_path = none;
    child = some 42;
    circuit_breaker = record {
      failure_count = 0;
      is_broken = false;
      broken_at = none;
      cooldown = 0;
    };
  };
  start_time = some 100;
  last_config_path = none;
  log_buffer = [];
  shutdown = false;
}

abbrev host : Host
host = record {
  exe_dir = none;
  exists = λ p. true;
  is_file = λ p. true;
  install = none;
  log_file = true;
  spawn = none;
  asked_at = 0;
  failed_at = 0;
  before = running;
  after = running;
}

abbrev pub io : Io plain
io = record { readable = true; written = complete; renamed = true }

abbrev pub answers : Answers plain content_of text_of to_value address
answers = record {
  script = none;
  generated = written;
  stored = Catalog.complete;
  replace = io;
  counted = true;
  empty = none;
  provide = io;
  startup = record {
    host = host;
    now_secs = 100;
    selected_proxy = none;
    mode = none;
    allow_lan = none;
  };
  killed = false;
}

abbrev system : System plain content_of text_of to_value address
system = record {
  catalog = catalog;
  settings = printed first_settings;
  config = record { active = some (some (map_of (field "mode" (str "rule") end))); temp = none };
  service = service;
}

Reach-closed_example :
    closed_in
      (handle plain content_of text_of to_value address dir config
        (delete Catalog.complete true "u1")
        (handle plain content_of text_of to_value address dir config
          (activate answers "u1")
          system)).catalog.manifest
    ≡ true
Reach-closed_example =
    Reach-closed plain content_of text_of to_value address dir config system
      (handle plain content_of text_of to_value address dir config
        (delete Catalog.complete true "u1")
        (handle plain content_of text_of to_value address dir config (activate answers "u1")
          system))
      refl
      (step (step start (activate answers "u1") refl refl) (delete Catalog.complete true "u1") refl
        refl)

abbrev replies : Replies plain content_of text_of to_value address
replies = record {
  download = body (112 ∷ []);
  write = written;
  now = 1700000000;
  reloaded = true;
  active = answers;
}

abbrev change : Body
change = record {
  is_object = true;
  name = text "two";
  url = text "https://a.b/d";
  cron = absent;
  options = unchanged;
}

found : find "u1" yaml.items ≡ some item
unfolding find
found = refl

update_done :
    (update_profile plain content_of text_of to_value address replies
      (λ i. i)
      dir
      config
      "u1"
      change
      system
      []).0
    ≡ done
unfolding update_profile update_manifest update_found update_edited fetch fetch_from receive stamped
    downloaded with_jobs trim is_whitespace starts_with edited normalised cron_of is_blank is_page
    find resolve_profile_file by_uid store_manifest write_file change_first
update_done = refl

update_profile-stamp_example :
    IsStamped "u1" 1700000000 "https://a.b/d" yaml item
      (update_profile plain content_of text_of to_value address replies
        (λ i. i)
        dir
        config
        "u1"
        change
        system
        []).1.catalog.manifest
update_profile-stamp_example =
    update_profile-stamp plain content_of text_of to_value address replies (λ i. i) dir config "u1"
      change system [] yaml item "https://a.b/d" refl refl found refl update_done

its_file : catalog.files (resolve_profile_file catalog.files dir "u1" item.file) ≡ some (1 ∷ [])
unfolding resolve_profile_file by_uid join
its_file = refl

no_providers : (get_settings (printed first_settings)).rule_providers ≡ none
unfolding get_settings reread
no_providers = refl

activated :
    (activate_profile plain content_of text_of to_value address answers dir config "u1" system).0
    ≡ done
unfolding activate_profile activate_in activate_found profile_text validated has_proxies marked
    store_manifest replace_active replaced replace_config restarted answered
    update_profile_rules_count inject_providers resolve_profile_file by_uid find
    replace_from_profile restart_with_config Service.start Service.stop Manager.stop
    Manager.is_running join write_atomically
activated = refl

abbrev parsed : Parsed
parsed = record {
  settings = some (reread first_settings);
  starting = some (Store.starting_of first_settings);
  ports = some (Store.ports_of first_settings);
}

activate_profile-InStep_example :
    ((activate_profile plain content_of text_of to_value address answers dir config "u1"
        system).1.catalog.manifest
      ≡ manifest (record yaml { current = some "u1" }))
    × InStep plain content_of text_of to_value address
        (get_settings (printed first_settings))
        (map_of profile)
        (activate_profile plain content_of text_of to_value address answers dir config "u1"
          system).1
activate_profile-InStep_example =
    activate_profile-InStep plain content_of text_of to_value address answers dir config "u1" system
      yaml item parsed (1 ∷ []) (some (map_of (field "mode" (str "rule") end))) (map_of profile)
      profile refl found refl refl its_file refl refl refl refl refl no_providers refl refl refl
      activated
