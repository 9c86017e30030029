-- ===== src/Cli.antt =====
-- The profiles of the command line client: crates/control-tower-cli/src/config.rs and profile.rs.
-- The client reads and writes the manifest profiles.yaml of the daemon with structs of its own; the
-- file is what the parsers of the daemon and of the client make of it. The structs, `load_profiles` and
-- `save_profiles` stand here, what changes the profiles in Edit and Switch.
pub mod Edit
pub mod Switch
pub mod Shared
pub mod Cron
pub mod Activate
pub mod Proxies
pub mod Settings
pub mod Remote
pub mod Truncate
pub mod Rules
use control_tower.Prelude.{
  ℕ, String, Bool, true, false, not, ◌&&◌, ◌||◌, Option, none, some, List, [], ◌∷◌, ◌++◌, ◌==◌, ltb,
  if◌then◌else◌, str_eq, map_or, and_then, unwrap_or, retain, map, ◌+◌, is_some, or_else,
}
use control_tower.Profiles.{ProfileItem, ProfilesYaml}
use control_tower.Text.{codes, parse_u32}
use control_tower.Yaml.{Yaml}
use control_tower.ActiveConfig.{Result, ok, err, Disk, Io}
use control_tower.ActiveConfig.Replace.{replace_from_profile}

pub record Profile : Type 0 where
  pub id : String
  pub name : String
  pub url : Option String
  pub file : Option String
  pub active : Bool
  pub updated_at : Option ℕ
  pub cron : Option String

-- The structs of `load_profiles` and `save_profiles`.
pub record Entry : Type 0 where
  pub uid : String
  pub name : String
  pub file : Option String
  pub url : Option String
  pub cron : Option String
  pub updated_at : Option ℕ

pub record Entries : Type 0 where
  pub current : Option String
  pub items : List Entry

-- What the parsers of the daemon and of the client make of the text, with none for an error.
pub record Parsed : Type 0 where
  pub daemon : Option ProfilesYaml
  pub client : Option Entries

pub data ProfilesFile : Type 0 where
  missing unreadable : ProfilesFile
  content : Parsed → ProfilesFile

-- The daemon's item as the client reads it: one without a name is an error.
unfoldable pub entry_of : ProfileItem → Option Entry
entry_of item = map_or item.name none (λ name. some (record {
  uid = item.uid;
  name = name;
  file = item.file;
  url = item.url;
  cron = item.cron;
  updated_at = item.updated_at;
}))

unfoldable pub entries_of : List ProfileItem → Option (List Entry)
unfolding entry_of
entries_of [] = some []
entries_of (item ∷ items) =
    and_then (entry_of item) (λ e. and_then (entries_of items) (λ es. some (e ∷ es)))

-- The client's entry as the daemon reads it: a type that is not there is `remote`.
abbrev pub item_of : Entry → ProfileItem
item_of e = record {
  uid = e.uid;
  name = some e.name;
  file = e.file;
  url = e.url;
  cron = e.cron;
  updated_at = e.updated_at;
  options = none;
  kind = some "remote";
  script = none;
  merge = [];
}

unfoldable pub written_by_daemon : ProfilesYaml → ProfilesFile
unfolding entries_of
written_by_daemon yaml = content (record {
  daemon = some yaml;
  client =
      and_then (entries_of yaml.items) (λ es. some (record { current = yaml.current; items = es }));
})

unfoldable pub written_by_client : Entries → ProfilesFile
written_by_client es = content (record {
  daemon = some (record { current = es.current; items = map item_of es.items });
  client = some es;
})

-- `yaml.current.as_ref().map(|c| c == &item.uid).unwrap_or(false)`
abbrev pub is_active : Option String → String → Bool
is_active current uid = map_or current false (λ c. str_eq c uid)

abbrev pub profile_of : Option String → Entry → Profile
profile_of current e = record {
  id = e.uid;
  name = e.name;
  url = e.url;
  file = e.file;
  active = is_active current e.uid;
  updated_at = e.updated_at;
  cron = e.cron;
}

unfoldable pub load_profiles : ProfilesFile → Option (List Profile)
load_profiles missing = some []
load_profiles unreadable = none
load_profiles (content p) = map_or p.client none (λ es. some (map (profile_of es.current) es.items))

abbrev pub entry : Profile → Entry
entry p = record {
  uid = p.id;
  name = p.name;
  file = p.file;
  url = p.url;
  cron = p.cron;
  updated_at = p.updated_at;
}

-- The first active profile.
unfoldable pub current_of : List Profile → Option String
current_of [] = none
current_of (p ∷ ps) = let rest = current_of ps in if p.active then some p.id else rest

-- How a save ends: the directory cannot be made, or the write fails and leaves something.
pub data Save : Type 0 where
  complete no_dir : Save
  failed : ProfilesFile → Save

unfoldable pub save_profiles : Save → List Profile → ProfilesFile → Bool × ProfilesFile
unfolding current_of written_by_client
save_profiles complete ps f =
    (true, written_by_client (record { current = current_of ps; items = map entry ps }))
save_profiles no_dir ps f = (false, f)
save_profiles (failed left) ps f = (false, left)

unfoldable pub find : String → List Profile → Option Profile
find id [] = none
find id (p ∷ ps) = let rest = find id ps in if str_eq p.id id then some p else rest

-- The first profile of the id is changed.
unfoldable pub change : String → (Profile → Profile) → List Profile → List Profile
change id f [] = []
change id f (p ∷ ps) = let rest = change id f ps in if str_eq p.id id then f p ∷ ps else p ∷ rest

-- What the client asks the daemon for.
pub data Call : Type 0 where
  reload_cron stop_service start_service restart_service : Call

pub data Failure : Type 0 where
  not_loaded not_found no_active no_url no_file invalid_minutes not_downloaded not_written : Failure
  not_activated not_saved not_removed not_served : Failure
