-- ===== src/Catalog/Activate.antt =====
-- PUT /api/profiles/{id}/activate: `activate_profile` of api/profile_handlers.rs with
-- `update_profile_rules_count` of api/helpers.rs. A script is what its run prints, with none if it
-- fails; its temporary file is not modelled.
use control_tower.Prelude.{
  ℕ, String, Bool, true, false, ◌||◌, Option, none, some, List, [], if◌then◌else◌, str_eq, map_or,
  unwrap_or, and_then, or_else, is_some, is_empty,
}
use control_tower.Files.{FilePath, Files}
use control_tower.Profiles.{
  Manifest, ProfileItem, ProfilesYaml, RuleProviderConfig, missing, unreadable, invalid, manifest,
}
use control_tower.Yaml.{Yaml}
use control_tower.ActiveConfig.{Disk, Io, PortOverrides, get_key, Result, ok, err}
use control_tower.ActiveConfig.Edit.{perform, set_rule_providers}
use control_tower.ActiveConfig.Replace.{replace_from_profile}
use control_tower.Settings.{SettingsData, default_settings}
use control_tower.Settings.Store.{
  SettingsFile, unreadable as unreadable_settings, missing as no_settings_file, content, printed,
  get_settings,
}
use control_tower.Service.{ServiceState, Startup, restart_with_config}
use control_tower.Manager
use control_tower.Catalog.{
  Answer, done, bad_request, not_found, internal_error, Catalog, Stored, Written, write_file,
  store_manifest, resolve_profile_file, find,
}
use control_tower.Catalog.Mix.{merge_profiles}

-- `update_profile_rules_count`, which writes a temporary file and renames it; it fails if the file
-- cannot be read, printed, written or renamed. `empty` is what the parser makes of an empty text.
unfoldable pub update_profile_rules_count :
    Bool → Option SettingsData → ℕ → SettingsFile → SettingsFile
unfolding get_settings
update_profile_rules_count writable empty count unreadable_settings = unreadable_settings
update_profile_rules_count false empty count file = file
update_profile_rules_count true empty count no_settings_file =
    printed (record (unwrap_or empty default_settings) { profile_rules_count = some count })
update_profile_rules_count true empty count (content p) =
    printed (record (get_settings (content p)) { profile_rules_count = some count })

-- `address` is `format!("{}:{}", host, port)`.
unfoldable pub port_overrides : (String → ℕ → String) → SettingsData → PortOverrides
port_overrides address s = record {
  mixed_port = or_else s.mixed_port s.http_port;
  socks_port = s.socks_port;
  http_port = s.http_port;
  external_controller = and_then s.api_host (λ h. and_then s.api_port (λ p. some (address h p)));
}

module _ (y : Yaml) (content_of : List ℕ → y.Content) (text_of : y.Content → List ℕ)
    (to_value : RuleProviderConfig → y.Value) (address : String → ℕ → String) where
  open y use {Content, Value, from_str}

  pub record System : Type 0 where
    pub catalog : Catalog
    pub settings : SettingsFile
    pub config : Disk y
    pub service : ServiceState

  -- What is answered during an activation.
  pub record Answers : Type 0 where
    -- What the script prints.
    pub script : Option (List ℕ)
    -- The write of a generated profile, and that of the manifest.
    pub generated : Written
    pub stored : Stored
    -- The change of config.yaml from the profile, the write of the number of its rules, and the
    -- change of the providers.
    pub replace : Io y
    pub counted : Bool
    pub empty : Option SettingsData
    pub provide : Io y
    pub startup : Startup
    pub killed : Bool

  -- A generated text is written to the profile's file; an error is only logged.
  abbrev pub keep_text : Written → FilePath → Files → List ℕ → Option (List ℕ) × Files
  keep_text w p fs t = (some t, (write_file w p t fs).1)

  -- The text of a profile by its kind, with none for an answer 400.
  unfoldable pub profile_text :
      Answers → FilePath → ProfilesYaml → ProfileItem → FilePath → Files → Option (List ℕ) × Files
  unfolding merge_profiles
  profile_text a dir yaml item p fs =
      let kind : String = unwrap_or item.kind "remote" in
      if str_eq kind "script"
      then map_or a.script (none, fs) (keep_text a.generated p fs)
      else if str_eq kind "merge"
      then (if is_empty item.merge
          then (none, fs)
          else map_or (merge_profiles y content_of fs dir yaml item.merge) (none, fs)
              (λ c. keep_text a.generated p fs (text_of c)))
      else (fs p, fs)

  -- The keys of which a profile must have one.
  unfoldable pub has_proxies : Value → Bool
  has_proxies v =
      is_some (get_key y "proxies" v)
      || is_some (get_key y "mixed-port" v)
      || is_some (get_key y "proxy-providers" v)
      || is_some (get_key y "proxy-groups" v)

  -- The providers of the settings go into the new configuration; an error is only logged.
  unfoldable pub inject_providers : Io y → SettingsData → Disk y → Disk y
  inject_providers io s d =
      map_or s.rule_providers d
        (λ ps. if is_empty ps then d else (perform y to_value (set_rule_providers ps) io d).1)

  unfoldable pub answered : Manager.Outcome → System → Answer × System
  answered Manager.ok s = (done, s)
  answered (Manager.err e) s = (internal_error, s)

  unfoldable pub restarted : Answers → FilePath → System → Answer × System
  unfolding answered
  restarted a config s =
      let r = restart_with_config s.service a.startup a.killed config in
      answered r.0 (record s { service = r.1 })

  unfoldable pub replaced :
      Bool → Answers → FilePath → SettingsData → System → Result ℕ × Disk y → Answer × System
  unfolding restarted update_profile_rules_count inject_providers
  replaced inject a config old s (err e, d) = (internal_error, record s { config = d })
  replaced inject a config old s (ok count, d) = restarted a config (record s {
    settings = update_profile_rules_count a.counted a.empty count s.settings;
    config = if inject then inject_providers a.provide old d else d;
  })

  -- config.yaml is replaced from a profile's file, with the custom rules and the ports of the
  -- settings.
  unfoldable pub replace_config :
      Io y → FilePath → SettingsData → Files → Disk y → Result ℕ × Disk y
  unfolding port_overrides
  replace_config io p old fs d =
      replace_from_profile y (and_then (fs p) (λ t. some (content_of t)))
        (unwrap_or old.custom_rules []) (port_overrides address old) io d

  -- The active configuration is replaced and Mihomo restarted; an activation puts the providers of
  -- the settings in as well.
  unfoldable pub replace_active : Bool → Answers → FilePath → FilePath → System → Answer × System
  unfolding replaced replace_config
  replace_active inject a config p s =
      let old : SettingsData = get_settings s.settings in
      replaced inject a config old s (replace_config a.replace p old s.catalog.files s.config)

  unfoldable pub marked : Answers → FilePath → FilePath → System → Bool × Catalog → Answer × System
  unfolding replace_active
  marked a config p s (false, c) = (internal_error, record s { catalog = c })
  marked a config p s (true, c) = replace_active true a config p (record s { catalog = c })

  -- A text that is valid makes its profile the current one.
  unfoldable pub validated :
      Answers
      → FilePath
      → String
      → ProfilesYaml
      → FilePath
      → System
      → Option (List ℕ)
      → Answer × System
  unfolding has_proxies marked store_manifest
  validated a config uid yaml p s none = (bad_request, s)
  validated a config uid yaml p s (some t) =
      if map_or (from_str (content_of t)) false has_proxies
      then marked a config p s
          (store_manifest a.stored (record yaml { current = some uid }) s.catalog)
      else (bad_request, s)

  unfoldable pub activate_found :
      Answers → FilePath → FilePath → String → ProfilesYaml → System → ProfileItem → Answer × System
  unfolding profile_text validated resolve_profile_file
  activate_found a dir config uid yaml s item =
      let p : FilePath = resolve_profile_file s.catalog.files dir uid item.file in
      let (text, fs) = profile_text a dir yaml item p s.catalog.files in
      validated a config uid yaml p (record s { catalog = record (s.catalog) { files = fs } }) text

  unfoldable pub activate_in :
      Answers → FilePath → FilePath → String → System → Manifest → Answer × System
  unfolding activate_found find
  activate_in a dir config uid s missing = (not_found, s)
  activate_in a dir config uid s unreadable = (internal_error, s)
  activate_in a dir config uid s invalid = (bad_request, s)
  activate_in a dir config uid s (manifest yaml) =
      map_or (find uid yaml.items) (not_found, s) (activate_found a dir config uid yaml s)

  unfoldable pub activate_profile :
      Answers → FilePath → FilePath → String → System → Answer × System
  unfolding activate_in
  activate_profile a dir config uid s = activate_in a dir config uid s s.catalog.manifest
