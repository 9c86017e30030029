-- ===== src/Providers.antt =====
-- The rule providers: the handlers of api/rule_provider_handlers.rs that add, update and delete one,
-- over settings.yaml and config.yaml. Each works with a `ServiceState` of its own, of which only the
-- file outlives the request.

pub mod Settled
pub mod Active
pub mod RoundTrip
use Prim.Native.String
use control_tower.Prelude.{
  ℕ, String, Bool, true, false, not, ◌&&◌, ◌||◌, Option, none, some, List, [], ◌∷◌, ◌++◌,
  if◌then◌else◌, str_eq, unwrap_or, map_or, is_some, retain, any, length, ◌==◌,
}
use control_tower.Profiles.{RuleProviderConfig}
use control_tower.Yaml.{Yaml}
use control_tower.ActiveConfig.{Result, ok, err, Disk, Io}
use control_tower.ActiveConfig.Edit.{
  perform, set_rule_providers, prepend_rule, remove_rule_provider, remove_rule_by_content,
}
use control_tower.Settings.{SettingsData}
use control_tower.Settings.Store.{SettingsFile, Runtime, Host, Saved, get_settings, save_settings}

-- The field `kind` is the key `type`.
pub record RuleProviderRequest : Type 0 where
  pub name : String
  pub kind : String
  pub behavior : String
  pub url : Option String
  pub path : Option String
  pub interval : Option ℕ
  pub enabled : Option Bool
  pub lazy : Option Bool
  pub filter : Option String

-- `reloaded` is the answer 200, after Mihomo was asked to reload its configuration, whatever came
-- of it.
pub data Response : Type 0 where
  bad_request not_found internal_error reloaded : Response

-- The four checks of a request.
unfoldable pub is_valid : RuleProviderRequest → Bool
is_valid r =
    not (str_eq r.name "")
    && (str_eq r.kind "http" || str_eq r.kind "file")
    && (str_eq r.behavior "domain" || str_eq r.behavior "ipcidr" || str_eq r.behavior "classical")
    && not (str_eq r.kind "http" && not (is_some r.url))

unfoldable pub provider_of : RuleProviderRequest → RuleProviderConfig
provider_of r = record {
  name = r.name;
  kind = r.kind;
  behavior = r.behavior;
  url = r.url;
  path = r.path;
  interval = unwrap_or r.interval 86400;
  enabled = unwrap_or r.enabled true;
  lazy = unwrap_or r.lazy true;
  filter = r.filter;
}

-- `format!("RULE-SET,{},REJECT", name)`
unfoldable pub rule_set_rule : String → String
rule_set_rule name = String.◌++◌ "RULE-SET," (String.◌++◌ name ",REJECT")

abbrev pub other_name : String → RuleProviderConfig → Bool
other_name name p = not (str_eq p.name name)

abbrev pub other_rule : String → String → Bool
other_rule rule r = not (str_eq r rule)

abbrev pub providers_in : SettingsData → List RuleProviderConfig
providers_in s = unwrap_or s.rule_providers []

abbrev pub rules_in : SettingsData → List String
rules_in s = unwrap_or s.custom_rules []

-- `Vec::contains`
abbrev pub contains : String → List String → Bool
contains rule rules = any (λ r. str_eq r rule) rules

abbrev pub with_provider : RuleProviderConfig → List RuleProviderConfig → List RuleProviderConfig
with_provider p ps = retain (other_name p.name) ps ++ p ∷ []

-- The settings that `add_rule_provider` saves; `custom_rules` was taken out, and is put back only if
-- it has changed.
unfoldable pub added : RuleProviderConfig → SettingsData → SettingsData
unfolding rule_set_rule
added p s =
    let rule : String = rule_set_rule p.name in
    record s {
      rule_providers = some (with_provider p (providers_in s));
      custom_rules = (if contains rule (rules_in s) then none else some (rule ∷ rules_in s));
    }

-- `provider.interval = interval` for the first provider of the name.
unfoldable pub set_interval : String → Option ℕ → List RuleProviderConfig → List RuleProviderConfig
set_interval name interval [] = []
set_interval name interval (p ∷ ps) =
    let rest = set_interval name interval ps in
    if str_eq p.name name
    then record p { interval = unwrap_or interval p.interval } ∷ ps
    else p ∷ rest

unfoldable pub removed : String → SettingsData → SettingsData
unfolding rule_set_rule
removed name s = record s {
  rule_providers = some (retain (other_name name) (providers_in s));
  custom_rules =
      map_or s.custom_rules none (λ rules. some (retain (other_rule (rule_set_rule name)) rules));
}

module _ (y : Yaml) (to_value : RuleProviderConfig → y.Value) where
  -- What the file systems answer to the save of the settings and to the two changes of config.yaml.
  pub record Answers : Type 0 where
    pub saving : Host
    pub first : Io y
    pub second : Io y

  pub record Stores : Type 0 where
    pub settings : SettingsFile
    pub config : Disk y

  -- A step that may fail, and what follows it.
  abbrev pub then_active :
      Result (Unit {0}) × Disk y → SettingsFile → (Disk y → Response × Stores) → Response × Stores
  then_active (ok u, d) file k = k d
  then_active (err e, d) file k = (internal_error, record { settings = file; config = d })

  abbrev pub then_saved : Saved → Disk y → (SettingsFile → Response × Stores) → Response × Stores
  then_saved (true, file, rt) d k = k file
  then_saved (false, file, rt) d k = (internal_error, record { settings = file; config = d })

  abbrev pub finished : SettingsFile → Disk y → Response × Stores
  finished file d = (reloaded, record { settings = file; config = d })

  unfoldable pub add_to_active :
      Answers
      → RuleProviderConfig
      → List RuleProviderConfig
      → Disk y
      → SettingsFile
      → Response × Stores
  unfolding rule_set_rule
  add_to_active a p ps d file =
      then_active (perform y to_value (set_rule_providers ps) a.first d) file (λ d.
        then_active (perform y to_value (prepend_rule (rule_set_rule p.name)) a.second d) file
          (finished file))

  unfoldable pub add_rule_provider :
      Answers → Runtime → RuleProviderRequest → Stores → Response × Stores
  unfolding is_valid provider_of added add_to_active
  add_rule_provider a rt req s =
      let old : SettingsData = get_settings s.settings in
      let p : RuleProviderConfig = provider_of req in
      if is_valid req
      then then_saved (save_settings a.saving (added p old) s.settings rt) s.config
          (add_to_active a p (with_provider p (providers_in old)) s.config)
      else (bad_request, s)

  update_to :
      Answers → Runtime → SettingsData → List RuleProviderConfig → Stores → Response × Stores
  update_to a rt old ps s =
      then_saved (save_settings a.saving (record old { rule_providers = some ps }) s.settings rt)
        s.config
        (λ file.
          then_active (perform y to_value (set_rule_providers ps) a.first s.config) file
            (finished file))

  unfoldable pub update_rule_provider :
      Answers → Runtime → String → Option ℕ → Stores → Response × Stores
  unfolding set_interval update_to
  update_rule_provider a rt name interval s =
      let old : SettingsData = get_settings s.settings in
      if any (λ p. str_eq p.name name) (providers_in old)
      then update_to a rt old (set_interval name interval (providers_in old)) s
      else (not_found, s)

  -- An error of the second change is only logged.
  unfoldable pub delete_from_active : Answers → String → Disk y → SettingsFile → Response × Stores
  unfolding rule_set_rule
  delete_from_active a name d file =
      then_active (perform y to_value (remove_rule_provider name) a.first d) file (λ d.
        finished file
          (perform y to_value (remove_rule_by_content (rule_set_rule name)) a.second d).1)

  unfoldable pub delete_rule_provider : Answers → Runtime → String → Stores → Response × Stores
  unfolding removed delete_from_active
  delete_rule_provider a rt name s =
      let old : SettingsData = get_settings s.settings in
      let kept = retain (other_name name) (providers_in old) in
      if length kept == length (providers_in old)
      then (not_found, s)
      else then_saved (save_settings a.saving (removed name old) s.settings rt) s.config
          (delete_from_active a name s.config)
