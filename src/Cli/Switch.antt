-- ===== src/Cli/Switch.antt =====
-- `activate_profile` and `remove_profile` of crates/control-tower-cli/src/profile.rs, with the
-- configuration config.yaml and the service that they change.
use control_tower.Prelude.{
  ℕ, String, Bool, true, false, not, ◌&&◌, Option, none, some, List, [], ◌∷◌, if◌then◌else◌, str_eq,
  map_or, retain, map, is_some,
}
use control_tower.Yaml.{Yaml}
use control_tower.ActiveConfig.{Result, ok, err, Disk, Io}
use control_tower.ActiveConfig.Replace.{replace_from_profile}
use control_tower.Cli.{
  Profile, ProfilesFile, load_profiles, Save, save_profiles, find, change, Call, stop_service,
  start_service, restart_service, Failure, not_loaded, not_found, no_file, not_activated, not_saved,
  not_removed, not_served,
}
use control_tower.Cli.Edit.{Texts, put}

-- All profiles are made inactive, and then the first of the id active.
abbrev pub deactivated : List Profile → List Profile
deactivated = map {A = Profile} (λ p. record p { active = false })

unfoldable pub activated : String → List Profile → List Profile
unfolding change
activated id ps = change id (λ p. record p { active = true }) (deactivated ps)

module _ (y : Yaml) (content_of : List ℕ → y.Content) where
  pub record Home : Type 0 where
    pub profiles : ProfilesFile
    pub texts : Texts
    pub config : Disk y

  -- `running` is whether Mihomo's API answers, `served` whether the daemon does what is asked.
  pub record Activation : Type 0 where
    pub io : Io y
    pub saved : Save
    pub running : Bool
    pub served : Bool

  abbrev pub Outcome : Type 0
  Outcome = Option Failure × Home × List Call

  unfoldable pub served_after : Activation → Home → Bool × ProfilesFile → Outcome
  served_after a h (false, f) = (some not_saved, record h { profiles = f }, [])
  served_after a h (true, f) = (
    if a.served then none else some not_served,
    record h { profiles = f },
    (if a.running then restart_service else start_service) ∷ [],
  )

  unfoldable pub replaced : Activation → String → List Profile → Home → Result ℕ × Disk y → Outcome
  unfolding served_after save_profiles
  replaced a id ps h (err e, d) = (some not_activated, record h { config = d }, [])
  replaced a id ps h (ok n, d) =
      served_after a (record h { config = d }) (save_profiles a.saved (activated id ps) h.profiles)

  -- config.yaml is made from the profile's file, without custom rules and ports.
  unfoldable pub activate_found : Activation → String → List Profile → Home → Profile → Outcome
  unfolding replaced
  activate_found a id ps h p =
      map_or p.file (some no_file, h, [])
        (λ file.
          map_or (h.texts file) (some no_file, h, [])
            (λ text. replaced a id ps h (
              replace_from_profile y (some (content_of text)) []
                (record {
                  mixed_port = none;
                  socks_port = none;
                  http_port = none;
                  external_controller = none;
                })
                a.io h.config)))

  unfoldable pub activate_profile : Activation → String → Home → Outcome
  unfolding activate_found load_profiles find
  activate_profile a id h =
      map_or (load_profiles h.profiles) (some not_loaded, h, [])
        (λ ps. map_or (find id ps) (some not_found, h, []) (activate_found a id ps h))

  pub record Removal : Type 0 where
    pub file_removed : Bool
    pub saved : Save
    pub config_removed : Bool
    pub served : Bool

  abbrev pub other : String → Profile → Bool
  other id p = not (str_eq p.id id)

  -- config.yaml is removed and Mihomo stopped, whatever profile was removed.
  unfoldable pub stopped_after : Removal → Home → Bool × ProfilesFile → Outcome
  stopped_after r h (false, f) = (some not_saved, record h { profiles = f }, [])
  stopped_after r h (true, f) =
      if is_some h.config.active && not r.config_removed
      then (some not_removed, record h { profiles = f }, [])
      else (
        if r.served then none else some not_served,
        record h { profiles = f; config = record (h.config) { active = none } },
        stop_service ∷ [],
      )

  unfoldable pub remove_found : Removal → String → List Profile → Home → Profile → Outcome
  unfolding stopped_after save_profiles
  remove_found r id ps h p =
      let there : Bool = map_or p.file false (λ file. map_or (h.texts file) false (λ t. true)) in
      if there && not r.file_removed
      then (some not_removed, h, [])
      else stopped_after r
          (record h { texts = map_or p.file h.texts (λ file. put file none h.texts) })
          (save_profiles r.saved (retain (other id) ps) h.profiles)

  unfoldable pub remove_profile : Removal → String → Home → Outcome
  unfolding remove_found load_profiles find
  remove_profile r id h =
      map_or (load_profiles h.profiles) (some not_loaded, h, [])
        (λ ps. map_or (find id ps) (some not_found, h, []) (remove_found r id ps h))
