-- ===== src/Catalog/Refresh.antt =====
-- POST /api/profiles/{id}/refresh: `refresh_profile` of api/profile_handlers.rs.
use control_tower.Prelude.{
  ℕ, String, Bool, true, false, not, none, List, if◌then◌else◌, map_or, is_some,
}
use control_tower.Files.{FilePath, exists}
use control_tower.Profiles.{
  ProfileItem, ProfilesYaml, RuleProviderConfig, missing, unreadable, invalid, manifest, Manifest,
}
use control_tower.Yaml.{Yaml}
use control_tower.Settings.{SettingsData}
use control_tower.Settings.Store.{get_settings}
use control_tower.Service.{restart_with_config}
use control_tower.Catalog.{
  Answer, done, bad_request, not_found, internal_error, Catalog, resolve_profile_file, find,
  is_current,
}
use control_tower.Catalog.Activate.{System, answered, replace_config, inject_providers}
use control_tower.Catalog.Update.{Replies, fetch}

module _ (y : Yaml) (content_of : List ℕ → y.Content) (text_of : y.Content → List ℕ)
    (to_value : RuleProviderConfig → y.Value) (address : String → ℕ → String) where
  abbrev pub Sys : Type 0
  Sys = System y content_of text_of to_value address

  -- The active configuration after a refresh of the current profile; errors are only logged.
  unfoldable pub refresh_config :
      Replies y content_of text_of to_value address → FilePath → SettingsData → Sys → Sys
  refresh_config a p old s =
      let r =
        replace_config y content_of text_of to_value address a.active.replace p old s.catalog.files
          s.config in
      record s {
        config = inject_providers y content_of text_of to_value address a.active.provide old r.1;
      }

  -- A reload of Mihomo, and a restart if it fails.
  unfoldable pub reload_or_restart :
      Replies y content_of text_of to_value address → FilePath → Sys → Answer × Sys
  unfolding answered
  reload_or_restart a config s =
      let r = restart_with_config s.service a.active.startup a.active.killed config in
      if a.reloaded
      then (done, s)
      else answered y content_of text_of to_value address r.0 (record s { service = r.1 })

  unfoldable pub refreshed :
      Replies y content_of text_of to_value address
      → FilePath
      → FilePath
      → Bool
      → Sys
      → Bool × Catalog
      → Answer × Sys
  unfolding refresh_config reload_or_restart
  refreshed a config p active s (false, c) = (bad_request, record s { catalog = c })
  refreshed a config p active s (true, c) =
      let s' : Sys = record s { catalog = c } in
      reload_or_restart a config
        (if active then refresh_config a p (get_settings s.settings) s' else s')

  unfoldable pub refresh_found :
      Replies y content_of text_of to_value address
      → FilePath
      → FilePath
      → String
      → ProfilesYaml
      → Sys
      → ProfileItem
      → Answer × Sys
  unfolding refreshed fetch resolve_profile_file
  refresh_found a dir config uid yaml s item =
      let p : FilePath = resolve_profile_file s.catalog.files dir uid item.file in
      if not (is_some item.url)
      then (bad_request, s)
      else if not (exists s.catalog.files p)
      then (not_found, s)
      else refreshed a config p (is_current uid yaml) s
          (fetch y content_of text_of to_value address a p uid none false s.catalog)

  unfoldable pub refresh_in :
      Replies y content_of text_of to_value address
      → FilePath
      → FilePath
      → String
      → Sys
      → Manifest
      → Answer × Sys
  unfolding refresh_found find
  refresh_in a dir config uid s (manifest yaml) =
      map_or (find uid yaml.items) (not_found, s) (refresh_found a dir config uid yaml s)
  refresh_in a dir config uid s missing = (internal_error, s)
  refresh_in a dir config uid s unreadable = (internal_error, s)
  refresh_in a dir config uid s invalid = (internal_error, s)

  unfoldable pub refresh_profile :
      Replies y content_of text_of to_value address
      → FilePath
      → FilePath
      → String
      → Sys
      → Answer × Sys
  unfolding refresh_in
  refresh_profile a dir config uid s = refresh_in a dir config uid s s.catalog.manifest
