-- ===== src/Catalog/Requests/Reload.antt =====
-- Refreshing a profile keeps the current profile among the items.
use control_tower.Prelude.{
  ℕ, String, Bool, true, false, not, none, List, ◌≡◌, refl, ap, ◌∙◌, is_some, Bool-cases,
  Option-cases, inl, inr,
}
use control_tower.Files.{FilePath, exists}
use control_tower.Profiles.{RuleProviderConfig, Manifest, missing, unreadable, invalid, manifest}
use control_tower.Yaml.{Yaml}
use control_tower.Settings.Store.{get_settings}
use control_tower.Service.{restart_with_config}
use control_tower.Catalog.{is_current, Catalog, complete, find, resolve_profile_file}
use control_tower.Catalog.Activate.{System, Answers}
use control_tower.Catalog.Update.{Replies, fetch}
use control_tower.Catalog.Refresh.{
  refresh_in, refresh_found, refreshed, reload_or_restart, refresh_config,
}
use control_tower.Catalog.Current.{closed_in}
use control_tower.Catalog.Requests.Activation.{answered-catalog}
use control_tower.Catalog.Requests.Changes.{fetch-closed}

module _ (y : Yaml) (content_of : List ℕ → y.Content) (text_of : y.Content → List ℕ)
    (to_value : RuleProviderConfig → y.Value) (address : String → ℕ → String) where
  abbrev Sys : Type 0
  Sys = System y content_of text_of to_value address

  abbrev Act : Type 0
  Act = Answers y content_of text_of to_value address

  abbrev Rep : Type 0
  Rep = Replies y content_of text_of to_value address

  reload-catalog :
      (a : Rep) (config : FilePath) (s : Sys)
      → (reload_or_restart y content_of text_of to_value address a config s).1.catalog ≡ s.catalog
  unfolding reload_or_restart
  reload-catalog a config s = elim (Bool-cases a.reloaded) [
    | inl t ↦ rw t refl
    | inr t ↦ rw t (
        answered-catalog y content_of text_of to_value address
          (restart_with_config s.service a.active.startup a.active.killed config).0
          (record s {
            service = (restart_with_config s.service a.active.startup a.active.killed config).1;
          }))
  ]

  refreshed-catalog :
      (a : Rep) (config p : FilePath) (active : Bool) (s : Sys) (r : Bool × Catalog)
      → (refreshed y content_of text_of to_value address a config p active s r).1.catalog ≡ r.1
  unfolding refreshed refresh_config
  refreshed-catalog a config p active s (false, c) = refl
  refreshed-catalog a config p true s (true, c) = reload-catalog a config (
      refresh_config y content_of text_of to_value address a p (get_settings s.settings)
        (record s { catalog = c }))
  refreshed-catalog a config p false s (true, c) =
      reload-catalog a config (record s { catalog = c })

  pub refresh_in-closed :
      (a : Rep) (dir config : FilePath) (uid : String) (s : Sys) (m : Manifest)
      → a.active.stored ≡ complete
      → closed_in s.catalog.manifest ≡ true
      → closed_in
          (refresh_in y content_of text_of to_value address a dir config uid s m).1.catalog.manifest
        ≡ true
  unfolding refresh_in refresh_found
  refresh_in-closed a dir config uid s missing e h = h
  refresh_in-closed a dir config uid s unreadable e h = h
  refresh_in-closed a dir config uid s invalid e h = h
  refresh_in-closed a dir config uid s (manifest yaml) e h =
      elim (Option-cases (find uid yaml.items)) [
        | inl n ↦ rw n h
        | inr (item, n) ↦
            let p : FilePath = resolve_profile_file s.catalog.files dir uid item.file in
            rw n (elim (Bool-cases (not (is_some item.url))) [
              | inl t ↦ rw t h
              | inr t ↦ rw t (elim (Bool-cases (not (exists s.catalog.files p))) [
                | inl q ↦ rw q h
                | inr q ↦ rw q (
                    ap (λ c. closed_in c.manifest)
                      (refreshed-catalog a config p (is_current uid yaml) s
                        (fetch y content_of text_of to_value address a p uid none false s.catalog))
                    ∙ fetch-closed y content_of text_of to_value address a p uid none false
                        s.catalog e h)
              ])
            ])
      ]
