-- ===== src/Catalog/Requests.antt =====
-- The requests to the handlers of profile_handlers.rs, one after the other: whatever they are, the
-- current profile is one of the items of the manifest.
pub mod Activation
pub mod Changes
pub mod Reload
use control_tower.Prelude.{
  ℕ, String, Bool, true, false, not, ◌&&◌, ◌||◌, Option, none, some, List, [], ◌∷◌, ◌++◌, ◌≡◌, refl,
  sym, ap, ◌∙◌, subst, if◌then◌else◌, str_eq, map_or, and_then, is_some, is_empty, unwrap_or, arith,
  eq_iff, Bool-cases, Option-cases, inl, inr,
}
use control_tower.Files.{FilePath, Files, exists}
use control_tower.Profiles.{
  ProfileItem, ProfilesYaml, RuleProviderConfig, Manifest, missing, unreadable, invalid, manifest,
}
use control_tower.Yaml.{Yaml}
use control_tower.ActiveConfig.{Disk, Result, ok, err}
use control_tower.Manager
use control_tower.Settings.{SettingsData}
use control_tower.Settings.Store.{get_settings}
use control_tower.Service.{restart_with_config}
use control_tower.Scheduler.{ProfileCronJob}
use control_tower.Catalog.{
  Answer, is_current, done, bad_request, not_found, internal_error, Catalog, Stored, complete, find,
  store_manifest, delete_profile, resolve_profile_file, write_file,
}
use control_tower.Catalog.Add.{
  AddProfileRequest, World, Download, body, add_profile, add_after, add_item, add_file,
  manifest_or_empty, new_item, is_page,
}
use control_tower.Catalog.Activate.{
  System, Answers, activate_profile, activate_in, activate_found, validated, marked, replace_active,
  replaced, restarted, answered, replace_config, has_proxies, profile_text,
}
use control_tower.Catalog.Item.{
  Body, edited, normalised, cron_of, stamp, change_first, new_url, url_refused, url_blank,
}
use control_tower.Catalog.Update.{
  is_there, Replies, update_profile, update_manifest, update_found, update_edited, written_back,
  downloaded, fetch, fetch_from, receive, stamped, with_jobs,
}
use control_tower.Catalog.Refresh.{
  refresh_profile, refresh_in, refresh_found, refreshed, reload_or_restart, refresh_config,
}
use control_tower.Catalog.Current.{
  closed, closed_in, closed-change_first, append_lem, store-closed, delete_profile-closed,
}
use control_tower.Catalog.Requests.Activation.{add_profile-closed, activate_in-closed}
use control_tower.Catalog.Requests.Changes.{update_manifest-closed}
use control_tower.Catalog.Requests.Reload.{refresh_in-closed}

module _ (y : Yaml) (content_of : List ℕ → y.Content) (text_of : y.Content → List ℕ)
    (to_value : RuleProviderConfig → y.Value) (address : String → ℕ → String) where
  abbrev Sys : Type 0
  Sys = System y content_of text_of to_value address

  abbrev Act : Type 0
  Act = Answers y content_of text_of to_value address

  abbrev Rep : Type 0
  Rep = Replies y content_of text_of to_value address

  pub data Request : Type 0 where
    add : World → AddProfileRequest → Request
    delete : Stored → Bool → String → Request
    activate : Act → String → Request
    update : Rep → Body → String → Request
    refresh : Rep → String → Request

  -- How the write of the manifest ends that a request may make.
  abbrev pub stored_of : Request → Stored
  stored_of (add w b) = w.stored
  stored_of (delete stored removable uid) = stored
  stored_of (activate a uid) = a.stored
  stored_of (update a b uid) = a.active.stored
  stored_of (refresh a uid) = a.active.stored

  -- The system after a request, with the directory of the profiles and the path of config.yaml.
  unfoldable pub handle : FilePath → FilePath → Request → Sys → Sys
  handle dir config (add w b) s = record s { catalog = (add_profile w dir b s.catalog).1 }
  handle dir config (delete stored removable uid) s = record s {
    catalog = (delete_profile stored removable dir uid s.catalog).1;
  }
  handle dir config (activate a uid) s =
      (activate_profile y content_of text_of to_value address a dir config uid s).1
  handle dir config (update a b uid) s =
      (update_profile y content_of text_of to_value address a (λ i. i) dir config uid b s []).1
  handle dir config (refresh a uid) s =
      (refresh_profile y content_of text_of to_value address a dir config uid s).1

  -- What requests whose writes of the manifest complete can lead to.
  pub data Reach (dir config : FilePath) (first : Sys) : Sys → Type 0 where
    start : Reach dir config first first
    step :
        {s s' : Sys}
        → Reach dir config first s
        → (r : Request) → stored_of r ≡ complete
        → handle dir config r s ≡ s'
        → Reach dir config first s'

  with_jobs-catalog :
      (clock : ℕ → ℕ) (jobs : List ProfileCronJob) (r : Answer × Sys)
      → (with_jobs y content_of text_of to_value address clock jobs r).1 ≡ r.1
  unfolding with_jobs
  with_jobs-catalog clock jobs (done, s) = refl
  with_jobs-catalog clock jobs (bad_request, s) = refl
  with_jobs-catalog clock jobs (not_found, s) = refl
  with_jobs-catalog clock jobs (internal_error, s) = refl

  update_profile-closed :
      (a : Rep) (clock : ℕ → ℕ) (dir config : FilePath) (uid : String) (b : Body) (s : Sys)
      (jobs : List ProfileCronJob)
      → a.active.stored ≡ complete
      → closed_in s.catalog.manifest ≡ true
      → closed_in
          (update_profile y content_of text_of to_value address a clock dir config uid b s
            jobs).1.catalog.manifest
        ≡ true
  unfolding update_profile
  update_profile-closed a clock dir config uid b s jobs e h =
      elim (Bool-cases (not (is_there s.catalog.manifest))) [
        | inl t ↦ rw t h
        | inr t ↦ rw t (elim (Bool-cases (not b.is_object || url_blank b.url)) [
          | inl q ↦ rw q h
          | inr q ↦ rw q (
              ap (λ s. closed_in s.catalog.manifest)
                (with_jobs-catalog clock jobs (
                  update_manifest y content_of text_of to_value address a dir config uid b
                    s.catalog.manifest s))
              ∙ update_manifest-closed y content_of text_of to_value address a dir config uid b
                  s.catalog.manifest s e h h)
        ])
      ]

  handle-closed :
      (dir config : FilePath) (r : Request) (s : Sys)
      → stored_of r ≡ complete
      → closed_in s.catalog.manifest ≡ true
      → closed_in (handle dir config r s).catalog.manifest ≡ true
  unfolding handle activate_profile refresh_profile
  handle-closed dir config (add w b) s e h = add_profile-closed w dir b s.catalog e h
  handle-closed dir config (delete stored removable uid) s e h =
      delete_profile-closed stored removable dir uid s.catalog e h
  handle-closed dir config (activate a uid) s e h =
      activate_in-closed y content_of text_of to_value address a dir config uid s s.catalog.manifest
        e h
  handle-closed dir config (update a b uid) s e h =
      update_profile-closed a (λ i. i) dir config uid b s [] e h
  handle-closed dir config (refresh a uid) s e h =
      refresh_in-closed y content_of text_of to_value address a dir config uid s s.catalog.manifest
        e h

  -- In every state that requests to add, delete, activate, update and refresh profiles can reach, in
  -- any order and with any outcome of downloads, scripts and restarts, the current profile of the
  -- manifest, if there is one, is one of its items. It was so at first, and the writes of the
  -- manifest complete.
  pub Reach-closed :
      (dir config : FilePath) (first s : Sys)
      → closed_in first.catalog.manifest ≡ true
      → Reach dir config first s
      → closed_in s.catalog.manifest ≡ true
  Reach-closed dir config first s h start = h
  Reach-closed dir config first s h (step before r e k) =
      subst (λ x. closed_in x.catalog.manifest ≡ true) k
        (handle-closed dir config r _ e (Reach-closed dir config first _ h before))
