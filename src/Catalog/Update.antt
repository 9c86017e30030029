-- ===== src/Catalog/Update.antt =====
-- PATCH /api/profiles/{id}: `update_profile` of api/profile_handlers.rs.
use control_tower.Prelude.{
  ℕ, String, Bool, true, false, not, ◌||◌, ◌&&◌, Option, some, List, if◌then◌else◌, map_or,
}
use control_tower.Files.{FilePath, Files}
use control_tower.Profiles.{
  ProfileItem, ProfilesYaml, RuleProviderConfig, Manifest, missing, unreadable, invalid, manifest,
}
use control_tower.Yaml.{Yaml}
use control_tower.Scheduler.{ProfileCronJob}
use control_tower.Scheduler.Cron.{load_cron_jobs}
use control_tower.Catalog.{
  Answer, done, bad_request, not_found, internal_error, Catalog, Written, write_file,
  store_manifest, resolve_profile_file, find, is_current,
}
use control_tower.Catalog.Add.{is_page, Download, body}
use control_tower.Catalog.Activate.{System, Answers, replace_active}
use control_tower.Catalog.Item.{Body, change_first, edited, new_url, stamp, url_blank, url_refused}

-- Whether profiles.yaml exists.
abbrev pub is_there : Manifest → Bool
is_there missing = false
is_there _ = true

module _ (y : Yaml) (content_of : List ℕ → y.Content) (text_of : y.Content → List ℕ)
    (to_value : RuleProviderConfig → y.Value) (address : String → ℕ → String) where
  abbrev pub Sys : Type 0
  Sys = System y content_of text_of to_value address

  -- What is answered during an update or a refresh: the download, the write of its text, whether
  -- Mihomo takes the reload, and what an activation needs.
  pub record Replies : Type 0 where
    pub download : Download
    pub write : Written
    pub now : ℕ
    pub reloaded : Bool
    pub active : Answers y content_of text_of to_value address

  -- The text is written to the file and the item stamped in the manifest that is there.
  unfoldable pub stamped : Replies → String → Option String → Catalog → Manifest → Bool × Catalog
  unfolding stamp store_manifest
  stamped a uid url c (manifest yaml) = store_manifest a.active.stored (stamp uid a.now url yaml) c
  stamped a uid url c missing = (false, c)
  stamped a uid url c unreadable = (false, c)
  stamped a uid url c invalid = (false, c)

  unfoldable pub receive :
      Replies → FilePath → String → Option String → List ℕ → Catalog → Bool × Catalog
  unfolding stamped
  receive a p uid url t c =
      let wrote : Bool × Files = write_file a.write p t c.files in
      let c' : Catalog = record c { files = wrote.1 } in
      if wrote.0 then stamped a uid url c' c.manifest else (false, c')

  -- A download of an update must not look like HTML.
  unfoldable pub fetch_from :
      Replies → FilePath → String → Option String → Bool → Catalog → Download → Bool × Catalog
  unfolding receive
  fetch_from a p uid url checked c (body t) =
      if checked && is_page t then (false, c) else receive a p uid url t c
  fetch_from a p uid url checked c Download.no_client = (false, c)
  fetch_from a p uid url checked c Download.refused = (false, c)
  fetch_from a p uid url checked c Download.unreadable = (false, c)

  unfoldable pub fetch :
      Replies → FilePath → String → Option String → Bool → Catalog → Bool × Catalog
  unfolding fetch_from
  fetch a p uid url checked c = fetch_from a p uid url checked c a.download

  -- After a download the active configuration is replaced if the profile is the current one.
  unfoldable pub downloaded :
      Replies → FilePath → FilePath → Bool → Sys → Bool × Catalog → Answer × Sys
  downloaded a config p active s (false, c) = (bad_request, record s { catalog = c })
  downloaded a config p active s (true, c) =
      let s' : Sys = record s { catalog = c } in
      if active
      then replace_active y content_of text_of to_value address false a.active config p s'
      else (done, s')

  unfoldable pub written_back : Sys → Bool × Catalog → Answer × Sys
  written_back s (stored, c) = (if stored then done else internal_error, record s { catalog = c })

  unfoldable pub update_edited :
      Replies
      → FilePath
      → FilePath
      → String
      → Body
      → ProfilesYaml
      → Sys
      → ProfileItem
      → ProfileItem
      → Answer × Sys
  unfolding downloaded written_back fetch change_first
  update_edited a dir config uid b yaml s old item =
      let p : FilePath = resolve_profile_file s.catalog.files dir uid item.file in
      map_or (new_url b.url old.url)
        (written_back s (
          store_manifest a.active.stored
            (record yaml { items = change_first uid (λ i. item) yaml.items }) s.catalog))
        (λ url.
          downloaded a config p (is_current uid yaml) s (fetch a p uid (some url) true s.catalog))

  unfoldable pub update_found :
      Replies
      → FilePath
      → FilePath
      → String
      → Body
      → ProfilesYaml
      → Sys
      → ProfileItem
      → Answer × Sys
  unfolding update_edited edited
  update_found a dir config uid b yaml s old =
      if url_refused b.url
      then (bad_request, s)
      else map_or (edited uid b old) (bad_request, s) (update_edited a dir config uid b yaml s old)

  unfoldable pub update_manifest :
      Replies → FilePath → FilePath → String → Body → Manifest → Sys → Answer × Sys
  unfolding update_found find
  update_manifest a dir config uid b missing s = (not_found, s)
  update_manifest a dir config uid b unreadable s = (internal_error, s)
  update_manifest a dir config uid b invalid s = (bad_request, s)
  update_manifest a dir config uid b (manifest yaml) s =
      map_or (find uid yaml.items) (not_found, s) (update_found a dir config uid b yaml s)

  -- The jobs are loaded again after a change.
  unfoldable pub with_jobs :
      (ℕ → ℕ) → List ProfileCronJob → Answer × Sys → Answer × Sys × List ProfileCronJob
  with_jobs clock jobs (done, s) = (done, s, load_cron_jobs s.catalog.manifest clock jobs)
  with_jobs clock jobs (a, s) = (a, s, jobs)

  unfoldable pub update_profile :
      Replies
      → (ℕ → ℕ)
      → FilePath
      → FilePath
      → String
      → Body
      → Sys
      → List ProfileCronJob
      → Answer × Sys × List ProfileCronJob
  unfolding update_manifest with_jobs
  update_profile a clock dir config uid b s jobs =
      if not (is_there s.catalog.manifest)
      then (not_found, s, jobs)
      else if not b.is_object || url_blank b.url
      then (bad_request, s, jobs)
      else with_jobs clock jobs (update_manifest a dir config uid b s.catalog.manifest s)
