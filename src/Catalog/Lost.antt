-- ===== src/Catalog/Lost.antt =====
-- What an update of a profile keeps of the request when the URL changes.
use control_tower.Prelude.{
  ℕ, String, Bool, true, not, ◌||◌, Option, some, List, false, ◌≡◌, refl, sym, ap, ◌∙◌, arith,
  Bool-cases, Option-cases, inl, inr,
}
use control_tower.Files.{FilePath}
use control_tower.Profiles.{ProfileItem, ProfilesYaml, RuleProviderConfig, Manifest, manifest}
use control_tower.Yaml.{Yaml}
use control_tower.Catalog.{
  Answer, Catalog, bad_request, complete, done, find, internal_error, is_current, not_found,
  resolve_profile_file, store_manifest, write_file,
}
use control_tower.Catalog.Add.{Download, body, is_page}
use control_tower.Catalog.Activate.{System, Answers}
use control_tower.Catalog.Requests.Changes.{downloaded-catalog}
use control_tower.Scheduler.{ProfileCronJob}
use control_tower.Catalog.Item.{url_blank, Body, edited, stamp, new_url, url_refused}
use control_tower.Catalog.Stamp.{IsStamped, stamp-IsStamped}
use control_tower.Catalog.Update.{
  update_profile, with_jobs, is_there, Replies, update_manifest, update_found, update_edited,
  downloaded, fetch, fetch_from, receive, stamped,
}

module _ (y : Yaml) (content_of : List ℕ → y.Content) (text_of : y.Content → List ℕ)
    (to_value : RuleProviderConfig → y.Value) (address : String → ℕ → String) where
  abbrev Sys : Type 0
  Sys = System y content_of text_of to_value address

  abbrev Act : Type 0
  Act = Answers y content_of text_of to_value address

  abbrev Rep : Type 0
  Rep = Replies y content_of text_of to_value address

  -- A download that succeeds has stamped the item.
  stamped_lem :
      (a : Rep) (uid : String) (url : Option String) (c : Catalog) (yaml : ProfilesYaml)
      → a.active.stored ≡ complete
      → (stamped y content_of text_of to_value address a uid url c (manifest yaml)).1.manifest
        ≡ manifest (stamp uid a.now url yaml)
  unfolding stamped store_manifest
  stamped_lem a uid url c yaml e = rw e refl

  fetched :
      (a : Rep) (p : FilePath) (uid : String) (url : Option String) (c : Catalog)
      (yaml : ProfilesYaml) (d : Download)
      → a.active.stored ≡ complete
      → c.manifest ≡ manifest yaml
      → (fetch_from y content_of text_of to_value address a p uid url true c d).0 ≡ true
      → (fetch_from y content_of text_of to_value address a p uid url true c d).1.manifest
        ≡ manifest (stamp uid a.now url yaml)
  unfolding fetch_from receive
  fetched a p uid url c yaml Download.no_client e k = λ h. ground (arith, h)
  fetched a p uid url c yaml Download.refused e k = λ h. ground (arith, h)
  fetched a p uid url c yaml Download.unreadable e k = λ h. ground (arith, h)
  fetched a p uid url c yaml (body t) e k = elim (Bool-cases (is_page t)) [
    | inl g ↦ rw g (λ h. ground (arith, h))
    | inr g ↦ rw g (elim (Bool-cases (write_file a.write p t c.files).0) [
      | inr w ↦ rw w (λ h. ground (arith, h))
      | inl w ↦ rw w (λ h.
          let c' : Catalog = record c { files = (write_file a.write p t c.files).1 } in
          ap (λ m. (stamped y content_of text_of to_value address a uid url c' m).1.manifest) k
          ∙ stamped_lem a uid url c' yaml e)
    ])
  ]

  downloaded-true :
      (a : Rep) (config p : FilePath) (active : Bool) (s : Sys) (r : Bool × Catalog)
      → (downloaded y content_of text_of to_value address a config p active s r).0 ≡ done
      → r.0 ≡ true
  unfolding downloaded
  downloaded-true a config p active s (false, c) h = ground (arith, h)
  downloaded-true a config p active s (true, c) h = refl

  edited_lost :
      (a : Rep) (dir config : FilePath) (uid : String) (b : Body) (yaml : ProfilesYaml) (s : Sys)
      (old item : ProfileItem) (url : String)
      → a.active.stored ≡ complete
      → s.catalog.manifest ≡ manifest yaml
      → new_url b.url old.url ≡ some url
      → (update_edited y content_of text_of to_value address a dir config uid b yaml s old item).0
        ≡ done
      → (update_edited y content_of text_of to_value address a dir config uid b yaml s old
          item).1.catalog.manifest
        ≡ manifest (stamp uid a.now (some url) yaml)
  unfolding update_edited fetch
  edited_lost a dir config uid b yaml s old item url e k n =
      let p : FilePath = resolve_profile_file s.catalog.files dir uid item.file in
      let r : Bool × Catalog =
        fetch y content_of text_of to_value address a p uid (some url) true s.catalog in
      rw n (λ h.
        ap (λ c. c.manifest)
          (downloaded-catalog y content_of text_of to_value address a config p (is_current uid yaml)
            s r)
        ∙ fetched a p uid (some url) s.catalog yaml a.download e k
            (downloaded-true a config p (is_current uid yaml) s r h))

  found_lost :
      (a : Rep) (dir config : FilePath) (uid : String) (b : Body) (yaml : ProfilesYaml) (s : Sys)
      (old : ProfileItem) (url : String)
      → a.active.stored ≡ complete
      → s.catalog.manifest ≡ manifest yaml
      → new_url b.url old.url ≡ some url
      → (update_found y content_of text_of to_value address a dir config uid b yaml s old).0 ≡ done
      → (update_found y content_of text_of to_value address a dir config uid b yaml s
          old).1.catalog.manifest
        ≡ manifest (stamp uid a.now (some url) yaml)
  unfolding update_found
  found_lost a dir config uid b yaml s old url e k n = elim (Bool-cases (url_refused b.url)) [
    | inl t ↦ rw t (λ h. ground (arith, h))
    | inr t ↦ rw t (elim (Option-cases (edited uid b old)) [
      | inl q ↦ rw q (λ h. ground (arith, h))
      | inr (item, q) ↦ rw q (edited_lost a dir config uid b yaml s old item url e k n)
    ])
  ]

  manifest_lost :
      (a : Rep) (dir config : FilePath) (uid : String) (b : Body) (m : Manifest)
      (yaml : ProfilesYaml) (s : Sys) (old : ProfileItem) (url : String)
      → a.active.stored ≡ complete
      → s.catalog.manifest ≡ manifest yaml
      → m ≡ manifest yaml
      → find uid yaml.items ≡ some old
      → new_url b.url old.url ≡ some url
      → (update_manifest y content_of text_of to_value address a dir config uid b m s).0 ≡ done
      → (update_manifest y content_of text_of to_value address a dir config uid b m
          s).1.catalog.manifest
        ≡ manifest (stamp uid a.now (some url) yaml)
  unfolding update_manifest
  manifest_lost a dir config uid b m yaml s old url e k q f n =
      rw q (rw f (found_lost a dir config uid b yaml s old url e k n))

  with_jobs_answer :
      (clock : ℕ → ℕ) (jobs : List ProfileCronJob) (r : Answer × Sys)
      → ((with_jobs y content_of text_of to_value address clock jobs r).0 ≡ r.0)
        × ((with_jobs y content_of text_of to_value address clock jobs r).1 ≡ r.1)
  unfolding with_jobs
  with_jobs_answer clock jobs (done, s) = (refl, refl)
  with_jobs_answer clock jobs (bad_request, s) = (refl, refl)
  with_jobs_answer clock jobs (not_found, s) = (refl, refl)
  with_jobs_answer clock jobs (internal_error, s) = (refl, refl)

  -- An update that gives an item a new URL and is answered with 200 leaves the manifest as it was but
  -- for the URL of the item, the first one of its uid, and the time of its update: a name, a cron
  -- text or options that the same request gives are not stored. The writes of the manifest complete.
  pub update_profile-stamp :
      (a : Rep) (clock : ℕ → ℕ) (dir config : FilePath) (uid : String) (b : Body) (s : Sys)
      (jobs : List ProfileCronJob) (yaml : ProfilesYaml) (old : ProfileItem) (url : String)
      → a.active.stored ≡ complete
      → s.catalog.manifest ≡ manifest yaml
      → find uid yaml.items ≡ some old
      → new_url b.url old.url ≡ some url
      → (update_profile y content_of text_of to_value address a clock dir config uid b s jobs).0
        ≡ done
      → IsStamped uid a.now url yaml old
          (update_profile y content_of text_of to_value address a clock dir config uid b s
            jobs).1.catalog.manifest
  unfolding update_profile
  update_profile-stamp a clock dir config uid b s jobs yaml old url e k f n =
      let r =
        update_manifest y content_of text_of to_value address a dir config uid b s.catalog.manifest
          s in
      let w = with_jobs_answer clock jobs r in
      elim (Bool-cases (not (is_there s.catalog.manifest))) [
        | inl t ↦ rw t (λ h. ground (arith, h))
        | inr t ↦ rw t (elim (Bool-cases (not b.is_object || url_blank b.url)) [
          | inl q ↦ rw q (λ h. ground (arith, h))
          | inr q ↦ rw q (λ h. stamp-IsStamped uid a.now url yaml old _ f (
              ap (λ s. s.catalog.manifest) w.1
              ∙ manifest_lost a dir config uid b s.catalog.manifest yaml s old url e k k f n
                  (sym w.0 ∙ h)))
        ])
      ]
