-- ===== src/Catalog/Requests/Changes.antt =====
-- Updating a profile keeps the current profile among the items.
use control_tower.Prelude.{
  ℕ, String, Bool, true, false, ◌&&◌, Option, some, List, ◌≡◌, refl, sym, ap, ◌∙◌, str_eq, map_or,
  arith, eq_iff, Bool-cases, Option-cases, inl, inr,
}
use control_tower.Files.{FilePath}
use control_tower.Profiles.{
  ProfileItem, ProfilesYaml, RuleProviderConfig, Manifest, missing, unreadable, invalid, manifest,
}
use control_tower.Yaml.{Yaml}
use control_tower.Catalog.{is_current, Catalog, complete, find, resolve_profile_file, write_file}
use control_tower.Catalog.Add.{Download, body, is_page}
use control_tower.Catalog.Activate.{System, Answers}
use control_tower.Catalog.Item.{Body, edited, stamp, change_first, new_url, url_refused}
use control_tower.Catalog.Update.{
  Replies, update_manifest, update_found, update_edited, written_back, downloaded, fetch,
  fetch_from, receive, stamped,
}
use control_tower.Catalog.Current.{closed, closed_in, closed-change_first, store-closed}
use control_tower.Catalog.Requests.Activation.{find-uid, edited-uid, replace_active-catalog}

module _ (y : Yaml) (content_of : List ℕ → y.Content) (text_of : y.Content → List ℕ)
    (to_value : RuleProviderConfig → y.Value) (address : String → ℕ → String) where
  abbrev Sys : Type 0
  Sys = System y content_of text_of to_value address

  abbrev Act : Type 0
  Act = Answers y content_of text_of to_value address

  abbrev Rep : Type 0
  Rep = Replies y content_of text_of to_value address

  stamped-closed :
      (a : Rep) (uid : String) (url : Option String) (c : Catalog) (m : Manifest)
      → a.active.stored ≡ complete
      → closed_in c.manifest ≡ true
      → closed_in m ≡ true
      → closed_in (stamped y content_of text_of to_value address a uid url c m).1.manifest ≡ true
  unfolding stamped stamp
  stamped-closed a uid url c missing e h k = h
  stamped-closed a uid url c unreadable e h k = h
  stamped-closed a uid url c invalid e h k = h
  stamped-closed a uid url c (manifest yaml) e h k =
      let f : ProfileItem → ProfileItem =
        λ item. record item { updated_at = some a.now; url = map_or url item.url (λ u. some u) } in
      store-closed a.active.stored (record yaml { items = change_first uid f yaml.items }) c e
        (closed-change_first uid f yaml (λ item q. refl) ∙ k)

  fetch_from-closed :
      (a : Rep) (p : FilePath) (uid : String) (url : Option String) (checked : Bool) (c : Catalog)
      (d : Download)
      → a.active.stored ≡ complete
      → closed_in c.manifest ≡ true
      → closed_in
          (fetch_from y content_of text_of to_value address a p uid url checked c d).1.manifest
        ≡ true
  unfolding fetch_from receive
  fetch_from-closed a p uid url checked c Download.no_client e h = h
  fetch_from-closed a p uid url checked c Download.refused e h = h
  fetch_from-closed a p uid url checked c Download.unreadable e h = h
  fetch_from-closed a p uid url checked c (body t) e h = elim (Bool-cases (checked && is_page t)) [
    | inl k ↦ rw k h
    | inr k ↦ rw k (elim (Bool-cases (write_file a.write p t c.files).0) [
      | inl w ↦ rw w (
          stamped-closed a uid url (record c { files = (write_file a.write p t c.files).1 })
            c.manifest e h h)
      | inr w ↦ rw w h
    ])
  ]

  pub fetch-closed :
      (a : Rep) (p : FilePath) (uid : String) (url : Option String) (checked : Bool) (c : Catalog)
      → a.active.stored ≡ complete
      → closed_in c.manifest ≡ true
      → closed_in (fetch y content_of text_of to_value address a p uid url checked c).1.manifest
        ≡ true
  unfolding fetch
  fetch-closed a p uid url checked c e h = fetch_from-closed a p uid url checked c a.download e h

  pub downloaded-catalog :
      (a : Rep) (config p : FilePath) (active : Bool) (s : Sys) (r : Bool × Catalog)
      → (downloaded y content_of text_of to_value address a config p active s r).1.catalog ≡ r.1
  unfolding downloaded
  downloaded-catalog a config p active s (false, c) = refl
  downloaded-catalog a config p true s (true, c) =
      replace_active-catalog y content_of text_of to_value address false a.active config p
        (record s { catalog = c })
  downloaded-catalog a config p false s (true, c) = refl

  update_edited-closed :
      (a : Rep) (dir config : FilePath) (uid : String) (b : Body) (yaml : ProfilesYaml) (s : Sys)
      (old item : ProfileItem)
      → a.active.stored ≡ complete
      → item.uid ≡ uid
      → closed yaml ≡ true
      → closed_in s.catalog.manifest ≡ true
      → closed_in
          (update_edited y content_of text_of to_value address a dir config uid b yaml s old
            item).1.catalog.manifest
        ≡ true
  unfolding update_edited written_back
  update_edited-closed a dir config uid b yaml s old item e u k h =
      let p : FilePath = resolve_profile_file s.catalog.files dir uid item.file in
      elim (Option-cases (new_url b.url old.url)) [
        | inl n ↦ rw n (
            store-closed a.active.stored
              (record yaml { items = change_first uid (λ i. item) yaml.items }) s.catalog e
              (closed-change_first uid (λ i. item) yaml (λ i q. u ∙ sym (same_uid i.uid uid q))
                ∙ k))
        | inr (url, n) ↦ rw n (
            ap (λ c. closed_in c.manifest)
              (downloaded-catalog a config p (is_current uid yaml) s
                (fetch y content_of text_of to_value address a p uid (some url) true s.catalog))
            ∙ fetch-closed a p uid (some url) true s.catalog e h)
      ]
    where
      same_uid : (x z : String) → str_eq x z ≡ true → x ≡ z
      same_uid x z q = ground (arith, eq_iff x z, q)

  pub update_manifest-closed :
      (a : Rep) (dir config : FilePath) (uid : String) (b : Body) (m : Manifest) (s : Sys)
      → a.active.stored ≡ complete
      → closed_in m ≡ true
      → closed_in s.catalog.manifest ≡ true
      → closed_in
          (update_manifest y content_of text_of to_value address a dir config uid b m
            s).1.catalog.manifest
        ≡ true
  unfolding update_manifest update_found
  update_manifest-closed a dir config uid b missing s e k h = h
  update_manifest-closed a dir config uid b unreadable s e k h = h
  update_manifest-closed a dir config uid b invalid s e k h = h
  update_manifest-closed a dir config uid b (manifest yaml) s e k h =
      elim (Option-cases (find uid yaml.items)) [
        | inl n ↦ rw n h
        | inr (old, n) ↦ rw n (elim (Bool-cases (url_refused b.url)) [
          | inl t ↦ rw t h
          | inr t ↦ rw t (elim (Option-cases (edited uid b old)) [
            | inl q ↦ rw q h
            | inr (item, q) ↦ rw q (
                update_edited-closed a dir config uid b yaml s old item e
                  (edited-uid uid b old item q ∙ find-uid uid yaml.items old n) k h)
          ])
        ])
      ]
