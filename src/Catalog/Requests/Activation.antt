-- ===== src/Catalog/Requests/Activation.antt =====
-- Adding and activating a profile keep the current profile among the items.
use control_tower.Prelude.{
  ℕ, String, Bool, true, false, Option, none, some, List, [], ◌∷◌, ◌++◌, ◌≡◌, refl, sym, ap, ◌∙◌,
  if◌then◌else◌, str_eq, map_or, is_some, unwrap_or, arith, eq_iff, Bool-cases, Option-cases, inl,
  inr,
}
use control_tower.Files.{FilePath, Files}
use control_tower.Profiles.{
  ProfileItem, ProfilesYaml, RuleProviderConfig, Manifest, missing, unreadable, invalid, manifest,
}
use control_tower.Yaml.{Yaml}
use control_tower.ActiveConfig.{Disk, Result, ok, err}
use control_tower.Manager
use control_tower.Settings.{SettingsData}
use control_tower.Settings.Store.{get_settings}
use control_tower.Catalog.{
  Answer, done, bad_request, not_found, internal_error, Catalog, complete, find, store_manifest,
  resolve_profile_file,
}
use control_tower.Catalog.Add.{
  AddProfileRequest, World, add_profile, add_after, add_item, add_file, manifest_or_empty, new_item,
}
use control_tower.Catalog.Activate.{
  System, Answers, activate_in, activate_found, validated, marked, replace_active, replaced,
  restarted, answered, has_proxies, profile_text,
}
use control_tower.Catalog.Item.{Body, edited, normalised}
use control_tower.Catalog.Update.{Replies}
use control_tower.Catalog.Current.{closed, closed_in, append_lem, store-closed}

-- The item that `find` finds.
pub find-uid :
    (uid : String) (items : List ProfileItem) (item : ProfileItem)
    → find uid items ≡ some item
    → item.uid ≡ uid
unfolding find
find-uid uid [] item h = ground (arith, h)
find-uid uid (i ∷ items) item h = elim (Bool-cases (str_eq i.uid uid)) [
  | inl e ↦ ground (arith, e, h, eq_iff i.uid uid)
  | inr e ↦ find-uid uid items item (sym (ap (λ b. if b then some i else find uid items) e) ∙ h)
]

pub edited-uid :
    (uid : String) (b : Body) (old item : ProfileItem)
    → edited uid b old ≡ some item
    → item.uid ≡ old.uid
unfolding edited normalised
edited-uid uid b old item h = ground (arith, h)

add_item-closed :
    (w : World) (b : AddProfileRequest) (kind : String) (c : Catalog)
    → w.stored ≡ complete
    → closed_in c.manifest ≡ true
    → closed_in (add_item w b kind c).1.manifest ≡ true
unfolding add_item
add_item-closed w b kind c e h =
    let yaml : ProfilesYaml = manifest_or_empty c.manifest in
    store-closed w.stored (record yaml { items = yaml.items ++ new_item w b kind ∷ [] }) c e
      (append_lem yaml.current yaml.items (new_item w b kind ∷ []) (usable c.manifest h))
  where
    usable : (m : Manifest) → closed_in m ≡ true → closed (manifest_or_empty m) ≡ true
    usable missing h = unfold manifest_or_empty in refl
    usable unreadable h = unfold manifest_or_empty in refl
    usable invalid h = unfold manifest_or_empty in refl
    usable (manifest yaml) h = unfold manifest_or_empty in h

add_after-closed :
    (w : World) (b : AddProfileRequest) (kind : String) (m : Manifest) (r : Answer × Files)
    → w.stored ≡ complete
    → closed_in m ≡ true
    → closed_in (add_after w b kind m r).1.manifest ≡ true
unfolding add_after
add_after-closed w b kind m (done, fs) e h =
    add_item-closed w b kind (record { manifest = m; files = fs }) e h
add_after-closed w b kind m (bad_request, fs) e h = h
add_after-closed w b kind m (not_found, fs) e h = h
add_after-closed w b kind m (internal_error, fs) e h = h

pub add_profile-closed :
    (w : World) (dir : FilePath) (b : AddProfileRequest) (c : Catalog)
    → w.stored ≡ complete
    → closed_in c.manifest ≡ true
    → closed_in (add_profile w dir b c).1.manifest ≡ true
unfolding add_profile
add_profile-closed w dir b c e h = elim (Bool-cases w.dir_made) [
  | inl t ↦ rw t (
      add_after-closed w b (unwrap_or b.kind "remote") c.manifest
        (add_file w b (unwrap_or b.kind "remote") _ c.files) e h)
  | inr t ↦ rw t h
]

module _ (y : Yaml) (content_of : List ℕ → y.Content) (text_of : y.Content → List ℕ)
    (to_value : RuleProviderConfig → y.Value) (address : String → ℕ → String) where
  abbrev Sys : Type 0
  Sys = System y content_of text_of to_value address

  abbrev Act : Type 0
  Act = Answers y content_of text_of to_value address

  abbrev Rep : Type 0
  Rep = Replies y content_of text_of to_value address

  pub answered-catalog :
      (o : Manager.Outcome) (s : Sys)
      → (answered y content_of text_of to_value address o s).1.catalog ≡ s.catalog
  unfolding answered
  answered-catalog Manager.ok s = refl
  answered-catalog (Manager.err e) s = refl

  replaced-catalog :
      (inject : Bool) (a : Act) (config : FilePath) (old : SettingsData) (s : Sys)
      (r : Result ℕ × Disk y)
      → (replaced y content_of text_of to_value address inject a config old s r).1.catalog
        ≡ s.catalog
  unfolding replaced restarted
  replaced-catalog inject a config old s (err e, d) = refl
  replaced-catalog inject a config old s (ok count, d) = answered-catalog _ _

  pub replace_active-catalog :
      (inject : Bool) (a : Act) (config p : FilePath) (s : Sys)
      → (replace_active y content_of text_of to_value address inject a config p s).1.catalog
        ≡ s.catalog
  unfolding replace_active
  replace_active-catalog inject a config p s =
      replaced-catalog inject a config (get_settings s.settings) s _

  marked-catalog :
      (a : Act) (config p : FilePath) (s : Sys) (r : Bool × Catalog)
      → (marked y content_of text_of to_value address a config p s r).1.catalog ≡ r.1
  unfolding marked
  marked-catalog a config p s (false, c) = refl
  marked-catalog a config p s (true, c) =
      replace_active-catalog true a config p (record s { catalog = c })

  validated-closed :
      (a : Act) (config : FilePath) (uid : String) (yaml : ProfilesYaml) (p : FilePath) (s : Sys)
      (t : Option (List ℕ))
      → a.stored ≡ complete
      → is_some (find uid yaml.items) ≡ true
      → closed_in s.catalog.manifest ≡ true
      → closed_in
          (validated y content_of text_of to_value address a config uid yaml p s
            t).1.catalog.manifest
        ≡ true
  unfolding validated
  validated-closed a config uid yaml p s none e f h = h
  validated-closed a config uid yaml p s (some t) e f h =
      elim (Bool-cases (
        map_or (y.from_str (content_of t)) false
          (has_proxies y content_of text_of to_value address))) [
            | inl k ↦ rw k (
                ap (λ c. closed_in c.manifest)
                  (marked-catalog a config p s
                    (store_manifest a.stored (record yaml { current = some uid }) s.catalog))
                ∙ store-closed a.stored (record yaml { current = some uid }) s.catalog e f)
            | inr k ↦ rw k h
          ]

  activate_found-closed :
      (a : Act) (dir config : FilePath) (uid : String) (yaml : ProfilesYaml) (s : Sys)
      (item : ProfileItem)
      → a.stored ≡ complete
      → is_some (find uid yaml.items) ≡ true
      → closed_in s.catalog.manifest ≡ true
      → closed_in
          (activate_found y content_of text_of to_value address a dir config uid yaml s
            item).1.catalog.manifest
        ≡ true
  unfolding activate_found
  activate_found-closed a dir config uid yaml s item e f h =
      let p : FilePath = resolve_profile_file s.catalog.files dir uid item.file in
      let r =
        profile_text y content_of text_of to_value address a dir yaml item p s.catalog.files in
      validated-closed a config uid yaml p
        (record s { catalog = record (s.catalog) { files = r.1 } }) r.0 e f h

  pub activate_in-closed :
      (a : Act) (dir config : FilePath) (uid : String) (s : Sys) (m : Manifest)
      → a.stored ≡ complete
      → closed_in s.catalog.manifest ≡ true
      → closed_in
          (activate_in y content_of text_of to_value address a dir config uid s
            m).1.catalog.manifest
        ≡ true
  unfolding activate_in
  activate_in-closed a dir config uid s missing e h = h
  activate_in-closed a dir config uid s unreadable e h = h
  activate_in-closed a dir config uid s invalid e h = h
  activate_in-closed a dir config uid s (manifest yaml) e h =
      elim (Option-cases (find uid yaml.items)) [
        | inl n ↦ rw n h
        | inr (item, n) ↦
            rw n (activate_found-closed a dir config uid yaml s item e (ap is_some n) h)
      ]
