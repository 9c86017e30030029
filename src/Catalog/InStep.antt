-- ===== src/Catalog/InStep.antt =====
-- What the activation of a profile leaves in the manifest, in settings.yaml and in config.yaml.
use control_tower.Prelude.{
  ℕ, String, true, false, Option, none, some, List, [], ◌++◌, ◌≡◌, refl, sym, ap, ◌∙◌, subst,
  str_eq, map_or, and_then, unwrap_or, length, arith, Bool-cases, inl, inr,
}
use control_tower.Files.{FilePath, Files}
use control_tower.Profiles.{ProfileItem, ProfilesYaml, RuleProviderConfig, manifest}
use control_tower.Yaml.{Yaml}
use control_tower.ActiveConfig.{Disk, Io, Result, ok, err, rules_of, strings}
use control_tower.ActiveConfig.Atomic.{Holds, Ends, Ends-ok}
use control_tower.ActiveConfig.Rules.{rule_list}
use control_tower.ActiveConfig.Replace.{replace_from_profile}
use control_tower.ActiveConfig.Replace.Spec.{Generated, HasRules, replace_from_profile-Generated}
use control_tower.Manager
use control_tower.Settings.{SettingsData, reread}
use control_tower.Settings.Store.{SettingsFile, content, Parsed, get_settings}
use control_tower.Service.{restart_with_config}
use control_tower.Catalog.{done, not_found, complete, find, store_manifest, resolve_profile_file}
use control_tower.Catalog.Activate.{
  System, Answers, activate_profile, activate_in, activate_found, validated, marked, replace_active,
  replaced, restarted, answered, replace_config, port_overrides, inject_providers, profile_text,
  has_proxies, update_profile_rules_count,
}

module _ (y : Yaml) (content_of : List ℕ → y.Content) (text_of : y.Content → List ℕ)
    (to_value : RuleProviderConfig → y.Value) (address : String → ℕ → String) where
  abbrev Sys : Type 0
  Sys = System y content_of text_of to_value address

  abbrev Act : Type 0
  Act = Answers y content_of text_of to_value address

  answered_lem :
      (o : Manager.Outcome) (s : Sys) → (answered y content_of text_of to_value address o s).1 ≡ s
  unfolding answered
  answered_lem Manager.ok s = refl
  answered_lem (Manager.err e) s = refl

  -- A replacement that is answered with 200 has a count, and only restarts Mihomo after it.
  replaced_lem :
      (a : Act) (config : FilePath) (old : SettingsData) (s : Sys) (r : Result ℕ × Disk y)
      → (replaced y content_of text_of to_value address true a config old s r).0 ≡ done
      → (count : ℕ) × (r.0 ≡ ok count)
        × ((replaced y content_of text_of to_value address true a config old s r).1.settings
            ≡ update_profile_rules_count a.counted a.empty count s.settings)
        × ((replaced y content_of text_of to_value address true a config old s r).1.config
            ≡ inject_providers y content_of text_of to_value address a.provide old r.1)
        × ((replaced y content_of text_of to_value address true a config old s r).1.catalog
            ≡ s.catalog)
  unfolding replaced restarted
  replaced_lem a config old s (err e, d) h = ground (arith, h)
  replaced_lem a config old s (ok count, d) h =
      let s' : Sys = record s {
        settings = update_profile_rules_count a.counted a.empty count s.settings;
        config = inject_providers y content_of text_of to_value address a.provide old d;
      } in
      let r = restart_with_config s.service a.startup a.killed config in
      let e = answered_lem r.0 (record s' { service = r.1 }) in
      (count, refl, ap (λ s. s.settings) e, ap (λ s. s.config) e, ap (λ s. s.catalog) e)

  inject_none :
      (io : Io y) (old : SettingsData) (d : Disk y)
      → old.rule_providers ≡ none
      → inject_providers y content_of text_of to_value address io old d ≡ d
  unfolding inject_providers
  inject_none io old d e = rw e refl

  counted_lem :
      (empty : Option SettingsData) (count : ℕ) (file : SettingsFile) (p : Parsed)
      → file ≡ content p
      → get_settings (update_profile_rules_count true empty count file)
        ≡ reread (record (get_settings file) { profile_rules_count = some count })
  unfolding update_profile_rules_count get_settings
  counted_lem empty count file p e = rw e refl

  -- In step: config.yaml has the custom rules before those of the profile v, and settings.yaml has
  -- the number of these.
  unfoldable pub InStep : SettingsData → y.Value → Sys → Type 0
  InStep old v s =
      ((get_settings s.settings).profile_rules_count ≡ some (length (rule_list y v)))
      × ((get_settings s.settings).custom_rules ≡ old.custom_rules)
      × (w : y.Value) × Holds y w s.config
      × (rules_of y w ≡ some (strings y (unwrap_or old.custom_rules []) ++ rule_list y v))

  pair-count :
      (n m : ℕ) (v w : y.Value)
      → ◌≡◌ {A = Result (ℕ × y.Value)} (ok (n, v)) (ok (m, w))
      → (n ≡ m) × (v ≡ w)
  pair-count n m v w h = ground (arith, h)

  replace_active-InStep :
      (a : Act) (config p : FilePath) (s : Sys) (q : Parsed) (t : List ℕ) (c : y.Content)
      (v : y.Value) (m : y.Mapping)
      → s.settings ≡ content q
      → (get_settings s.settings).rule_providers ≡ none
      → s.catalog.files p ≡ some t
      → y.from_str (content_of t) ≡ some v
      → y.as_mapping v ≡ some m
      → HasRules y v
      → s.config.active ≡ some c
      → a.replace.readable ≡ true
      → a.counted ≡ true
      → (replace_active y content_of text_of to_value address true a config p s).0 ≡ done
      → InStep
          (get_settings s.settings)
          v
          (replace_active y content_of text_of to_value address true a config p s).1
        × ((replace_active y content_of text_of to_value address true a config p s).1.catalog
            ≡ s.catalog)
  unfolding replace_active replace_config InStep Generated reread
  replace_active-InStep a config p s q t c v m e n f k l r b i j h =
      let old : SettingsData = get_settings s.settings in
      let custom : List String = unwrap_or old.custom_rules [] in
      let res =
        replace_config y content_of text_of to_value address a.replace p old s.catalog.files
          s.config in
      let (count, o, set, conf, cat) = replaced_lem a config old s res h in
      let (w, generated, ends) =
        replace_from_profile-Generated y (content_of t) c custom (port_overrides address old)
          a.replace s.config v m k l r b i in
      let same : replace_from_profile y (some (content_of t)) custom (port_overrides address old)
            a.replace s.config
          ≡ res =
        ap
          (λ o.
            replace_from_profile y (and_then o (λ t. some (content_of t))) custom
              (port_overrides address old) a.replace s.config)
          (sym f) in
      let ends' =
        subst (λ x. Ends y a.replace (ok (length (rule_list y v), w)) s.config x.0 x.1) same ends in
      let (w', eq, holds) =
        Ends-ok y a.replace (ok (length (rule_list y v), w)) s.config res.1 count res.0 ends' o in
      let pair = pair-count (length (rule_list y v)) count w w' eq in
      let counted : get_settings
            (replaced y content_of text_of to_value address true a config old s res).1.settings
          ≡ reread (record old { profile_rules_count = some count }) =
        ap get_settings (set ∙ ap (λ b. update_profile_rules_count b a.empty count s.settings) j)
        ∙ counted_lem a.empty count s.settings q e in
      (
        (
          ap (λ x. x.profile_rules_count) counted ∙ ap some (sym pair.0),
          ap (λ x. x.custom_rules) counted,
          w',
          subst (Holds y w') (sym (conf ∙ inject_none a.provide old res.1 n)) holds,
          subst (λ x. rules_of y x ≡ some (strings y custom ++ rule_list y v)) pair.1 generated.1,
        ),
        cat,
      )

  text_of_file :
      (a : Act) (dir : FilePath) (yaml : ProfilesYaml) (item : ProfileItem) (p : FilePath)
      (fs : Files)
      → str_eq (unwrap_or item.kind "remote") "script" ≡ false
      → str_eq (unwrap_or item.kind "remote") "merge" ≡ false
      → profile_text y content_of text_of to_value address a dir yaml item p fs ≡ (fs p, fs)
  unfolding profile_text
  text_of_file a dir yaml item p fs e h = rw (e, h) refl

  -- A text that is valid, with a manifest whose write completes.
  validated_lem :
      (a : Act) (config : FilePath) (uid : String) (yaml : ProfilesYaml) (p : FilePath) (s : Sys)
      (t : List ℕ)
      → a.stored ≡ complete
      → (validated y content_of text_of to_value address a config uid yaml p s (some t)).0 ≡ done
      → validated y content_of text_of to_value address a config uid yaml p s (some t)
        ≡ replace_active y content_of text_of to_value address true a config p (record s {
          catalog = record (s.catalog) { manifest = manifest (record yaml { current = some uid }) };
        })
  unfolding validated marked store_manifest
  validated_lem a config uid yaml p s t e =
      elim (Bool-cases (
        map_or (y.from_str (content_of t)) false
          (has_proxies y content_of text_of to_value address))) [
            | inl k ↦ rw (k, e) (λ h. refl)
            | inr k ↦ rw k (λ h. ground (arith, h))
          ]

  -- The activation of a profile with a file of its own, which is a mapping with an array of rules or
  -- none, and which is answered with 200, marks it as the current one and leaves config.yaml and
  -- settings.yaml in step: in config.yaml the custom rules of the settings stand before the rules of
  -- the profile, and settings.yaml has the number of these, with the custom rules as they were. The
  -- files can be read, the writes complete, and the settings list no providers.
  pub activate_profile-InStep :
      (a : Act) (dir config : FilePath) (uid : String) (s : Sys) (yaml : ProfilesYaml)
      (item : ProfileItem) (q : Parsed) (t : List ℕ) (c : y.Content) (v : y.Value) (m : y.Mapping)
      → s.catalog.manifest ≡ manifest yaml
      → find uid yaml.items ≡ some item
      → str_eq (unwrap_or item.kind "remote") "script" ≡ false
      → str_eq (unwrap_or item.kind "remote") "merge" ≡ false
      → s.catalog.files (resolve_profile_file s.catalog.files dir uid item.file) ≡ some t
      → y.from_str (content_of t) ≡ some v
      → y.as_mapping v ≡ some m
      → HasRules y v
      → s.config.active ≡ some c
      → s.settings ≡ content q
      → (get_settings s.settings).rule_providers ≡ none
      → a.stored ≡ complete
      → a.replace.readable ≡ true
      → a.counted ≡ true
      → (activate_profile y content_of text_of to_value address a dir config uid s).0 ≡ done
      → ((activate_profile y content_of text_of to_value address a dir config uid
            s).1.catalog.manifest
          ≡ manifest (record yaml { current = some uid }))
        × InStep
            (get_settings s.settings)
            v
            (activate_profile y content_of text_of to_value address a dir config uid s).1
  unfolding activate_profile activate_in activate_found
  activate_profile-InStep a dir config uid s yaml item q t c v m g f x z o k l r b e n d i j h =
      let p : FilePath = resolve_profile_file s.catalog.files dir uid item.file in
      let s' : Sys = record s {
        catalog = record (s.catalog) { manifest = manifest (record yaml { current = some uid }) };
      } in
      let found : activate_profile y content_of text_of to_value address a dir config uid s
          ≡ validated y content_of text_of to_value address a config uid yaml p s (some t) =
        ap (activate_in y content_of text_of to_value address a dir config uid s) g
        ∙ (ap
              (λ o.
                map_or o (not_found, s)
                  (activate_found y content_of text_of to_value address a dir config uid yaml s))
              f
            ∙ (ap
                  (λ r.
                    validated y content_of text_of to_value address a config uid yaml p
                      (record s { catalog = record (s.catalog) { files = r.1 } }) r.0)
                  (text_of_file a dir yaml item p s.catalog.files x z)
                ∙ ap (validated y content_of text_of to_value address a config uid yaml p s) o)) in
      let path = found ∙ validated_lem a config uid yaml p s t d (sym (ap (λ r. r.0) found) ∙ h) in
      let active =
        replace_active-InStep a config p s' q t c v m e n o k l r b i j
          (sym (ap (λ r. r.0) path) ∙ h) in
      (
        ap (λ r. r.1.catalog.manifest) path ∙ ap (λ c. c.manifest) active.1,
        subst (λ r. InStep (get_settings s.settings) v r.1) (sym path) active.0,
      )
