-- ===== src/Providers/Settled.antt =====
-- What the handlers of the rule providers leave in settings.yaml.
use control_tower.Prelude.{
  String, Bool, true, false, Option, none, some, List, [], ◌∷◌, ◌++◌, ◌≡◌, refl, sym, ap, ◌∙◌,
  if◌then◌else◌, unwrap_or, map_or, retain, length, ◌==◌, eq_refl, subst, Bool-cases, Option-cases,
  inl, inr,
}
use control_tower.Profiles.{RuleProviderConfig}
use control_tower.Yaml.{Yaml}
use control_tower.ActiveConfig.{Result, ok, err, Disk}
use control_tower.ActiveConfig.Edit.{
  perform, set_rule_providers, prepend_rule, remove_rule_provider, remove_rule_by_content,
}
use control_tower.Settings.{SettingsData}
use control_tower.Settings.Store.{
  SettingsFile, Runtime, Saved, get_settings, save_settings, complete,
}
use control_tower.Settings.Merge.{
  IsStable, changed, to_both, get_settings-save_settings, get_settings-save_providers,
}
use control_tower.Providers.{
  RuleProviderRequest, Response, not_found, is_valid, provider_of, rule_set_rule, other_name,
  other_rule, providers_in, rules_in, contains, with_provider, added, removed, finished, Answers,
  Stores, then_active, then_saved, add_to_active, add_rule_provider, delete_from_active,
  delete_rule_provider,
}

-- `retain` and the element that is pushed.
pub retain-append_dropped {ℓ} :
    {A : Type ℓ} (q : A → Bool) (xs : List A) (x : A)
    → q x ≡ false
    → retain q (retain q xs ++ x ∷ []) ≡ retain q xs
retain-append_dropped q [] x h = rw h refl
retain-append_dropped q (z ∷ xs) x h = elim (Bool-cases (q z)) [
  | inl e ↦ rw e (rw e (ap (◌∷◌ z) (retain-append_dropped q xs x h)))
  | inr e ↦ rw e (retain-append_dropped q xs x h)
]

other_rule_same : (rule : String) → other_rule rule rule ≡ false
other_rule_same rule = rw (eq_refl rule) refl

-- Dropping a rule after it was put in, or not because it was there.
pub retain-put :
    (rule : String) (rules : List String)
    → retain (other_rule rule) (if contains rule rules then rules else rule ∷ rules)
      ≡ retain (other_rule rule) rules
retain-put rule rules = elim (Bool-cases (contains rule rules)) [
  | inl e ↦ rw e refl
  | inr e ↦ rw e (rw (other_rule_same rule) refl)
]

contains-some :
    (rule : String) (o : Option (List String))
    → contains rule (unwrap_or o []) ≡ true
    → o ≡ some (unwrap_or o [])
contains-some rule none h = cc
contains-some rule (some rules) h = refl

module _ (y : Yaml) (to_value : RuleProviderConfig → y.Value) where
  -- Whatever becomes of config.yaml, the settings are those that were saved.
  active_keeps :
      (r : Result (Unit {0}) × Disk y) (file : SettingsFile)
      (k : Disk y → Response × Stores y to_value)
      → ((d : Disk y) → (k d).1.settings ≡ file)
      → (then_active y to_value r file k).1.settings ≡ file
  active_keeps (ok u, d) file k h = h d
  active_keeps (err e, d) file k h = refl

  saved_keeps :
      (r : Saved) (d : Disk y) (k : SettingsFile → Response × Stores y to_value)
      → ((file : SettingsFile) → (k file).1.settings ≡ file)
      → (then_saved y to_value r d k).1.settings ≡ r.1
  saved_keeps (true, file, rt) d k h = h file
  saved_keeps (false, file, rt) d k h = refl

  add_to_active_keeps :
      (a : Answers y to_value) (p : RuleProviderConfig) (ps : List RuleProviderConfig) (d : Disk y)
      (file : SettingsFile)
      → (add_to_active y to_value a p ps d file).1.settings ≡ file
  unfolding add_to_active
  add_to_active_keeps a p ps d file =
      let rule = rule_set_rule p.name in
      active_keeps (perform y to_value (set_rule_providers ps) a.first d) file
        (λ d.
          then_active y to_value (perform y to_value (prepend_rule rule) a.second d) file
            (finished y to_value file))
        (λ d.
          active_keeps (perform y to_value (prepend_rule rule) a.second d) file
            (finished y to_value file) (λ d. refl))

  delete_keeps :
      (a : Answers y to_value) (name : String) (d : Disk y) (file : SettingsFile)
      → (delete_from_active y to_value a name d file).1.settings ≡ file
  unfolding delete_from_active
  delete_keeps a name d file =
      active_keeps (perform y to_value (remove_rule_provider name) a.first d) file
        (λ d.
          finished y to_value file
            (perform y to_value (remove_rule_by_content (rule_set_rule name)) a.second d).1)
        (λ d. refl)

  -- Settings after a provider is added.
  abbrev pub settings_with : RuleProviderConfig → SettingsData → SettingsData
  settings_with p s =
      let rule : String = rule_set_rule p.name in
      changed
        (to_both (with_provider p (providers_in s))
          (if contains rule (rules_in s) then rules_in s else rule ∷ rules_in s))
        s

  added_saved :
      (p : RuleProviderConfig) (client : Bool) (file : SettingsFile) (rt : Runtime)
      → IsStable file
      → get_settings
          (save_settings
            (record { client = client; write = complete })
            (added p (get_settings file))
            file
            rt).1
        ≡ settings_with p (get_settings file)
  unfolding added
  added_saved p client file rt stable =
      let s : SettingsData = get_settings file in
      let ps : List RuleProviderConfig = with_provider p (providers_in s) in
      elim (Bool-cases (contains (rule_set_rule p.name) (rules_in s))) [
        | inl e ↦ rw e (
            get_settings-save_providers ps client file rt stable
            ∙ ap (λ o. record s { rule_providers = some ps; custom_rules = o })
                (contains-some (rule_set_rule p.name) s.custom_rules e))
        | inr e ↦
            rw e
              (get_settings-save_settings (to_both ps (rule_set_rule p.name ∷ rules_in s)) client
                file rt stable).0
      ]

  -- A valid request to add a provider, on settings such as a save leaves them and with a write of
  -- them that completes, leaves in settings.yaml the provider after those of other names, and its
  -- rule in front of the custom rules unless they have it, and all else as it was; however the
  -- changes of config.yaml end.
  pub get_settings-add_rule_provider :
      (a : Answers y to_value) (rt : Runtime) (req : RuleProviderRequest) (s : Stores y to_value)
      → a.saving.write ≡ complete
      → is_valid req ≡ true
      → IsStable s.settings
      → get_settings (add_rule_provider y to_value a rt req s).1.settings
        ≡ settings_with (provider_of req) (get_settings s.settings)
  unfolding add_rule_provider
  get_settings-add_rule_provider a rt req s w v stable =
      let p : RuleProviderConfig = provider_of req in
      let old : SettingsData = get_settings s.settings in
      let ps : List RuleProviderConfig = with_provider p (providers_in old) in
      rw v (
        ap get_settings (
          saved_keeps (save_settings a.saving (added p old) s.settings rt) s.config
            (add_to_active y to_value a p ps s.config) (add_to_active_keeps a p ps s.config))
        ∙ subst
            (λ w.
              get_settings
                (save_settings (record { client = a.saving.client; write = w }) (added p old)
                  s.settings rt).1
              ≡ settings_with p old)
            (sym w) (added_saved p a.saving.client s.settings rt stable))

  removed_saved :
      (name : String) (client : Bool) (file : SettingsFile) (rt : Runtime)
      → IsStable file
      → get_settings
          (save_settings
            (record { client = client; write = complete })
            (removed name (get_settings file))
            file
            rt).1
        ≡ removed name (get_settings file)
  unfolding removed
  removed_saved name client file rt stable =
      let s : SettingsData = get_settings file in
      let ps : List RuleProviderConfig = retain (other_name name) (providers_in s) in
      let rule : String = rule_set_rule name in
      elim (Option-cases s.custom_rules) [
        | inl e ↦
            ap
              (λ o.
                get_settings
                  (save_settings (record { client = client; write = complete })
                    (record s { rule_providers = some ps; custom_rules = kept rule o }) file rt).1)
              e
            ∙ (get_settings-save_providers ps client file rt stable
                ∙ ap (λ o. record s { rule_providers = some ps; custom_rules = o })
                    (e ∙ sym (ap (kept rule) e)))
        | inr (rules, e) ↦
            ap
              (λ o.
                get_settings
                  (save_settings (record { client = client; write = complete })
                    (record s { rule_providers = some ps; custom_rules = kept rule o }) file rt).1)
              e
            ∙ ((get_settings-save_settings (to_both ps (retain (other_rule rule) rules)) client file
                  rt stable).0
                ∙ ap (λ o. record s { rule_providers = some ps; custom_rules = o })
                    (sym (ap (kept rule) e)))
      ]
    where
      kept : String → Option (List String) → Option (List String)
      kept rule o = map_or o none (λ rules. some (retain (other_rule rule) rules))

  -- The answer to a request to delete a provider is 404, with nothing changed, if none has the name;
  -- otherwise, on settings such as a save leaves them and with a write of them that completes, the
  -- providers of the name and the rule for it are gone from settings.yaml and all else is as it was.
  pub get_settings-delete_rule_provider :
      (a : Answers y to_value) (rt : Runtime) (name : String) (s : Stores y to_value)
      → a.saving.write ≡ complete
      → IsStable s.settings
      → (if length (retain (other_name name) (providers_in (get_settings s.settings)))
            == length (providers_in (get_settings s.settings))
          then delete_rule_provider y to_value a rt name s ≡ (not_found, s)
          else get_settings (delete_rule_provider y to_value a rt name s).1.settings
            ≡ removed name (get_settings s.settings))
  unfolding delete_rule_provider
  get_settings-delete_rule_provider a rt name s w stable =
      let old : SettingsData = get_settings s.settings in
      elim (Bool-cases
        (length (retain (other_name name) (providers_in old)) == length (providers_in old))) [
          | inl e ↦ rw e refl
          | inr e ↦ rw e (
              ap get_settings (
                saved_keeps (save_settings a.saving (removed name old) s.settings rt) s.config
                  (delete_from_active y to_value a name s.config) (delete_keeps a name s.config))
              ∙ subst
                  (λ w.
                    get_settings
                      (save_settings (record { client = a.saving.client; write = w })
                        (removed name old) s.settings rt).1
                    ≡ removed name old)
                  (sym w) (removed_saved name a.saving.client s.settings rt stable))
        ]
