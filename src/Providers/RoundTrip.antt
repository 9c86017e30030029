-- ===== src/Providers/RoundTrip.antt =====
-- Deleting a rule provider that was added.
use control_tower.Prelude.{
  ◌≡◌, refl, sym, ap, ◌∙◌, String, true, false, List, [], ◌∷◌, ◌++◌, if◌then◌else◌, retain, length,
  length-append, ◌==◌, arith, subst, eq_refl,
}
use control_tower.Profiles.{RuleProviderConfig}
use control_tower.Yaml.{Yaml}
use control_tower.Settings.{SettingsData, reread}
use control_tower.Settings.Store.{Runtime, complete, get_settings}
use control_tower.Settings.Merge.{IsStable, changed, to_both, reread-changed}
use control_tower.Providers.{
  RuleProviderRequest, not_found, is_valid, provider_of, rule_set_rule, other_name, other_rule,
  providers_in, rules_in, with_provider, removed, Answers, Stores, add_rule_provider,
  delete_rule_provider,
}
use control_tower.Providers.Settled.{
  settings_with, get_settings-add_rule_provider, get_settings-delete_rule_provider,
  retain-append_dropped, retain-put,
}

dropped :
    (name : String) (p : RuleProviderConfig) (ps : List RuleProviderConfig)
    → p.name ≡ name
    → retain (other_name name) (with_provider p ps) ≡ retain (other_name name) ps
dropped name p ps e =
    subst
      (λ n.
        retain (other_name name) (retain (other_name n) ps ++ p ∷ []) ≡ retain (other_name name) ps)
      (sym e) (retain-append_dropped (other_name name) ps p (rw (e, eq_refl name) refl))

shorter :
    (name : String) (p : RuleProviderConfig) (ps : List RuleProviderConfig)
    → p.name ≡ name
    → (length (retain (other_name name) (with_provider p ps)) == length (with_provider p ps))
      ≡ false
shorter name p ps e = rw (dropped name p ps e) (
    subst
      (λ n.
        (length (retain (other_name name) ps) == length (retain (other_name n) ps ++ p ∷ []))
        ≡ false)
      (sym e) (ground (arith, length-append (retain (other_name name) ps) (p ∷ []))))

module _ (y : Yaml) (to_value : RuleProviderConfig → y.Value) where
  -- A provider that is added and then deleted, with both settings saved, leaves in settings.yaml the
  -- providers of other names and the custom rules without its rule, as they were before, and all
  -- else as it was.
  pub delete_rule_provider-add_rule_provider :
      (a b : Answers y to_value) (rt rt' : Runtime) (req : RuleProviderRequest)
      (s : Stores y to_value)
      → a.saving.write ≡ complete
      → b.saving.write ≡ complete
      → is_valid req ≡ true
      → IsStable s.settings
      → get_settings
          (delete_rule_provider y to_value b rt' req.name
            (add_rule_provider y to_value a rt req s).1).1.settings
        ≡ changed
            (to_both
              (retain (other_name req.name) (providers_in (get_settings s.settings)))
              (retain (other_rule (rule_set_rule req.name)) (rules_in (get_settings s.settings))))
            (get_settings s.settings)
  unfolding provider_of removed
  delete_rule_provider-add_rule_provider a b rt rt' req s v w valid stable =
      let p : RuleProviderConfig = provider_of req in
      let old : SettingsData = get_settings s.settings in
      let s' : Stores y to_value = (add_rule_provider y to_value a rt req s).1 in
      let e = get_settings-add_rule_provider y to_value a rt req s v valid stable in
      let stable' : IsStable s'.settings =
        ap reread e
        ∙ (reread-changed (to_both _ _) old ∙ (ap (changed (to_both _ _)) stable ∙ sym e)) in
      let t = get_settings-delete_rule_provider y to_value b rt' req.name s' w stable' in
      let u =
        subst
          (λ x.
            if length (retain (other_name req.name) (providers_in x)) == length (providers_in x)
            then delete_rule_provider y to_value b rt' req.name s' ≡ (not_found, s')
            else get_settings (delete_rule_provider y to_value b rt' req.name s').1.settings
              ≡ removed req.name x)
          e t in
      let k =
        subst
          (λ c.
            if c
            then delete_rule_provider y to_value b rt' req.name s' ≡ (not_found, s')
            else get_settings (delete_rule_provider y to_value b rt' req.name s').1.settings
              ≡ removed req.name (settings_with y to_value p old))
          (shorter req.name p (providers_in old) refl) u in
      k ∙ λ i.
      changed
        (to_both (dropped req.name p (providers_in old) refl i)
          (retain-put (rule_set_rule req.name) (rules_in old) i))
        old
