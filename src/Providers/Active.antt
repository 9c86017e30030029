-- ===== src/Providers/Active.antt =====
-- What adding a rule provider leaves in config.yaml.
use Prim.Native.String
use control_tower.Prelude.{
  ◌≡◌, ◌≢◌, refl, sym, ap, ◌∙◌, String, true, false, some, List, ◌∷◌, subst, Bool-cases, inl, inr,
  str_eq, arith, eq_iff, [], or_else, not, retain, ◌++◌,
}
use control_tower.Profiles.{RuleProviderConfig}
use control_tower.Yaml.{Yaml}
use control_tower.Yaml.Tables.{last_value, last_more, at_new}
use control_tower.ActiveConfig.{
  Result, ok, err, ◌>>=◌, Disk, Io, get_key, with_mapping, rules_of, provider_map,
}
use control_tower.ActiveConfig.Edit.{
  perform, source, parsed, target, edited, set_rule_providers, prepend_rule,
}
use control_tower.ActiveConfig.Atomic.{Holds, perform-Ends, Ends-ok, ok-injective}
use control_tower.ActiveConfig.Rules.{
  Changes, rule_list, rules_after, perform-Changes, target_lem, get_key-with_mapping,
}
use control_tower.Settings.{SettingsData}
use control_tower.Settings.Store.{SettingsFile, Runtime, Saved, get_settings, save_settings}
use control_tower.Providers.{
  RuleProviderRequest, Response, reloaded, is_valid, provider_of, rule_set_rule, providers_in,
  with_provider, added, Answers, Stores, then_active, then_saved, finished, add_to_active,
  add_rule_provider,
}

module _ (y : Yaml) (to_value : RuleProviderConfig → y.Value) where
  open y use {
    Value, Mapping, as_mapping, as_mapping-put, put_mapping, insert, mapping, new, from_str, get,
    get-insert,
  }

  then_active_lem :
      (r : Result (Unit {0}) × Disk y) (file : SettingsFile)
      (k : Disk y → Response × Stores y to_value)
      → (then_active y to_value r file k).0 ≡ reloaded
      → (r.0 ≡ ok tt) × (then_active y to_value r file k ≡ k r.1) × ((k r.1).0 ≡ reloaded)
  then_active_lem (ok u, d) file k h = (refl, refl, h)
  then_active_lem (err e, d) file k h = ground arith

  then_saved_lem :
      (r : Saved) (d : Disk y) (k : SettingsFile → Response × Stores y to_value)
      → (then_saved y to_value r d k).0 ≡ reloaded
      → (then_saved y to_value r d k ≡ k r.1) × ((k r.1).0 ≡ reloaded)
  then_saved_lem (true, file, rt) d k h = (refl, h)
  then_saved_lem (false, file, rt) d k h = ground arith

  -- The section of the providers.
  abbrev pub section : List RuleProviderConfig → Value
  section ps = mapping (provider_map y to_value ps new)

  set_lem :
      (ps : List RuleProviderConfig) (io : Io y) (d : Disk y) (v : Value)
      → (source y (set_rule_providers ps) io d.active >>= parsed y (set_rule_providers ps)) ≡ ok v
      → (perform y to_value (set_rule_providers ps) io d).0 ≡ ok tt
      → Holds y
          (with_mapping y (insert "rule-providers" (section ps)) v)
          (perform y to_value (set_rule_providers ps) io d).1
  unfolding edited
  set_lem ps io d v p k =
      let e = set_rule_providers ps in
      let (w, t, holds) =
        Ends-ok y io (target y to_value e io d) d (perform y to_value e io d).1 tt
          (perform y to_value e io d).0 (perform-Ends y to_value e io d refl) k in
      subst (λ x. Holds y x (perform y to_value e io d).1)
        (sym (
          ok-injective y (with_mapping y (insert "rule-providers" (section ps)) v) w
            (target_lem y to_value e (source y e io d.active) v w p t)))
        holds

  as_mapping-with_mapping :
      (k : String) (x v : Value) (m : Mapping)
      → as_mapping v ≡ some m
      → as_mapping (with_mapping y (insert k x) v) ≡ some (insert k x m)
  as_mapping-with_mapping k x v m h = rw h (as_mapping-put v m (insert k x m) h)

  reads :
      (rule : String) (io : Io y) (d : Disk y) (v : Value)
      → io.readable ≡ true
      → Holds y v d
      → (source y (prepend_rule rule) io d.active >>= parsed y (prepend_rule rule)) ≡ ok v
  unfolding Holds
  reads rule io d v r (c, e, p, t) = rw (r, e, p) refl

  differ : str_eq "rule-providers" "rules" ≡ false
  differ = refl

  differ' : ◌≢◌ {A = String} "rule-providers" "rules"
  differ' = ground (arith, eq_iff "rule-providers" "rules", differ)

  get-provider_map :
      (ps : List RuleProviderConfig) (m : Mapping) (j : String)
      → get j (provider_map y to_value ps m)
        ≡ or_else (last_value {A = RuleProviderConfig} (λ p. p.name) to_value j ps) (get j m)
  unfolding provider_map
  get-provider_map [] m j = refl
  get-provider_map (p ∷ ps) m j =
      let o = last_value {A = RuleProviderConfig} (λ p. p.name) to_value j ps in
      get-provider_map ps (insert p.name (to_value p) m) j
      ∙ (ap (or_else o) (get-insert p.name j (to_value p) m)
          ∙ last_more o (get j m) p.name j (to_value p))

  -- What config.yaml has after a provider is added, for the providers ps and the rule: the section
  -- has for each name the last provider of it.
  unfoldable pub HasProvider : List RuleProviderConfig → String → Value → Disk y → Type 0
  HasProvider ps rule v d =
      (w : Value) × (providers : Mapping) × Holds y w d
      × (rules_of y w ≡ some (y.string rule ∷ rule_list y v))
      × (get_key y "rule-providers" w ≡ some (mapping providers))
      × ((k : String)
          → get k providers ≡ last_value {A = RuleProviderConfig} (λ p. p.name) to_value k ps)

  add_to_active_lem :
      (a : Answers y to_value) (p : RuleProviderConfig) (ps : List RuleProviderConfig) (d : Disk y)
      (file : SettingsFile) (v : Value) (m : Mapping)
      → a.second.readable ≡ true
      → (source y (set_rule_providers ps) a.first d.active >>= parsed y (set_rule_providers ps))
        ≡ ok v
      → as_mapping v ≡ some m
      → (add_to_active y to_value a p ps d file).0 ≡ reloaded
      → HasProvider ps (rule_set_rule p.name) v (add_to_active y to_value a p ps d file).1.config
  unfolding add_to_active HasProvider Changes rules_after
  add_to_active_lem a p ps d file v m r s h k =
      let rule = rule_set_rule p.name in
      let one = perform y to_value (set_rule_providers ps) a.first d in
      let rest = λ (d : Disk y).
        then_active y to_value (perform y to_value (prepend_rule rule) a.second d) file
          (finished y to_value file) in
      let f = then_active_lem one file rest k in
      let two = perform y to_value (prepend_rule rule) a.second one.1 in
      let g = then_active_lem two file (finished y to_value file) f.2 in
      let u : Value = with_mapping y (insert "rule-providers" (section ps)) v in
      let held = set_lem ps a.first d v s f.0 in
      let (w, holds, changes) =
        perform-Changes y to_value (prepend_rule rule) a.second one.1 u
          (insert "rule-providers" (section ps) m) refl refl (reads rule a.second one.1 u r held)
          (as_mapping-with_mapping "rule-providers" (section ps) v m h) g.0 in
      (
        w,
        provider_map y to_value ps new,
        subst (λ x. Holds y w x.1.config) (sym (f.1 ∙ g.1)) holds,
        changes.0
            ∙ ap (λ xs. some (y.string rule ∷ xs))
                (rw (get_key-with_mapping y "rules" "rule-providers" (section ps) v m h) refl),
        changes.1 "rule-providers" differ'
            ∙ get_key-with_mapping y "rule-providers" "rule-providers" (section ps) v m h,
        λ j.
            get-provider_map ps new j
            ∙ at_new y (last_value {A = RuleProviderConfig} (λ p. p.name) to_value j ps) j,
      )

  accepted :
      (a : Answers y to_value) (rt : Runtime) (req : RuleProviderRequest) (s : Stores y to_value)
      → is_valid req ≡ true
      → let old : SettingsData = get_settings s.settings in
        let p : RuleProviderConfig = provider_of req in
        add_rule_provider y to_value a rt req s
        ≡ then_saved y to_value
            (save_settings a.saving (added p old) s.settings rt)
            s.config
            (add_to_active y to_value a p (with_provider p (providers_in old)) s.config)
  unfolding add_rule_provider
  accepted a rt req s t = rw t refl

  refused :
      (a : Answers y to_value) (rt : Runtime) (req : RuleProviderRequest) (s : Stores y to_value)
      → is_valid req ≡ false
      → (add_rule_provider y to_value a rt req s).0 ≡ reloaded
      → ⊥
  unfolding add_rule_provider
  refused a rt req s t k = ground (arith, t, k)

  -- A request to add a provider that is answered with 200, on a config.yaml that was read as a
  -- mapping and can be read again, leaves a config.yaml with the section of all providers, those of
  -- other names and this one, each under its name, and with the rule `RULE-SET,<name>,REJECT` in
  -- front of all rules that were there: also if it was among them, as it is whenever a provider is
  -- updated.
  pub add_rule_provider-HasProvider :
      (a : Answers y to_value) (rt : Runtime) (req : RuleProviderRequest) (s : Stores y to_value)
      (v : Value) (m : Mapping)
      → a.second.readable ≡ true
      → (let ps = with_provider (provider_of req) (providers_in (get_settings s.settings)) in
          source y (set_rule_providers ps) a.first s.config.active
          >>= parsed y (set_rule_providers ps))
        ≡ ok v
      → as_mapping v ≡ some m
      → (add_rule_provider y to_value a rt req s).0 ≡ reloaded
      → HasProvider
          (retain (λ p. not (str_eq p.name req.name)) (providers_in (get_settings s.settings))
            ++ provider_of req ∷ [])
          (String.◌++◌ "RULE-SET," (String.◌++◌ req.name ",REJECT"))
          v
          (add_rule_provider y to_value a rt req s).1.config
  unfolding provider_of rule_set_rule
  add_rule_provider-HasProvider a rt req s v m r e h k = elim (Bool-cases (is_valid req)) [
    | inr f ↦ elim (refused a rt req s f k) [ ]
    | inl t ↦
        let old : SettingsData = get_settings s.settings in
        let p : RuleProviderConfig = provider_of req in
        let ps : List RuleProviderConfig = with_provider p (providers_in old) in
        let saved : Saved = save_settings a.saving (added p old) s.settings rt in
        let q = accepted a rt req s t in
        let f =
          then_saved_lem saved s.config (add_to_active y to_value a p ps s.config)
            (sym (ap (λ x. x.0) q) ∙ k) in
        subst (λ x. HasProvider ps (rule_set_rule p.name) v x.1.config) (sym (q ∙ f.0))
          (add_to_active_lem a p ps s.config saved.1 v m r e h f.1)
  ]
