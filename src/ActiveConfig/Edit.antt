-- ===== src/ActiveConfig/Edit.antt =====
-- The public methods of `ActiveConfigStore` in active_config.rs that change config.yaml, with the
-- exception of `replace_from_profile`.
use control_tower.Prelude.{
  ℕ, String, Bool, true, false, Option, List, [], ◌∷◌, ◌++◌, map_or, if◌then◌else◌, is_empty,
}
use control_tower.Profiles.{RuleProviderConfig}
use control_tower.Yaml.{Yaml}
use control_tower.ActiveConfig.{
  io_error, yaml_error, Result, ok, err, ◌>>=◌, Disk, Io, write_atomically, read, read_or, parse,
  with_mapping, change_rules, strings, remove_content, remove_index, cleared, merged_rules,
  provider_map, without_provider,
}

-- The changes, with what a missing file stands for: an error, or a default text.
pub data Edit : Type 0 where
  set_mode : String → Edit
  append_rule : String → Edit
  prepend_rule : String → Edit
  remove_rule_by_content : String → Edit
  clear_rules : Edit
  import_rules : List String → Edit
  merge_rules_with_custom : ℕ → List String → Edit
  set_rule_providers : List RuleProviderConfig → Edit
  remove_rule_provider : String → Edit

module _ (y : Yaml) where
  open y use {Content, Value, text, from_str, to_string, insert}

  unfoldable pub after_write : {A : Type 0} → A → Bool × Disk y → Result A × Disk y
  after_write a (true, d) = (ok a, d)
  after_write a (false, d) = (err io_error, d)

  -- `self.write_atomically(&to_string(&yaml)?)?` and the result.
  unfoldable pub store : {A : Type 0} → Io y → Disk y → Result (A × Value) → Result A × Disk y
  unfolding after_write
  store io d (err e) = (err e, d)
  store io d (ok (a, v)) =
      map_or (to_string v) (err yaml_error, d) (λ c. after_write a (write_atomically y io d c))

  abbrev pub unit_edit : Result Value → Result (Unit {0} × Value)
  unit_edit r = r >>= λ v. ok (tt, v)

  abbrev pub default_config : Content
  default_config = text "mode: rule\n"

  -- The text that a method works on.
  abbrev pub source : Edit → Io y → Option Content → Result Content
  source (append_rule r) io c = read_or y io c default_config
  source clear_rules io c = read_or y io c default_config
  source (merge_rules_with_custom n rs) io c = read_or y io c default_config
  source (set_rule_providers ps) io c = read_or y io c (text "")
  source _ io c = read y io c

  -- The parser of a method; `set_rule_providers` takes an empty mapping for a text that is not YAML.
  abbrev pub parsed : Edit → Content → Result Value
  parsed (set_rule_providers ps) c = map_or (from_str c) (ok (y.mapping y.new)) (λ v. ok v)
  parsed _ c = parse y c

  -- What a method does to the parsed configuration.
  unfoldable pub edited : (RuleProviderConfig → Value) → Edit → Value → Result Value
  unfolding remove_content cleared merged_rules provider_map without_provider
  edited to_value (set_mode mode) v = ok (with_mapping y (insert "mode" (y.string mode)) v)
  edited to_value (append_rule rule) v = change_rules y (λ xs. xs ++ y.string rule ∷ []) v
  edited to_value (prepend_rule rule) v = change_rules y (λ xs. y.string rule ∷ xs) v
  edited to_value (remove_rule_by_content rule) v = remove_content y rule v
  edited to_value clear_rules v = ok (cleared y v)
  edited to_value (import_rules rules) v = change_rules y (λ xs. xs ++ strings y rules) v
  edited to_value (merge_rules_with_custom count custom) v =
      ok (with_mapping y (insert "rules" (y.sequence (merged_rules y count custom v))) v)
  edited to_value (set_rule_providers ps) v =
      ok (with_mapping y (insert "rule-providers" (y.mapping (provider_map y to_value ps y.new))) v)
  edited to_value (remove_rule_provider name) v = ok (with_mapping y (without_provider y name) v)

  -- `import_rules` with no rules does nothing.
  abbrev pub is_noop : Edit → Bool
  is_noop (import_rules rules) = is_empty rules
  is_noop _ = false

  -- What a method sets out to store.
  abbrev pub target :
      (RuleProviderConfig → Value) → Edit → Io y → Disk y → Result (Unit {0} × Value)
  target to_value e io d =
      unit_edit (source e io d.active >>= λ c. parsed e c >>= λ v. edited to_value e v)

  -- One method from the read to the rename.
  unfoldable pub perform :
      (RuleProviderConfig → Value) → Edit → Io y → Disk y → Result (Unit {0}) × Disk y
  unfolding store
  perform to_value e io d = if is_noop e then (ok tt, d) else store io d (target to_value e io d)

  -- `remove_rule`, which returns the text of the rule at a position counted from 1.
  unfoldable pub remove_rule : ℕ → Io y → Disk y → Result String × Disk y
  unfolding store remove_index
  remove_rule index io d =
      let r : Result (String × Value) =
        read y io d.active >>= λ c. parse y c >>= λ v. remove_index y index v in
      store io d r
