-- ===== src/RuleList/Merge.antt =====
-- `merge` of the handlers against `merge_rules_with_custom` of active_config.rs.
use control_tower.Prelude.{
  ℕ, ◌-◌, String, ◌≡◌, refl, sym, ap, ◌∙◌, List, [], ◌∷◌, ◌++◌, length, drop, map-append,
}
use control_tower.Yaml.{Yaml}
use control_tower.ActiveConfig.{texts, strings, merged_rules}
use control_tower.ActiveConfig.Rules.{rule_list}
use control_tower.RuleList.{merge}

module _ (y : Yaml) where
  open y use {Value, as_str-string}

  pub texts-strings : (rules : List String) → texts y (strings y rules) ≡ rules
  texts-strings [] = refl
  texts-strings (r ∷ rs) = rw (as_str-string r) (ap (◌∷◌ r) (texts-strings rs))

  -- The texts of the rules that `merge_rules_with_custom` stores are those that the handlers expect
  -- of it.
  pub texts-merged_rules :
      (count : ℕ) (rules : List String) (v : Value)
      → texts y (merged_rules y count rules v) ≡ merge count rules (texts y (rule_list y v))
  unfolding merged_rules merge
  texts-merged_rules count rules v =
      let existing : List String = texts y (rule_list y v) in
      let rest : List String = drop (length existing - count) existing in
      ap (texts y) (sym (map-append y.string rules rest)) ∙ texts-strings (rules ++ rest)
