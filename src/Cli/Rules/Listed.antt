-- ===== src/Cli/Rules/Listed.antt =====
-- The rules that the client lists after it has changed them.
use control_tower.Prelude.{
  ℕ, String, true, false, Option, none, some, List, [], ◌∷◌, ◌++◌, ◌≡◌, refl, sym, ap, ◌∙◌, map_or,
  is_empty, arith, if_elim, map_or_elim, Option-cases, inl, inr,
}
use control_tower.Profiles.{RuleProviderConfig}
use control_tower.Yaml.{Yaml}
use control_tower.ActiveConfig.{Result, ok, ◌>>=◌, Disk, Io, rules_of, texts, strings}
use control_tower.ActiveConfig.Edit.{perform, Edit, source, parsed, is_noop}
use control_tower.ActiveConfig.Atomic.{Holds}
use control_tower.ActiveConfig.Rules.{rule_list, rules_after, edits_rules, Changes, perform-Changes}
use control_tower.RuleList.Merge.{texts-strings}
use control_tower.Text.{codes}
use control_tower.Cli.Rules.{
  Outcome, refused, stored, refusal, trimmed, parse_rules_from_config, add_rule, import_rules,
  content, new_rules, no_rules,
}

module _ (y : Yaml) (to_value : RuleProviderConfig → y.Value) (to_uppercase : List ℕ → List ℕ) where
  texts-append : (xs ys : List y.Value) → texts y (xs ++ ys) ≡ texts y xs ++ texts y ys
  texts-append [] ys = refl
  texts-append (x ∷ xs) ys = elim (Option-cases (y.as_str x)) [
    | inl e ↦ rw e (texts-append xs ys)
    | inr (s, e) ↦ rw e (ap (◌∷◌ s) (texts-append xs ys))
  ]

  parse_rules_from_config-Holds :
      (d : Disk y) (w : y.Value) (xs : List y.Value)
      → Holds y w d
      → rules_of y w ≡ some xs
      → parse_rules_from_config y to_value to_uppercase true d ≡ some (texts y xs)
  unfolding parse_rules_from_config Holds
  parse_rules_from_config-Holds d w xs (c, a, p, t) r = rw (a, p, r) refl

  listed-before :
      (d : Disk y) (c : y.Content) (v : y.Value)
      → d.active ≡ some c
      → y.from_str c ≡ some v
      → parse_rules_from_config y to_value to_uppercase true d ≡ some (texts y (rule_list y v))
  unfolding parse_rules_from_config
  listed-before d c v a p = elim (Option-cases (rules_of y v)) [
    | inl e ↦ rw (a, p, e) refl
    | inr (xs, e) ↦ rw (a, p, e) refl
  ]

  -- What is listed after a method that adds these rules at the end.
  listed-perform :
      (e : Edit) (rules : List String) (io : Io y) (d : Disk y) (c : y.Content) (v : y.Value)
      (m : y.Mapping)
      → edits_rules y e ≡ true
      → is_noop y e ≡ false
      → rules_after y e (rule_list y v) ≡ rule_list y v ++ strings y rules
      → d.active ≡ some c
      → y.from_str c ≡ some v
      → y.as_mapping v ≡ some m
      → (source y e io d.active >>= parsed y e) ≡ ok v
      → (perform y to_value e io d).0 ≡ ok tt
      → parse_rules_from_config y to_value to_uppercase true (perform y to_value e io d).1
        ≡ map_or
            (parse_rules_from_config y to_value to_uppercase true d)
            none
            (λ old. some (old ++ rules))
  unfolding Changes
  listed-perform e rules io d c v m edits works adds a p k src h =
      let (w, holds, changes) = perform-Changes y to_value e io d v m edits works src k h in
      parse_rules_from_config-Holds (perform y to_value e io d).1 w
        (rules_after y e (rule_list y v)) holds changes.0
      ∙ (ap (λ xs. some (texts y xs)) adds
          ∙ (ap some (
                texts-append (rule_list y v) (strings y rules)
                ∙ ap (λ rs. texts y (rule_list y v) ++ rs) (texts-strings y rules))
              ∙ ap (λ o. map_or o none (λ old. some (old ++ rules)))
                  (sym (listed-before d c v a p))))

  stored-ok :
      {A : Type 0} (r s : Result A)
      → ◌≡◌ {A = Outcome y to_value to_uppercase A} (stored r) (stored s)
      → r ≡ s
  stored-ok r s e = cc

  -- A rule that is added with success, to a config.yaml that is a mapping, is one in which nothing is
  -- wrong, and the rules that the client then lists are those of before and, at the end, the rule
  -- without the white space around it.
  pub parse_rules_from_config-add_rule :
      (io : Io y) (rule : String) (d : Disk y) (c : y.Content) (v : y.Value) (m : y.Mapping)
      → io.readable ≡ true
      → d.active ≡ some c
      → y.from_str c ≡ some v
      → y.as_mapping v ≡ some m
      → (add_rule y to_value to_uppercase io rule d).0 ≡ stored (ok tt)
      → (refusal to_uppercase (codes (trimmed rule)) ≡ none)
        × (parse_rules_from_config y to_value to_uppercase true
              (add_rule y to_value to_uppercase io rule d).1
            ≡ map_or
                (parse_rules_from_config y to_value to_uppercase true d)
                none
                (λ old. some (old ++ trimmed rule ∷ [])))
  unfolding add_rule rules_after
  parse_rules_from_config-add_rule io rule d c v m b a p k =
      let e : Edit = Edit.append_rule (trimmed rule) in
      map_or_elim
        (λ (o : Outcome y to_value to_uppercase (Unit {0}) × Disk y).
          o.0 ≡ stored (ok tt)
          → (refusal to_uppercase (codes (trimmed rule)) ≡ none)
            × (parse_rules_from_config y to_value to_uppercase true o.1
                ≡ map_or (parse_rules_from_config y to_value to_uppercase true d) none
                    (λ old. some (old ++ trimmed rule ∷ []))))
        (refusal to_uppercase (codes (trimmed rule))) _ (λ r. (refused r, d))
        (λ none_wrong h. (
          none_wrong,
          listed-perform e (trimmed rule ∷ []) io d c v m refl refl refl a p k (rw (a, b, p) refl)
              (stored-ok (perform y to_value e io d).0 (ok tt) h),
        ))
        (λ r wrong h. absurd (ground (arith, h)))

  -- Rules imported with success, from a file that can be read into a config.yaml that is a mapping,
  -- are all listed in their order after those of before, and at least one is imported: the texts of a
  -- list, or else those of the key `rules`, or else the lines that are neither empty nor comments.
  parse_rules_from_config-import_rules :
      (io : Io y) (listed : Option (List String)) (value : Option y.Value) (lines : List String)
      (d : Disk y) (c : y.Content) (v : y.Value) (m : y.Mapping)
      → io.readable ≡ true
      → d.active ≡ some c
      → y.from_str c ≡ some v
      → y.as_mapping v ≡ some m
      → (import_rules y to_value to_uppercase io (content listed value lines) d).0 ≡ stored (ok tt)
      → (is_empty (new_rules y to_value to_uppercase listed value lines) ≡ false)
        × (parse_rules_from_config y to_value to_uppercase true
              (import_rules y to_value to_uppercase io (content listed value lines) d).1
            ≡ map_or
                (parse_rules_from_config y to_value to_uppercase true d)
                none
                (λ old. some (old ++ new_rules y to_value to_uppercase listed value lines)))
  unfolding import_rules rules_after
  parse_rules_from_config-import_rules io listed value lines d c v m b a p k =
      let rules : List String = new_rules y to_value to_uppercase listed value lines in
      if_elim
        (λ (o : Outcome y to_value to_uppercase (Unit {0}) × Disk y).
          o.0 ≡ stored (ok tt)
          → (is_empty rules ≡ false)
            × (parse_rules_from_config y to_value to_uppercase true o.1
                ≡ map_or (parse_rules_from_config y to_value to_uppercase true d) none
                    (λ old. some (old ++ rules))))
        (is_empty rules) (refused no_rules, d) _ (λ x h. absurd (ground (arith, h)))
        (λ some_rules h. (
          some_rules,
          listed-perform (Edit.import_rules rules) rules io d c v m refl some_rules refl a p k
              (rw (a, b, p) refl)
              (stored-ok (perform y to_value (Edit.import_rules rules) io d).0 (ok tt) h),
        ))
