-- ===== src/ActiveConfig/Rules.antt =====
-- What the methods of `ActiveConfigStore` make of the rules of a configuration.
use control_tower.Prelude.{
  ◌-◌, String, ◌≡◌, ◌≢◌, refl, sym, ap, ◌∙◌, subst, Bool, true, false, not, none, some, List, [],
  ◌∷◌, ◌++◌, ◌⊎◌, inl, inr, arith, Option-cases, Bool-cases, unwrap_or, and_then, retain, length,
  drop, ◌==◌, eq_iff, str_eq, if◌then◌else◌,
}
use control_tower.Profiles.{RuleProviderConfig}
use control_tower.Yaml.{Yaml}
use control_tower.ActiveConfig.{
  Disk, Io, Result, ok, err, ◌>>=◌, or_fail, not_array, get_key, with_mapping, create_rules,
  rules_of, put_rules, change_rules, remove_content, cleared, merged_rules, texts, strings, is_text,
}
use control_tower.ActiveConfig.Edit.{
  Edit, edited, perform, target, source, parsed, is_noop, unit_edit, append_rule, prepend_rule,
  remove_rule_by_content, clear_rules, import_rules, merge_rules_with_custom, set_mode,
  set_rule_providers, remove_rule_provider,
}
use control_tower.ActiveConfig.Atomic.{Holds, perform-Ends, Ends-ok, ok-injective}

module _ (y : Yaml) where
  open y use {
    Value, Mapping, as_sequence, as_mapping, as_sequence-sequence, as_sequence-put, as_mapping-put,
    get, insert, get-insert, put_mapping,
  }

  -- w is v with the rules xs, and otherwise the same keys.
  unfoldable pub Changes : Value → List Value → Value → Type 0
  Changes v xs w =
      (rules_of y w ≡ some xs) × ((k : String) → k ≢ "rules" → get_key y k w ≡ get_key y k v)

  pub get_key-with_mapping :
      (j k : String) (x v : Value) (m : Mapping)
      → as_mapping v ≡ some m
      → get_key y j (with_mapping y (insert k x) v) ≡ (if str_eq k j then some x else get_key y j v)
  get_key-with_mapping j k x v m h =
      rw (h, as_mapping-put v m (insert k x m) h, get-insert k j x m) refl

  rules_differ : (k : String) → k ≢ "rules" → str_eq "rules" k ≡ false
  rules_differ k h = ground (arith, h, eq_iff "rules" k)

  pub with_rules-Changes :
      (x v : Value) (xs : List Value) (m : Mapping)
      → as_mapping v ≡ some m
      → as_sequence x ≡ some xs
      → Changes v xs (with_mapping y (insert "rules" x) v)
  unfolding Changes
  with_rules-Changes x v xs m h e = (
    rw (get_key-with_mapping "rules" "rules" x v m h) e,
    λ k n. rw (get_key-with_mapping k "rules" x v m h, rules_differ k n) refl,
  )

  put_rules-Changes :
      (v : Value) (xs ys : List Value) (m : Mapping)
      → as_mapping v ≡ some m
      → rules_of y v ≡ some xs
      → Changes v ys (put_rules y v ys)
  put_rules-Changes v xs ys m h e = elim (Option-cases (get_key y "rules" v)) [
    | inl n ↦ ground arith
    | inr (r, n) ↦ rw n (
        with_rules-Changes (y.put_sequence r ys) v ys m h
          (as_sequence-put r xs ys (sym (ap (λ o. and_then o as_sequence) n) ∙ e)))
  ]

  Changes-trans :
      (u v w : Value) (xs ys : List Value) → Changes u xs v → Changes v ys w → Changes u ys w
  unfolding Changes
  Changes-trans u v w xs ys p q = (q.0, λ k n. q.1 k n ∙ p.1 k n)

  -- The rules of a configuration, with none for a missing key.
  abbrev pub rule_list : Value → List Value
  rule_list v = unwrap_or (rules_of y v) []

  change_lem :
      (f : List Value → List Value) (u w : Value) (m : Mapping)
      → as_mapping u ≡ some m
      → (or_fail (rules_of y u) not_array >>= (λ xs. ok (put_rules y u (f xs)))) ≡ ok w
      → Changes u (f (rule_list u)) w
  change_lem f u w m h r = elim (Option-cases (rules_of y u)) [
    | inl n ↦ ground arith
    | inr (xs, n) ↦
        let t : ok (put_rules y u (f xs)) ≡ ok w =
          sym (ap (λ o. or_fail o not_array >>= (λ xs. ok (put_rules y u (f xs)))) n) ∙ r in
        rw n (
          subst (Changes u (f xs)) (ok-injective y (put_rules y u (f xs)) w t)
            (put_rules-Changes u xs (f xs) m h n))
  ]

  create_rules-Changes :
      (v : Value) (m : Mapping)
      → as_mapping v ≡ some m
      → (create_rules y v ≡ v)
        ⊎ ((rules_of y v ≡ none)
            × (as_mapping (create_rules y v) ≡ some (insert "rules" (y.sequence []) m))
            × Changes v [] (create_rules y v))
  unfolding create_rules
  create_rules-Changes v m h = elim (Option-cases (get_key y "rules" v)) [
    | inr (r, n) ↦ inl (rw n refl)
    | inl n ↦ inr (
        rw n (
          refl,
          rw h (as_mapping-put v m (insert "rules" (y.sequence []) m) h),
          with_rules-Changes (y.sequence []) v [] m h (as_sequence-sequence []),
        ))
  ]

  pub change_rules-Changes :
      (f : List Value → List Value) (v w : Value) (m : Mapping)
      → as_mapping v ≡ some m
      → change_rules y f v ≡ ok w
      → Changes v (f (rule_list v)) w
  unfolding change_rules Changes
  change_rules-Changes f v w m h r = elim (create_rules-Changes v m h) [
    | inl e ↦ change_lem f v w m h (
        sym (ap (λ u. or_fail (rules_of y u) not_array >>= (λ xs. ok (put_rules y u (f xs)))) e)
        ∙ r)
    | inr (n, k, c) ↦
        let q : Changes (create_rules y v) (f []) w =
          subst (λ xs. Changes (create_rules y v) (f xs) w) (ap (λ o. unwrap_or o []) (c.0))
            (change_lem f (create_rules y v) w (insert "rules" (y.sequence []) m) k r) in
        rw n (Changes-trans v (create_rules y v) w [] (f []) c q)
  ]

  remove_content-Changes :
      (rule : String) (v w : Value) (m : Mapping)
      → as_mapping v ≡ some m
      → remove_content y rule v ≡ ok w
      → Changes v (retain (λ x. not (is_text y rule x)) (rule_list v)) w
  unfolding remove_content
  remove_content-Changes rule v w m h = elim (Option-cases (rules_of y v)) [
    | inl n ↦ rw n (λ r. ground arith)
    | inr (xs, n) ↦
        let kept : List Value = retain (λ x. not (is_text y rule x)) xs in
        elim (Bool-cases (length kept == length xs)) [
          | inl k ↦ rw (n, k) (λ r. ground arith)
          | inr k ↦
              rw (n, k)
                (λ r.
                  subst (Changes v kept) (ok-injective y (put_rules y v kept) w r)
                    (put_rules-Changes v xs kept m h n))
        ]
  ]

  -- The rules after a change, from those before.
  unfoldable pub rules_after : Edit → List Value → List Value
  rules_after (append_rule rule) xs = xs ++ y.string rule ∷ []
  rules_after (prepend_rule rule) xs = y.string rule ∷ xs
  rules_after (remove_rule_by_content rule) xs = retain (λ x. not (is_text y rule x)) xs
  rules_after clear_rules xs = []
  rules_after (import_rules rules) xs = xs ++ strings y rules
  rules_after (merge_rules_with_custom n custom) xs =
      strings y custom ++ strings y (drop (length (texts y xs) - n) (texts y xs))
  rules_after _ xs = xs

  -- The methods that change rules.
  abbrev pub edits_rules : Edit → Bool
  edits_rules (set_mode mode) = false
  edits_rules (set_rule_providers ps) = false
  edits_rules (remove_rule_provider name) = false
  edits_rules _ = true

  cleared_lem :
      (v : Value) (m : Mapping)
      → as_mapping v ≡ some m
      → with_mapping y (insert "rules" (y.sequence [])) v ≡ cleared y v
  unfolding cleared
  cleared_lem v m h = rw h refl

  pub edited-Changes :
      (to_value : RuleProviderConfig → Value) (e : Edit) (v w : Value) (m : Mapping)
      → edits_rules e ≡ true
      → as_mapping v ≡ some m
      → edited y to_value e v ≡ ok w
      → Changes v (rules_after e (rule_list v)) w
  unfolding edited rules_after merged_rules
  edited-Changes to_value (append_rule rule) v w m b h r =
      change_rules-Changes (λ xs. xs ++ y.string rule ∷ []) v w m h r
  edited-Changes to_value (prepend_rule rule) v w m b h r =
      change_rules-Changes (λ xs. y.string rule ∷ xs) v w m h r
  edited-Changes to_value (import_rules rules) v w m b h r =
      change_rules-Changes (λ xs. xs ++ strings y rules) v w m h r
  edited-Changes to_value (remove_rule_by_content rule) v w m b h r =
      remove_content-Changes rule v w m h r
  edited-Changes to_value clear_rules v w m b h r =
      subst (Changes v [])
        (ok-injective y (with_mapping y (insert "rules" (y.sequence [])) v) w
          (ap ok (cleared_lem v m h) ∙ r))
        (with_rules-Changes (y.sequence []) v [] m h (as_sequence-sequence []))
  edited-Changes to_value (merge_rules_with_custom n custom) v w m b h r =
      let xs : List Value = merged_rules y n custom v in
      subst (Changes v xs) (ok-injective y (with_mapping y (insert "rules" (y.sequence xs)) v) w r)
        (with_rules-Changes (y.sequence xs) v xs m h (as_sequence-sequence xs))
  edited-Changes to_value _ v w m b h r = ground arith

  unit_edit_lem : (r : Result Value) (w : Value) → unit_edit y r ≡ ok (tt, w) → r ≡ ok w
  unit_edit_lem (ok v) w q = ap (λ r. r >>= (λ p. ok (p.1))) q
  unit_edit_lem (err x) w q = ground arith

  pub target_lem :
      (to_value : RuleProviderConfig → Value) (e : Edit) (s : Result y.Content) (v w : Value)
      → (s >>= parsed y e) ≡ ok v
      → unit_edit y (s >>= (λ c. parsed y e c >>= (λ v. edited y to_value e v))) ≡ ok (tt, w)
      → edited y to_value e v ≡ ok w
  target_lem to_value e (err x) v w p q = ground arith
  target_lem to_value e (ok c) v w p q =
      unit_edit_lem (edited y to_value e v) w
        (sym (ap (λ r. unit_edit y (r >>= edited y to_value e)) p) ∙ q)

  -- A method that changes the rules, that has work to do, reads a mapping and returns Ok, leaves a
  -- file that parses to a configuration with the rules that the method stands for and all other
  -- keys as they were, and no temporary file.
  pub perform-Changes :
      (to_value : RuleProviderConfig → Value) (e : Edit) (io : Io y) (d : Disk y) (v : Value)
      (m : Mapping)
      → edits_rules e ≡ true
      → is_noop y e ≡ false
      → (source y e io d.active >>= parsed y e) ≡ ok v
      → as_mapping v ≡ some m
      → (perform y to_value e io d).0 ≡ ok tt
      → (w : Value) × Holds y w (perform y to_value e io d).1
        × Changes v (rules_after e (rule_list v)) w
  perform-Changes to_value e io d v m b n p h k =
      let (w, t, holds) =
        Ends-ok y io (target y to_value e io d) d (perform y to_value e io d).1 tt
          (perform y to_value e io d).0 (perform-Ends y to_value e io d n) k in
      (
        w,
        holds,
        edited-Changes to_value e v w m b h
            (target_lem to_value e (source y e io d.active) v w p t),
      )
