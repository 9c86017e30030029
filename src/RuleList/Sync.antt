-- ===== src/RuleList/Sync.antt =====
-- settings.yaml and config.yaml under the handlers of rules_handlers.rs: what it means that they
-- hold the same custom rules. The number of profile rules in settings.yaml is no part of it: an
-- activation stores it, and a refresh or an update of the profile may leave it behind.
use control_tower.Prelude.{
  ℕ, ◌+◌, ◌-◌, ◌<◌, min, ◌↔◌, drop, length-drop, String, ◌≡◌, refl, ap, ◌∙◌, true, false, Option,
  some, List, [], ◌∷◌, ◌++◌, unwrap_or, str_eq, length, take, any, get_elem?, remove_at, arith, suc,
  drop-append, length-append, All, eq_refl, ◌==◌, leb, ◌||◌, lt→ltb,
}
use control_tower.RuleList.{
  RuleFiles, Response, added, removed, custom, Entry, first_profile_rule, detect_in,
  detect_custom_count_from_profile, current_file, stored, merge, write_both, add_rule,
  remove_custom, delete_rule, clear_rules, clear_config, cleared,
}

-- The custom rules are stored in settings.yaml and stand before the profile's in config.yaml.
unfoldable pub IsSynced : List String → List String → RuleFiles → Type 0
IsSynced rules profile_rules fs =
    (fs.custom_rules ≡ stored rules) × (fs.config_rules ≡ rules ++ profile_rules)

merge_lem :
    (new old profile_rules : List String)
    → merge (length profile_rules) new (old ++ profile_rules) ≡ new ++ profile_rules
unfolding merge
merge_lem new old profile_rules =
    let e : length (old ++ profile_rules) - length profile_rules ≡ length old =
      omega (arith, length-append old profile_rules) in
    rw e (ap (λ rs. new ++ rs) (drop-append old profile_rules))

stored_lem : (rules : List String) → unwrap_or (stored rules) [] ≡ rules
stored_lem [] = refl
stored_lem (r ∷ rs) = refl

write_both-IsSynced :
    (new old profile_rules : List String) (n : ℕ) (response : Response) (fs : RuleFiles)
    → IsSynced old profile_rules fs
    → n ≡ length profile_rules
    → ((write_both true true n new response fs).0 ≡ response)
      × IsSynced new profile_rules (write_both true true n new response fs).1
      × ((write_both true true n new response fs).1.profile_rules_count ≡ fs.profile_rules_count)
unfolding write_both IsSynced
write_both-IsSynced new old profile_rules n response fs s e = (
  refl,
  (
    refl,
    ap (λ k. merge k new fs.config_rules) e
        ∙ (ap (merge (length profile_rules) new) s.1 ∙ merge_lem new old profile_rules),
  ),
  refl,
)

add_known :
    (proxies : List String) (proxy rule : String) (fs : RuleFiles)
    → any (λ n. str_eq n proxy) proxies ≡ true
    → add_rule true true proxies proxy rule fs
      ≡ write_both true true
          (unwrap_or fs.profile_rules_count 0)
          (unwrap_or fs.custom_rules [] ++ rule ∷ [])
          (added rule)
          fs
unfolding add_rule
add_known [] proxy rule fs known = ground arith
add_known (p ∷ ps) proxy rule fs known = rw known refl

-- A merge keeps the profile's rules exactly if the count names as many of the rules as they are.
merge-count :
    (n : ℕ) (new old profile_rules : List String)
    → (merge n new (old ++ profile_rules) ≡ new ++ profile_rules)
      ↔ (min n (length old + length profile_rules) ≡ length profile_rules)
unfolding merge
merge-count n new old profile_rules =
    let all : List String = old ++ profile_rules in
    let total : length all ≡ length old + length profile_rules = length-append old profile_rules in
    (
      λ e. omega (
        arith,
        total,
        ap length e,
        length-append new (drop (length all - n) all),
        length-append new profile_rules,
        length-drop (length all - n) all,
      ),
      λ e.
          let skipped : length all - n ≡ length old = omega (arith, total, e) in
          rw skipped (ap (λ rs. new ++ rs) (drop-append old profile_rules)),
    )

-- The number of profile rules that settings.yaml gives.
abbrev pub counted : RuleFiles → ℕ
counted fs = unwrap_or fs.profile_rules_count 0

-- From files that are in step, with no condition on the number of profile rules in settings.yaml,
-- adding a rule for a proxy that is known, with both files written, answers with the rule, stores it
-- after the other custom rules in settings.yaml and leaves that number as it was; and the files are
-- then in step, with the profile's rules as they were, exactly if that number, 0 if it is not
-- there, or the number of all rules of config.yaml if it is less, is that of the profile's rules.
pub add_rule-IsSynced :
    (proxies : List String) (proxy rule : String) (rules profile_rules : List String)
    (fs : RuleFiles)
    → any (λ n. str_eq n proxy) proxies ≡ true
    → IsSynced rules profile_rules fs
    → ((add_rule true true proxies proxy rule fs).0 ≡ added rule)
      × ((add_rule true true proxies proxy rule fs).1.custom_rules ≡ stored (rules ++ rule ∷ []))
      × ((add_rule true true proxies proxy rule fs).1.profile_rules_count ≡ fs.profile_rules_count)
      × (IsSynced (rules ++ rule ∷ []) profile_rules (add_rule true true proxies proxy rule fs).1
          ↔ (min (counted fs) (length rules + length profile_rules) ≡ length profile_rules))
unfolding IsSynced write_both
add_rule-IsSynced proxies proxy rule rules profile_rules fs known s =
    let e : unwrap_or fs.custom_rules [] ≡ rules =
      ap (λ o. unwrap_or o []) s.0 ∙ stored_lem rules in
    let m = merge-count (counted fs) (rules ++ rule ∷ []) rules profile_rules in
    rw (add_known proxies proxy rule fs known, e, s.1)
      (refl, refl, refl, (λ h. m.0 h.1, λ h. (refl, m.1 h)))

first_profile_rule_lem :
    (rules : List String) (p : String) (ps : List String) (i : ℕ)
    → All (λ r. any (λ q. str_eq q r) (p ∷ ps) ≡ false) rules
    → first_profile_rule (p ∷ ps) i (rules ++ p ∷ ps) ≡ i + length rules
unfolding first_profile_rule
first_profile_rule_lem [] p ps i h = rw (eq_refl p) (omega arith)
first_profile_rule_lem (r ∷ rules) p ps i h =
    rw h.0 (first_profile_rule_lem rules p ps (suc i) h.1 ∙ omega arith)

-- When the active profile's file is found and has rules, none of them a custom rule, the number of
-- custom rules before them is detected.
detect_custom_count_from_profile-length :
    (uid file : String) (es : List Entry) (rules_in : String → Option (List String))
    (rules : List String) (p : String) (ps : List String)
    → current_file uid es ≡ some file
    → rules_in file ≡ some (p ∷ ps)
    → All (λ r. any (λ q. str_eq q r) (p ∷ ps) ≡ false) rules
    → detect_custom_count_from_profile (some uid) (some es) rules_in (rules ++ p ∷ ps)
      ≡ length rules
unfolding detect_custom_count_from_profile detect_in
detect_custom_count_from_profile-length uid file es rules_in rules p ps f r h =
    rw (f, r) (first_profile_rule_lem rules p ps 0 h ∙ omega arith)

current_custom :
    (rules profile_rules : List String)
    → unwrap_or (stored rules) (take (length rules) (rules ++ profile_rules)) ≡ rules
current_custom [] profile_rules = refl
current_custom (r ∷ rs) profile_rules = refl

delete_valid :
    (index : ℕ) (rules profile_rules : List String) (fs : RuleFiles)
    → index < length rules
    → IsSynced rules profile_rules fs
    → delete_rule true true (length rules) custom index fs
      ≡ write_both true true
          (length fs.config_rules - length rules)
          (remove_at index rules)
          (removed (get_elem? rules index))
          fs
unfolding delete_rule remove_custom IsSynced
delete_valid index rules profile_rules fs h s =
    let valid : (length rules == 0 || leb (length rules) index) ≡ false = ground arith in
    let current : unwrap_or fs.custom_rules (take (length rules) fs.config_rules) ≡ rules =
      ap (λ o. unwrap_or o (take (length rules) fs.config_rules)) s.0
      ∙ (ap (λ rs. unwrap_or (stored rules) (take (length rules) rs)) s.1
          ∙ current_custom rules profile_rules) in
    rw (valid, current, lt→ltb index (length rules) h) refl

-- From files that are in step, deleting a custom rule by its position, with both files written,
-- answers with the rule and gives files in step without it, with the same rules of the profile and
-- the number of them in settings.yaml as it was, whatever that is, when the detected number of custom
-- rules is theirs.
pub delete_rule-IsSynced :
    (index : ℕ) (rules profile_rules : List String) (fs : RuleFiles)
    → index < length rules
    → IsSynced rules profile_rules fs
    → ((delete_rule true true (length rules) custom index fs).0 ≡ removed (get_elem? rules index))
      × IsSynced
          (remove_at index rules)
          profile_rules
          (delete_rule true true (length rules) custom index fs).1
      × ((delete_rule true true (length rules) custom index fs).1.profile_rules_count
          ≡ fs.profile_rules_count)
unfolding IsSynced
delete_rule-IsSynced index rules profile_rules fs h s =
    let n : length fs.config_rules - length rules ≡ length profile_rules =
      ap (λ rs. length rs - length rules) s.1 ∙ omega (arith, length-append rules profile_rules) in
    rw (delete_valid index rules profile_rules fs h s) (
      write_both-IsSynced (remove_at index rules) rules profile_rules
        (length fs.config_rules - length rules) (removed (get_elem? rules index)) fs s n)

-- From files that are in step, clearing the custom rules, with a config.yaml that is there, all
-- writes made and the number of custom rules detected right, leaves files in step without custom
-- rules.
clear_rules-IsSynced :
    (rules profile_rules : List String) (fs : RuleFiles)
    → IsSynced rules profile_rules fs
    → ((clear_rules true true true true (length rules) custom fs).0 ≡ cleared)
      × IsSynced [] profile_rules (clear_rules true true true true (length rules) custom fs).1
unfolding clear_rules clear_config write_both IsSynced
clear_rules-IsSynced [] profile_rules fs s = (refl, (refl, s.1))
clear_rules-IsSynced (r ∷ rs) profile_rules fs s =
    let n : length fs.config_rules - length (r ∷ rs) ≡ length profile_rules =
      ap (λ l. length l - length (r ∷ rs)) s.1
      ∙ omega (arith, length-append (r ∷ rs) profile_rules) in
    let some_rules : (length (r ∷ rs) == 0) ≡ false = ground arith in
    rw some_rules (
      refl,
      (
        refl,
        ap (λ k. merge k [] fs.config_rules) n
            ∙ (ap (merge (length profile_rules) []) s.1 ∙ merge_lem [] (r ∷ rs) profile_rules),
      ),
    )
