-- ===== src/ActiveConfig/Replace/Spec.antt =====
-- What `ActiveConfigStore::replace_from_profile` leaves in config.yaml.
use control_tower.Prelude.{
  String, ◌≡◌, ◌≢◌, refl, sym, ap, ◌∙◌, subst, true, some, List, [], ◌∷◌, ◌++◌, map_or, and_then,
  if◌then◌else◌, unwrap_or, or_else, length, reverse, Option-cases, inl, inr, arith, append_assoc,
  map-append, reverse-reverse, reverse-append, is_some,
}
use control_tower.Yaml.{Yaml}
use control_tower.ActiveConfig.{
  ok, ◌>>=◌, or_fail, not_array, Disk, Io, PortOverrides, get_key, with_mapping, rules_of,
  put_rules, create_rules, change_rules, strings,
}
use control_tower.ActiveConfig.Atomic.{Ends, store-Ends}
use control_tower.ActiveConfig.Rules.{Changes, with_rules-Changes, rule_list, change_rules-Changes}
use control_tower.ActiveConfig.Replace.{
  skipped, extract_user_overrides, user_overrides, set_ports, overlay, insert_front, add_custom,
  generated, from_profile, replace_from_profile,
}
use control_tower.ActiveConfig.Replace.Overlay.{
  survives, key_in, port_value, get-overlay, get-set_ports,
}

module _ (y : Yaml) where
  open y use {
    Content, Value, Mapping, from_str, as_mapping, as_sequence, get, insert, entries, new, string,
    as_mapping-put, as_mapping-mapping,
  }

  insert_front_lem :
      (rs : List String) (xs : List Value) → insert_front y rs xs ≡ strings y (reverse rs) ++ xs
  unfolding insert_front
  insert_front_lem [] xs = refl
  insert_front_lem (r ∷ rs) xs =
      insert_front_lem rs (string r ∷ xs)
      ∙ (sym (append_assoc (strings y (reverse rs)) (string r ∷ []) xs)
          ∙ ap (λ t. t ++ xs)
              (sym (map-append string (reverse rs) (r ∷ []))
                ∙ ap (strings y) (sym (reverse-append (r ∷ []) rs))))

  -- The rules are an array, or there are none yet.
  abbrev pub HasRules : Value → Type 0
  HasRules v = map_or (get_key y "rules" v) true (λ r. is_some (as_sequence r)) ≡ true

  create_rules-rules_of :
      (v : Value) (m : Mapping)
      → as_mapping v ≡ some m
      → HasRules v
      → (xs : List Value) × (rules_of y (create_rules y v) ≡ some xs)
  unfolding create_rules Changes
  create_rules-rules_of v m h r = elim (Option-cases (get_key y "rules" v)) [
    | inl n ↦
        ([], rw n (with_rules-Changes y (y.sequence []) v [] m h (y.as_sequence-sequence [])).0)
    | inr (a, n) ↦ elim (Option-cases (as_sequence a)) [
      | inl e ↦ ground arith
      | inr (xs, e) ↦ (xs, rw n (ap (λ o. and_then o as_sequence) n ∙ e))
    ]
  ]

  change_rules-ok :
      (f : List Value → List Value) (v : Value) (m : Mapping)
      → as_mapping v ≡ some m
      → HasRules v
      → (w : Value) × (change_rules y f v ≡ ok w)
  unfolding change_rules
  change_rules-ok f v m h r =
      let (xs, e) = create_rules-rules_of v m h r in
      (
        put_rules y (create_rules y v) (f xs),
        ap (λ o. or_fail o not_array >>= (λ xs. ok (put_rules y (create_rules y v) (f xs)))) e,
      )

  -- w is the profile v under the old configuration c, the custom rules and the ports of the
  -- settings: a key has the value of the old configuration if it survives and has one, else that
  -- of the settings, else that of the profile; and the custom rules stand before the profile's.
  unfoldable pub Generated : Content → List String → PortOverrides → Value → Value → Type 0
  Generated c custom ports v w =
      ((k : String)
        → k ≢ "rules"
        → get_key y k w ≡ (
            let rest = or_else (port_value y ports k) (get_key y k v) in
            if survives y k then or_else (key_in y c k) rest else rest))
      × (rules_of y w ≡ some (strings y custom ++ rule_list y v))

  with_mapping_lem :
      (f : Mapping → Mapping) (v : Value) (m : Mapping)
      → as_mapping v ≡ some m
      → as_mapping (with_mapping y f v) ≡ some (f m)
  with_mapping_lem f v m h = rw h (as_mapping-put v m (f m) h)

  -- The configuration before the custom rules are added.
  abbrev overlaid : Content → PortOverrides → Value → Value
  overlaid c ports v =
      with_mapping y (overlay y (entries (extract_user_overrides y c)))
        (with_mapping y (set_ports y ports) v)

  overlaid-mapping :
      (c : Content) (ports : PortOverrides) (v : Value) (m : Mapping)
      → as_mapping v ≡ some m
      → as_mapping (overlaid c ports v)
        ≡ some (overlay y (entries (extract_user_overrides y c)) (set_ports y ports m))
  overlaid-mapping c ports v m h =
      with_mapping_lem (overlay y (entries (extract_user_overrides y c)))
        (with_mapping y (set_ports y ports) v) (set_ports y ports m)
        (with_mapping_lem (set_ports y ports) v m h)

  get_key-overlaid :
      (c : Content) (ports : PortOverrides) (v : Value) (m : Mapping) (k : String)
      → as_mapping v ≡ some m
      → get_key y k (overlaid c ports v) ≡ (
          let rest = or_else (port_value y ports k) (get_key y k v) in
          if survives y k then or_else (key_in y c k) rest else rest)
  get_key-overlaid c ports v m k h =
      ap (λ o. and_then o (get k)) (overlaid-mapping c ports v m h)
      ∙ (get-overlay y k c (set_ports y ports m) ∙ rw (get-set_ports y k ports m, h) refl)

  add_custom-ok :
      (custom : List String) (u w : Value)
      → change_rules y (insert_front y (reverse custom)) u ≡ ok w
      → add_custom y custom u ≡ w
  unfolding add_custom
  add_custom-ok custom u w h = rw (add_custom, h) refl

  rules-overlaid :
      (c : Content) (ports : PortOverrides) (v : Value) (m : Mapping)
      → as_mapping v ≡ some m
      → get_key y "rules" (overlaid c ports v) ≡ get_key y "rules" v
  unfolding survives skipped port_value
  rules-overlaid c ports v m h = get_key-overlaid c ports v m "rules" h

  front_lem :
      (custom : List String) (xs : List Value)
      → insert_front y (reverse custom) xs ≡ strings y custom ++ xs
  front_lem custom xs =
      insert_front_lem (reverse custom) xs ∙ ap (λ rs. strings y rs ++ xs) (reverse-reverse custom)

  generated-Generated :
      (c : Content) (custom : List String) (ports : PortOverrides) (v : Value) (m : Mapping)
      → as_mapping v ≡ some m
      → HasRules v
      → Generated c custom ports v (generated y (extract_user_overrides y c) custom ports v)
  unfolding generated Generated Changes
  generated-Generated c custom ports v m h r =
      let u : Value = overlaid c ports v in
      let f : List Value → List Value = insert_front y (reverse custom) in
      let e : get_key y "rules" u ≡ get_key y "rules" v = rules-overlaid c ports v m h in
      let mu : as_mapping u
          ≡ some (overlay y (entries (extract_user_overrides y c)) (set_ports y ports m)) =
        overlaid-mapping c ports v m h in
      let (w, ok_w) =
        change_rules-ok f u (overlay y (entries (extract_user_overrides y c)) (set_ports y ports m))
          mu (ap (λ o. map_or o true (λ r. is_some (as_sequence r))) e ∙ r) in
      let ch : Changes y u (f (rule_list y u)) w =
        change_rules-Changes y f u w
          (overlay y (entries (extract_user_overrides y c)) (set_ports y ports m)) mu ok_w in
      rw (add_custom-ok custom u w ok_w) (
        λ k n. ch.1 k n ∙ get_key-overlaid c ports v m k h,
        ch.0
            ∙ ap some (
                front_lem custom (rule_list y u)
                ∙ ap (λ o. strings y custom ++ unwrap_or (and_then o as_sequence) []) e),
      )

  user_overrides_lem :
      (c : Content) (io : Io y) (d : Disk y)
      → d.active ≡ some c
      → io.readable ≡ true
      → user_overrides y io d ≡ extract_user_overrides y c
  unfolding user_overrides
  user_overrides_lem c io d a b = rw (a, b) refl

  from_profile_lem :
      (p c : Content) (custom : List String) (ports : PortOverrides) (io : Io y) (d : Disk y)
      (v : Value)
      → from_str p ≡ some v
      → d.active ≡ some c
      → io.readable ≡ true
      → from_profile y (some p) custom ports io d
        ≡ ok (length (rule_list y v), generated y (extract_user_overrides y c) custom ports v)
  unfolding from_profile
  from_profile_lem p c custom ports io d v e a b = rw e (
      ap (λ m. ok (length (rule_list y v), generated y m custom ports v))
        (user_overrides_lem c io d a b))

  -- With a profile that is a mapping with an array of rules, or none, and a configuration that can
  -- be read, the call ends with the generated configuration in the file and the number of the
  -- profile's rules as its result, or with an error of the printer or the disk and the file as it
  -- was.
  pub replace_from_profile-Generated :
      (p c : Content) (custom : List String) (ports : PortOverrides) (io : Io y) (d : Disk y)
      (v : Value) (m : Mapping)
      → from_str p ≡ some v
      → as_mapping v ≡ some m
      → HasRules v
      → d.active ≡ some c
      → io.readable ≡ true
      → (w : Value) × Generated c custom ports v w
        × Ends y io
            (ok (length (rule_list y v), w))
            d
            (replace_from_profile y (some p) custom ports io d).0
            (replace_from_profile y (some p) custom ports io d).1
  unfolding replace_from_profile
  replace_from_profile-Generated p c custom ports io d v m e h r a b =
      let w : Value = generated y (extract_user_overrides y c) custom ports v in
      (
        w,
        generated-Generated c custom ports v m h r,
        subst
            (λ r.
              Ends y io r d (replace_from_profile y (some p) custom ports io d).0
                (replace_from_profile y (some p) custom ports io d).1)
            (from_profile_lem p c custom ports io d v e a b)
            (store-Ends y io d (from_profile y (some p) custom ports io d)),
      )
