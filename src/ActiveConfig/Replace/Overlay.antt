-- ===== src/ActiveConfig/Replace/Overlay.antt =====
-- Which value a key has after `ActiveConfigStore::replace_from_profile`.
use control_tower.Prelude.{
  String, ◌≡◌, refl, sym, ap, ◌∙◌, Bool, true, false, not, Option, none, some, List, [], ◌∷◌, ◌++◌,
  ◌&&◌, map_or, and_then, if◌then◌else◌, str_eq, or_else, any, Option-cases, Bool-cases, inl, inr,
  eq_iff, arith, append-nil, append_assoc,
}
use control_tower.Yaml.{Yaml}
use control_tower.ActiveConfig.{PortOverrides}
use control_tower.ActiveConfig.Replace.{
  override_keys, skipped, pick, extract_user_overrides, set_port, option_number, set_ports, overlay,
}

module _ (y : Yaml) where
  open y use {
    Content, Value, Mapping, from_str, as_mapping, get, insert, entries, new, string, number,
    get-insert, entries-insert, entries-new, get-new, as_mapping-put,
  }

  abbrev collected : Mapping → List String → List (String × Value)
  collected m [] = []
  collected m (k ∷ ks) = let rest = collected m ks in map_or (get k m) rest (λ v. (k, v) ∷ rest)

  abbrev distinct : List String → Bool
  distinct [] = true
  distinct (k ∷ ks) = let rest = distinct ks in not (any (str_eq k) ks) && rest

  overlay-collected :
      (j : String) (m n : Mapping) (ks : List String)
      → get j (overlay y (collected m ks) n)
        ≡ (if not (skipped j) && any (str_eq j) ks then or_else (get j m) (get j n) else get j n)
  unfolding overlay
  overlay-collected j m n [] = ground arith
  overlay-collected j m n (k ∷ ks) = elim (Option-cases (get k m)) [
    | inl e ↦ rw (overlay, e) (ground (arith, eq_iff j k, overlay-collected j m n ks))
    | inr (v, e) ↦ elim (Bool-cases (skipped k)) [
      | inl s ↦ rw (overlay, e, s) (ground (arith, eq_iff j k, overlay-collected j m n ks))
      | inr s ↦
          rw (overlay, e, s)
            (ground (
              arith,
              eq_iff j k,
              eq_iff k j,
              get-insert k j v n,
              overlay-collected j m (insert k v n) ks,
            ))
    ]
  ]

  entries-pick :
      (m acc : Mapping) (ks : List String)
      → distinct ks ≡ true
      → ((k : String) → any (str_eq k) ks ≡ true → get k acc ≡ none)
      → entries (pick y m ks acc) ≡ entries acc ++ collected m ks
  unfolding pick
  entries-pick m acc [] d f = sym (append-nil (entries acc))
  entries-pick m acc (k ∷ ks) d f = elim (Option-cases (get k m)) [
    | inl e ↦ rw e (entries-pick m acc ks (ground arith) (λ j h. f j (ground arith)))
    | inr (v, e) ↦ rw e (
        entries-pick m (insert k v acc) ks (ground arith)
          (λ j h. ground (arith, get-insert k j v acc, eq_iff k j, eq_iff j k, f j))
        ∙ (ap (λ es. es ++ collected m ks)
              (entries-insert k v acc (f k (ground (arith, eq_iff k k))))
            ∙ append_assoc (entries acc) ((k, v) ∷ []) (collected m ks)))
  ]

  if-same : {A : Type 0} (b : Bool) (x : A) → x ≡ (if b then x else x)
  if-same true x = refl
  if-same false x = refl

  differ : (j k i : String) → str_eq j k ≡ false → str_eq j i ≡ true → str_eq k i ≡ false
  differ j k i h e = ground (arith, eq_iff j k, eq_iff j i, eq_iff k i)

  -- The keys that keep the value of the old configuration.
  unfoldable pub survives : String → Bool
  survives j = not (skipped j) && any (str_eq j) override_keys

  -- The value of a key in the text of a configuration.
  abbrev pub key_in : Content → String → Option Value
  key_in c j = and_then (and_then (from_str c) as_mapping) (get j)

  pub get-overlay :
      (j : String) (c : Content) (n : Mapping)
      → get j (overlay y (entries (extract_user_overrides y c)) n)
        ≡ (if survives j then or_else (key_in c j) (get j n) else get j n)
  unfolding extract_user_overrides survives overlay
  get-overlay j c n = elim (Option-cases (and_then (from_str c) as_mapping)) [
    | inl e ↦ rw (e, entries-new) (if-same (survives j) (get j n))
    | inr (m, e) ↦
        rw (e, entries-pick m new override_keys refl (λ k h. get-new k), entries-new)
          (overlay-collected j m n override_keys)
  ]

  -- The value that the settings give a key.
  unfoldable pub port_value : PortOverrides → String → Option Value
  port_value p j =
      if str_eq "mixed-port" j
      then option_number y p.mixed_port
      else if str_eq "socks-port" j
      then option_number y p.socks_port
      else if str_eq "http-port" j
      then option_number y p.http_port
      else if str_eq "external-controller" j
      then and_then p.external_controller (λ s. some (string s))
      else none

  get-set_port :
      (j k : String) (o : Option Value) (n : Mapping)
      → get j (set_port y k o n) ≡ (if str_eq k j then or_else o (get j n) else get j n)
  get-set_port j k none n = if-same (str_eq k j) (get j n)
  get-set_port j k (some v) n = get-insert k j v n

  get-four :
      (j : String) (a b c d : Option Value) (n : Mapping)
      → get j (
          set_port y "external-controller" d
            (set_port y "http-port" c (set_port y "socks-port" b (set_port y "mixed-port" a n))))
        ≡ or_else
            (if str_eq "mixed-port" j
              then a
              else if str_eq "socks-port" j
              then b
              else if str_eq "http-port" j
              then c
              else if str_eq "external-controller" j
              then d
              else none)
            (get j n)
  get-four j a b c d n =
      let n1 : Mapping = set_port y "mixed-port" a n in
      let n2 : Mapping = set_port y "socks-port" b n1 in
      let n3 : Mapping = set_port y "http-port" c n2 in
      ground (
        arith,
        differ "mixed-port" "socks-port" j refl,
        differ "mixed-port" "http-port" j refl,
        differ "mixed-port" "external-controller" j refl,
        differ "socks-port" "http-port" j refl,
        differ "socks-port" "external-controller" j refl,
        differ "http-port" "external-controller" j refl,
        get-set_port j "mixed-port" a n,
        get-set_port j "socks-port" b n1,
        get-set_port j "http-port" c n2,
        get-set_port j "external-controller" d n3,
      )

  pub get-set_ports :
      (j : String) (p : PortOverrides) (n : Mapping)
      → get j (set_ports y p n) ≡ or_else (port_value p j) (get j n)
  unfolding set_ports port_value
  get-set_ports j p n =
      get-four j (option_number y p.mixed_port) (option_number y p.socks_port)
        (option_number y p.http_port) (and_then p.external_controller (λ s. some (string s))) n
