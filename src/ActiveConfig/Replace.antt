-- ===== src/ActiveConfig/Replace.antt =====
-- `ActiveConfigStore::replace_from_profile` and `extract_user_overrides` in active_config.rs.
pub mod Overlay
pub mod Spec
use control_tower.Prelude.{
  ℕ, String, Bool, true, false, Option, none, some, List, [], ◌∷◌, ◌++◌, ◌||◌, map_or, and_then,
  if◌then◌else◌, str_eq, unwrap_or, length, reverse, any,
}
use control_tower.Yaml.{Yaml}
use control_tower.ActiveConfig.{
  Error, io_error, yaml_error, Result, ok, err, ◌>>=◌, or_fail, Disk, Io, PortOverrides, parse,
  get_key, with_mapping, rules_of, create_rules, change_rules,
}
use control_tower.ActiveConfig.Edit.{store}

-- The keys that are taken from the old configuration.
abbrev pub override_keys : List String
override_keys =
    "mode" ∷ "mixed-port" ∷ "redir-port" ∷ "tproxy-port" ∷ "log-level" ∷ "dns" ∷ "socks-port"
    ∷ "http-port" ∷ "external-controller" ∷ "tun" ∷ []

-- The keys that are not written from the old configuration.
unfoldable pub skipped : String → Bool
skipped k =
    any (str_eq k)
      ("rules" ∷ "mixed-port" ∷ "socks-port" ∷ "http-port" ∷ "external-controller" ∷ [])

module _ (y : Yaml) where
  open y use {
    Content, Value, Mapping, from_str, as_mapping, get, insert, entries, new, string, number,
  }

  unfoldable pub pick : Mapping → List String → Mapping → Mapping
  pick m [] acc = acc
  pick m (k ∷ ks) acc = pick m ks (map_or (get k m) acc (λ v. insert k v acc))

  unfoldable pub extract_user_overrides : Content → Mapping
  unfolding pick
  extract_user_overrides c =
      map_or (and_then (from_str c) as_mapping) new (λ m. pick m override_keys new)

  -- The overrides of the configuration that is there, with none if it cannot be read.
  unfoldable pub user_overrides : Io y → Disk y → Mapping
  unfolding extract_user_overrides
  user_overrides io d =
      map_or d.active new (λ c. if io.readable then extract_user_overrides c else new)

  abbrev pub set_port : String → Option Value → Mapping → Mapping
  set_port k none m = m
  set_port k (some v) m = insert k v m

  abbrev pub option_number : Option ℕ → Option Value
  option_number p = and_then p (λ n. some (number n))

  unfoldable pub set_ports : PortOverrides → Mapping → Mapping
  set_ports p m =
      set_port "external-controller" (and_then p.external_controller (λ s. some (string s))) (
        set_port "http-port" (option_number p.http_port) (
          set_port "socks-port" (option_number p.socks_port)
            (set_port "mixed-port" (option_number p.mixed_port) m)))

  unfoldable pub overlay : List (String × Value) → Mapping → Mapping
  overlay [] m = m
  overlay ((k, v) ∷ es) m = overlay es (if skipped k then m else insert k v m)

  -- `for rule in custom_rules.iter().rev() { rules.insert(0, …) }`, on the reversed rules.
  unfoldable pub insert_front : List String → List Value → List Value
  insert_front [] xs = xs
  insert_front (r ∷ rs) xs = insert_front rs (string r ∷ xs)

  -- The rules are left alone where they are no array.
  unfoldable pub add_custom : List String → Value → Value
  unfolding insert_front change_rules create_rules
  add_custom custom v = elim (change_rules y (insert_front (reverse custom)) v) [
    | ok w ↦ w
    | err e ↦ create_rules y v
  ]

  unfoldable pub generated : Mapping → List String → PortOverrides → Value → Value
  unfolding set_ports overlay add_custom
  generated overrides custom ports v =
      add_custom custom
        (with_mapping y (overlay (entries overrides)) (with_mapping y (set_ports ports) v))

  -- The number of rules of the profile, and what is stored.
  unfoldable pub from_profile :
      Option Content → List String → PortOverrides → Io y → Disk y → Result (ℕ × Value)
  unfolding generated user_overrides
  from_profile profile custom ports io d = or_fail profile io_error >>= λ c. parse y c >>= λ v.
      ok (length (unwrap_or (rules_of y v) []), generated (user_overrides io d) custom ports v)

  unfoldable pub replace_from_profile :
      Option Content → List String → PortOverrides → Io y → Disk y → Result ℕ × Disk y
  unfolding from_profile store
  replace_from_profile profile custom ports io d =
      store y io d (from_profile profile custom ports io d)
