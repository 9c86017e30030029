-- ===== src/ActiveConfig.antt =====
-- crates/control-tower-service-core/src/active_config.rs: `ActiveConfigStore`, through which the
-- active Mihomo configuration config.yaml is changed. A method takes what the file system answers
-- during the call and returns its result with the files as it leaves them.
pub mod Edit
pub mod Atomic
pub mod Rules
pub mod Replace
use control_tower.Prelude.{
  ℕ, ◌+◌, ◌-◌, String, Bool, true, false, not, ◌||◌, ◌&&◌, Option, none, some, List, [], ◌∷◌, ◌++◌,
  map, str_eq, ltb, ◌==◌, if◌then◌else◌, and_then, map_or, unwrap_or, is_some, is_empty, length,
  drop, get_elem?, remove_at, retain,
}
use mathlib.Core.Option
use control_tower.Profiles.{RuleProviderConfig}
use control_tower.Yaml.{Yaml}

pub data Error : Type 0 where
  io_error yaml_error not_found not_array rule_not_found : Error
  invalid_index : ℕ → ℕ → Error

pub data Result {ℓ} (A : Type ℓ) : Type ℓ where
  ok : A → Result A
  err : Error → Result A

infixl 5 ◌>>=◌
abbrev pub ◌>>=◌ {ℓ κ} : {A : Type ℓ} {B : Type κ} → Result A → (A → Result B) → Result B
ok a >>= f = f a
err e >>= f = err e

abbrev pub or_fail {ℓ} : {A : Type ℓ} → Option A → Error → Result A
or_fail none e = err e
or_fail (some a) e = ok a

-- `PortOverrides`, which come from settings.yaml.
pub record PortOverrides : Type 0 where
  pub mixed_port : Option ℕ
  pub socks_port : Option ℕ
  pub http_port : Option ℕ
  -- `format!("{}:{}", host, port)`
  pub external_controller : Option String

module _ (y : Yaml) where
  open y use {
    Content, Value, Mapping, text, from_str, to_string, as_str, as_sequence, as_mapping,
    put_sequence, put_mapping, get, insert, remove,
  }

  -- config.yaml and the file beside it that is renamed over it.
  pub record Disk : Type 0 where
    pub active : Option Content
    pub temp : Option Content

  -- How `fs::write` to the temporary file ends: complete, or failed with something left of it.
  pub data Written : Type 0 where
    complete : Written
    failed : Option Content → Written

  -- What the file system answers during one call.
  pub record Io : Type 0 where
    pub readable : Bool
    pub written : Written
    pub renamed : Bool

  unfoldable pub rename_temp : Bool → Disk → Content → Bool × Disk
  rename_temp true d c = (true, record { active = some c; temp = none })
  rename_temp false d c = (false, record d { temp = some c })

  unfoldable pub write_temp : Written → Bool → Disk → Content → Bool × Disk
  unfolding rename_temp
  write_temp complete renamed d c = rename_temp renamed d c
  write_temp (failed left) renamed d c = (false, record d { temp = left })

  -- The new content goes to the temporary file, which is then renamed over the target.
  unfoldable pub write_atomically : Io → Disk → Content → Bool × Disk
  unfolding write_temp
  write_atomically io d c = write_temp io.written io.renamed d c

  abbrev pub read : Io → Option Content → Result Content
  read io c = if io.readable then or_fail c io_error else err io_error

  -- An existing file must be readable; for a missing one the default is taken.
  abbrev pub read_or : Io → Option Content → Content → Result Content
  read_or io none default = ok default
  read_or io (some c) default = if io.readable then ok c else err io_error

  abbrev pub parse : Content → Result Value
  parse c = or_fail (from_str c) yaml_error

  -- `Value::get` with a text.
  abbrev pub get_key : String → Value → Option Value
  get_key k v = and_then (as_mapping v) (get k)

  -- `if let Some(map) = yaml.as_mapping_mut() { … }`
  abbrev pub with_mapping : (Mapping → Mapping) → Value → Value
  with_mapping f v = map_or (as_mapping v) v (λ m. put_mapping v (f m))

  unfoldable pub create_rules : Value → Value
  create_rules v =
      if is_some (get_key "rules" v) then v else with_mapping (insert "rules" (y.sequence [])) v

  abbrev pub rules_of : Value → Option (List Value)
  rules_of v = and_then (get_key "rules" v) as_sequence

  -- A write through the array of the rules.
  abbrev pub put_rules : Value → List Value → Value
  put_rules v xs =
      map_or (get_key "rules" v) v (λ r. with_mapping (insert "rules" (put_sequence r xs)) v)

  -- `get_or_create_rules_array`, with the change that is made through the array.
  unfoldable pub change_rules : (List Value → List Value) → Value → Result Value
  unfolding create_rules
  change_rules f v = do
    xs ← or_fail (rules_of (create_rules v)) not_array
    ok (put_rules (create_rules v) (f xs))

  -- The texts among the rules.
  abbrev pub texts : List Value → List String
  texts [] = []
  texts (x ∷ xs) = let rest = texts xs in map_or (as_str x) rest (λ s. s ∷ rest)

  abbrev pub strings : List String → List Value
  strings = map y.string

  abbrev is_text : String → Value → Bool
  is_text s x = map_or (as_str x) false (λ t. str_eq t s)

  unfoldable pub remove_content : String → Value → Result Value
  remove_content rule v = do
    xs ← or_fail (rules_of v) not_found
    let kept = retain (λ x. not (is_text rule x)) xs
    if length kept == length xs then err rule_not_found else ok (put_rules v kept)

  abbrev remove_at_index : ℕ → Value → List Value → Result (String × Value)
  remove_at_index index v xs =
      if index == 0 || ltb (length xs) index
      then err (invalid_index index (length xs))
      else (or_fail (get_elem? xs (index - 1)) not_found >>= λ x.
          ok (unwrap_or (as_str x) (y.debug x), put_rules v (remove_at (index - 1) xs)))

  unfoldable pub remove_index : ℕ → Value → Result (String × Value)
  remove_index index v = or_fail (rules_of v) not_found >>= remove_at_index index v

  unfoldable pub cleared : Value → Value
  cleared v =
      map_or (as_mapping v) (y.mapping (insert "rules" (y.sequence []) (insert "mode" v y.new)))
        (λ m. put_mapping v (insert "rules" (y.sequence []) m))

  -- The custom rules before the last `count` of the texts among the rules that are there.
  unfoldable pub merged_rules : ℕ → List String → Value → List Value
  merged_rules count custom v =
      let existing = texts (unwrap_or (rules_of v) []) in
      strings custom ++ strings (drop (length existing - count) existing)

  unfoldable pub provider_map :
      (RuleProviderConfig → Value) → List RuleProviderConfig → Mapping → Mapping
  provider_map to_value [] m = m
  provider_map to_value (p ∷ ps) m = provider_map to_value ps (insert p.name (to_value p) m)

  unfoldable pub without_provider : String → Mapping → Mapping
  without_provider name m =
      map_or
        (and_then (get "rule-providers" m)
          (λ rp. Option.map (λ n. put_mapping rp (remove name n)) (as_mapping rp)))
        m (λ rp. insert "rule-providers" rp m)
