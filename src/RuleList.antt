-- ===== src/RuleList.antt =====
-- crates/control-tower-service/src/api/rules_handlers.rs: the custom rules, which settings.yaml
-- keeps and config.yaml has before the rules of the active profile. The handlers work here on what
-- the files hold: the custom rules and the number of profile rules of settings.yaml, and the texts
-- of the rules of config.yaml, which are none for a missing file. `merge` is `merge_rules_with_custom`
-- of active_config.rs on these, for a config.yaml that is a mapping.
pub mod Sync
pub mod Merge
use control_tower.Prelude.{
  ℕ, not, ◌+◌, ◌-◌, min, String, Bool, true, false, not, ◌||◌, ◌&&◌, Option, none, some, List, [],
  ◌∷◌, ◌++◌, map_or, unwrap_or, and_then, if◌then◌else◌, ltb, leb, ◌==◌, str_eq, length, take, drop,
  any, get_elem?, remove_at, is_empty, suc, is_some,
}

pub record RuleFiles : Type 0 where
  -- settings.yaml
  pub custom_rules : Option (List String)
  pub profile_rules_count : Option ℕ
  -- config.yaml
  pub config_rules : List String

pub data Source : Type 0 where
  profile custom : Source

pub record RuleItem : Type 0 where
  pub index : ℕ
  pub rule : String
  pub source : Source

-- A panic ends the process.
pub data Response : Type 0 where
  added : String → Response
  removed : Option String → Response
  cleared : Response
  bad_request internal_error : Response
  panic : Response

-- The entry of an item of profiles.yaml.
pub record Entry : Type 0 where
  pub uid : Option String
  pub file : Option String

-- The file of the first item whose uid is the current one.
unfoldable pub current_file : String → List Entry → Option String
current_file uid [] = none
current_file uid (e ∷ es) =
    let rest = current_file uid es in
    if map_or e.uid false (λ u. str_eq u uid) then e.file else rest

-- The position of the first rule that the profile has, counted from i, and 0 if there is none.
first_profile_rule : List String → ℕ → List String → ℕ
first_profile_rule profile_rules i [] = 0
first_profile_rule profile_rules i (r ∷ rs) =
    let rest = first_profile_rule profile_rules (suc i) rs in
    if any (λ p. str_eq p r) profile_rules then i else rest

detect_in : List String → List String → ℕ
unfolding first_profile_rule
detect_in all_rules [] = 0
detect_in all_rules (p ∷ ps) = first_profile_rule (p ∷ ps) 0 all_rules

-- `current` and `items` are those of profiles.yaml, with none where they are missing or cannot be
-- read; `rules_in` reads the rules of a profile's file, with none for a file that is missing or
-- does not parse.
unfoldable pub detect_custom_count_from_profile :
    Option String → Option (List Entry) → (String → Option (List String)) → List String → ℕ
unfolding current_file detect_in
detect_custom_count_from_profile current items rules_in all_rules =
    map_or
      (and_then current (λ uid. and_then items (λ es. and_then (current_file uid es) rules_in))) 0
      (detect_in all_rules)

numbered : Source → ℕ → List String → List RuleItem
numbered source i [] = []
numbered source i (r ∷ rs) =
    record { index = i; rule = r; source = source } ∷ numbered source (suc i) rs

-- What `get_rules` takes as the number of custom rules.
abbrev pub custom_count : ℕ → RuleFiles → ℕ
custom_count detected fs =
    let c = map_or fs.custom_rules detected (λ cr. if is_empty cr then detected else length cr) in
    min c (length fs.config_rules)

unfoldable pub get_rules : ℕ → RuleFiles → List RuleItem
unfolding numbered
get_rules detected fs =
    let c = custom_count detected fs in
    numbered custom 1 (take c fs.config_rules) ++ numbered profile (c + 1) (drop c fs.config_rules)

-- `write_custom_rules_to_settings`, which stores an empty list as none.
abbrev pub stored : List String → Option (List String)
stored rules = if is_empty rules then none else some rules

unfoldable pub merge : ℕ → List String → List String → List String
merge count rules existing = rules ++ drop (length existing - count) existing

-- The two writes of a handler, which succeed or fail.
unfoldable pub write_both :
    Bool → Bool → ℕ → List String → Response → RuleFiles → Response × RuleFiles
unfolding merge
write_both false merged count rules response fs = (internal_error, fs)
write_both true false count rules response fs =
    (internal_error, record fs { custom_rules = stored rules })
write_both true true count rules response fs = (
  response,
  record fs { custom_rules = stored rules; config_rules = merge count rules fs.config_rules },
)

-- `proxies` are the names that Mihomo reports; without any, the proxy is not checked.
unfoldable pub add_rule :
    Bool → Bool → List String → String → String → RuleFiles → Response × RuleFiles
unfolding write_both
add_rule saved merged proxies proxy rule fs =
    if is_empty proxies || any (λ n. str_eq n proxy) proxies
    then write_both saved merged (unwrap_or fs.profile_rules_count 0)
        (unwrap_or fs.custom_rules [] ++ rule ∷ []) (added rule) fs
    else (bad_request, fs)

remove_custom : Bool → Bool → ℕ → ℕ → List String → RuleFiles → Response × RuleFiles
unfolding write_both
remove_custom saved merged count index current fs =
    if ltb index (length current)
    then write_both saved merged (length fs.config_rules - count) (remove_at index current)
        (removed (get_elem? current index)) fs
    else (panic, fs)

unfoldable pub delete_rule : Bool → Bool → ℕ → Source → ℕ → RuleFiles → Response × RuleFiles
unfolding remove_custom
delete_rule saved merged detected profile index fs = (bad_request, fs)
delete_rule saved merged detected custom index fs =
    if detected == 0 || leb detected index
    then (bad_request, fs)
    else remove_custom saved merged detected index
        (unwrap_or fs.custom_rules (take detected fs.config_rules)) fs

-- The custom rules are emptied first; without a config.yaml the request then fails.
clear_config : Bool → Bool → Bool → ℕ → RuleFiles → Response × RuleFiles
unfolding write_both
clear_config there saved merged detected fs =
    if not there
    then (bad_request, fs)
    else if detected == 0
    then (cleared, fs)
    else write_both saved merged (length fs.config_rules - detected) [] cleared fs

unfoldable pub clear_rules :
    Bool → Bool → Bool → Bool → ℕ → Source → RuleFiles → Response × RuleFiles
unfolding clear_config
clear_rules emptied there saved merged detected profile fs = (bad_request, fs)
clear_rules emptied there saved merged detected custom fs =
    if not emptied
    then (internal_error, fs)
    else clear_config there saved merged detected (record fs { custom_rules = stored [] })
