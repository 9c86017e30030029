-- ===== src/Cli/Rules.antt =====
-- The rules of the command line client: crates/control-tower-cli/src/rule.rs. Unicode's upper case
-- is a parameter.
pub mod Listed
use Prim.Native.Char.{code}
use control_tower.Prelude.{
  ℕ, zero, suc, ◌-◌, ◌+◌, String, Bool, true, false, not, ◌&&◌, ◌||◌, Option, none, some, List, [],
  ◌∷◌, ◌++◌, if◌then◌else◌, ◌==◌, leb, ltb, map_or, and_then, map, any, retain, is_empty, length,
  take, unwrap_or,
}
use control_tower.Text.{codes, is_whitespace, starts_with}
use control_tower.Profiles.{RuleProviderConfig}
use control_tower.Yaml.{Yaml}
use control_tower.ActiveConfig.{Result, ok, err, Disk, Io, rules_of, get_key, texts}
use control_tower.ActiveConfig.Edit as Edit
use control_tower.ActiveConfig.Edit.{perform}
use control_tower.Cli.Truncate.{truncate_str}

-- `str::trim`, whose result is passed on as a text.
unfoldable pub trim_front : String → String
trim_front String.[] = String.[]
trim_front (String.◌∷◌ c s) =
    let rest = trim_front s in if is_whitespace (code c) then rest else String.◌∷◌ c s

abbrev pub is_nil : String → Bool
is_nil String.[] = true
is_nil (String.◌∷◌ c s) = false

unfoldable pub trim_back : String → String
trim_back String.[] = String.[]
trim_back (String.◌∷◌ c s) =
    let rest = trim_back s in
    if is_nil rest && is_whitespace (code c) then String.[] else String.◌∷◌ c rest

unfoldable pub trimmed : String → String
unfolding trim_front trim_back
trimmed s = trim_back (trim_front s)

-- `split` at a character, where a text without it is one part.
abbrev pub onto : ℕ → List (List ℕ) → List (List ℕ)
onto c [] = (c ∷ []) ∷ []
onto c (p ∷ ps) = (c ∷ p) ∷ ps

unfoldable pub split : ℕ → List ℕ → List (List ℕ)
split d [] = [] ∷ []
split d (c ∷ s) = let rest = split d s in if c == d then [] ∷ rest else onto c rest

abbrev pub same : List ℕ → List ℕ → Bool
same [] [] = true
same [] (d ∷ t) = false
same (c ∷ s) [] = false
same (c ∷ s) (d ∷ t) = c == d && same s t

abbrev pub is_one_of : List String → List ℕ → Bool
is_one_of names s = any (λ n. same (codes n) s) names

-- `RULE_TYPES`, with the `RULE-SET` that is asked for once more.
abbrev pub rule_types : List String
rule_types =
    "DOMAIN" ∷ "DOMAIN-SUFFIX" ∷ "DOMAIN-KEYWORD" ∷ "DOMAIN-WILDCARD" ∷ "GEOIP" ∷ "IP-CIDR"
    ∷ "IP-CIDR6" ∷ "PROCESS-NAME" ∷ "NETWORK" ∷ "RULE-SET" ∷ "MATCH" ∷ []

-- `SPECIAL_PROXIES`
abbrev pub special_proxies : List String
special_proxies = "DIRECT" ∷ "REJECT" ∷ "REJECT-DROP" ∷ []

abbrev pub last_part : List (List ℕ) → List ℕ
last_part [] = []
last_part (p ∷ []) = p
last_part (p ∷ q ∷ ps) = last_part (q ∷ ps)

pub data Refusal : Type 0 where
  bad_format unknown_type empty_proxy bad_index no_file not_read no_rules : Refusal

-- The first thing that is wrong with a rule.
unfoldable pub refusal : (List ℕ → List ℕ) → List ℕ → Option Refusal
unfolding split
refusal to_uppercase rule =
    let parts : List (List ℕ) = split b',' rule in
    let kind : List ℕ = elim parts [ [] ↦ [] | p ∷ ps ↦ p ] in
    if ltb (length parts) 3
    then some bad_format
    else if not (is_one_of rule_types (to_uppercase kind))
    then some unknown_type
    else if not (is_one_of special_proxies (last_part parts)) && is_empty (last_part parts)
    then some empty_proxy
    else none

-- A line of `import_rules`, which is taken if it is not empty and no comment.
unfoldable pub rules_in_lines : List String → List String
unfolding trimmed starts_with
rules_in_lines [] = []
rules_in_lines (l ∷ ls) =
    let rest = rules_in_lines ls in
    if not (is_nil (trimmed l)) && not (starts_with (codes (trimmed l)) (b'#' ∷ []))
    then trimmed l ∷ rest
    else rest

-- A row of `list_rules`: the number, the type, the value and the proxy.
abbrev pub Row : Type 0
Row = ℕ × List ℕ × List ℕ × List ℕ

-- The parts without the last, joined with commas.
unfoldable pub joined : List (List ℕ) → List ℕ
joined [] = []
joined (p ∷ []) = []
joined (p ∷ q ∷ []) = p
joined (p ∷ q ∷ r ∷ ps) = p ++ b',' ∷ joined (q ∷ r ∷ ps)

unfoldable pub row : ℕ → List (List ℕ) → List Row
unfolding joined truncate_str
row n [] = []
row n (p ∷ []) = []
row n (p ∷ q ∷ []) = (n, truncate_str p 18, b'-' ∷ [], truncate_str q 20) ∷ []
row n (p ∷ q ∷ r ∷ ps) =
    (
      n,
      truncate_str p 18,
      truncate_str (joined (q ∷ r ∷ ps)) 23,
      truncate_str (last_part (q ∷ r ∷ ps)) 20,
    )
    ∷ []

unfoldable pub rows : ℕ → List String → List Row
unfolding row split
rows n [] = []
rows n (r ∷ rs) = row (suc n) (split b',' (codes r)) ++ rows (suc n) rs

module _ (y : Yaml) (to_value : RuleProviderConfig → y.Value) (to_uppercase : List ℕ → List ℕ) where
  open y use {Content, from_str, as_sequence}

  pub data Outcome (A : Type 0) : Type 0 where
    refused : Refusal → Outcome A
    stored : Result A → Outcome A

  -- `parse_rules_from_config`, with none for an error.
  unfoldable pub parse_rules_from_config : Bool → Disk y → Option (List String)
  parse_rules_from_config readable d = map_or d.active (some []) (λ c.
      if readable
      then (map_or (from_str c) none (λ v. some (map_or (rules_of y v) [] (texts y))))
      else none)

  abbrev pub stored_with : {A : Type 0} → Result A × Disk y → Outcome A × Disk y
  stored_with r = (stored r.0, r.1)

  -- `add_rule`
  unfoldable pub add_rule : Io y → String → Disk y → Outcome (Unit {0}) × Disk y
  unfolding refusal trimmed perform
  add_rule io rule d =
      map_or (refusal to_uppercase (codes (trimmed rule)))
        (stored_with (perform y to_value (Edit.append_rule (trimmed rule)) io d))
        (λ r. (refused r, d))

  -- `remove_rule`
  unfoldable pub remove_rule : Io y → ℕ → Disk y → Outcome String × Disk y
  unfolding Edit.remove_rule
  remove_rule io zero d = (refused bad_index, d)
  remove_rule io (suc i) d = stored_with (Edit.remove_rule y (suc i) io d)

  -- The file of `import_rules`: what the parser of a list of texts, the parser of a value and `lines`
  -- make of it.
  pub data ImportFile : Type 0 where
    missing unreadable : ImportFile
    content : Option (List String) → Option y.Value → List String → ImportFile

  unfoldable pub new_rules : Option (List String) → Option y.Value → List String → List String
  unfolding rules_in_lines
  new_rules (some rules) v lines = rules
  new_rules none v lines =
      map_or (and_then v (rules_of y)) (rules_in_lines lines) (λ xs. texts y xs)

  -- `import_rules`
  unfoldable pub import_rules : Io y → ImportFile → Disk y → Outcome (Unit {0}) × Disk y
  unfolding new_rules perform
  import_rules io missing d = (refused no_file, d)
  import_rules io unreadable d = (refused not_read, d)
  import_rules io (content listed v lines) d =
      let rules : List String = new_rules listed v lines in
      if is_empty rules
      then (refused no_rules, d)
      else stored_with (perform y to_value (Edit.import_rules rules) io d)

  -- The rows of `list_rules`, with the number of the rules that are not shown.
  unfoldable pub list_rules : Option ℕ → Bool → Disk y → Option (List Row × ℕ)
  unfolding rows parse_rules_from_config
  list_rules limit readable d = map_or (parse_rules_from_config readable d) none (λ rules.
      some (map_or limit (rows 0 rules, 0) (λ n. (rows 0 (take n rules), length rules - n))))
