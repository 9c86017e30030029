-- ===== src/Cli/Proxies.antt =====
-- How the client finds the proxy that is asked for: `resolve_proxy_name`, and the same steps of
-- `select_proxy_node`, in crates/control-tower-cli/src/proxy.rs. Unicode's lower case is a
-- parameter.
pub mod Named
use control_tower.Prelude.{
  ℕ, zero, suc, ◌+◌, ◌-◌, ◌*◌, ◌^◌, ◌≡◌, ◌≢◌, refl, sym, ap, ◌∙◌, subst, ◌⊎◌, inl, inr, String,
  Bool, true, false, not, ◌&&◌, ◌||◌, Option, none, some, List, [], ◌∷◌, if◌then◌else◌, ◌==◌, ltb,
  str_eq, map_or, and_then, unwrap_or, retain, any, length, get_elem?, arith, eq_iff, Bool-cases,
  Option-cases, if_elim, map_or_elim,
}
use mathlib.Core.List.{Memᴰ}
use control_tower.Text.{parse_usize, all_digits, codes, is_digit, starts_with, contains}

pub data Resolved : Type 0 where
  invalid_index no_match : Resolved
  out_of_range : ℕ → Resolved
  chosen : String → Resolved

-- `names[idx - 1]`, within the bounds that stand before it.
unfoldable pub at_index : List String → ℕ → Resolved
at_index names i =
    if i == 0 || ltb (length names) i
    then out_of_range i
    else map_or (get_elem? names (i - 1)) (out_of_range i) chosen

unfoldable pub by_index : List String → List ℕ → Resolved
unfolding at_index parse_usize
by_index names text = map_or (parse_usize text) invalid_index (at_index names)

module _ (to_lowercase : String → String) where
  -- The names that contain the text, in lower case.
  abbrev pub matches : String → List String → List String
  matches lower = retain (λ n. contains (codes (to_lowercase n)) (codes lower))

  -- The first of them that is the text itself, in lower case.
  unfoldable pub exact : String → List String → Option String
  exact lower [] = none
  exact lower (n ∷ ns) =
      let rest = exact lower ns in if str_eq (to_lowercase n) lower then some n else rest

  unfoldable pub pick : String → List String → Resolved
  unfolding exact
  pick lower [] = no_match
  pick lower (n ∷ []) = chosen n
  pick lower (n ∷ m ∷ ns) = chosen (unwrap_or (exact lower (n ∷ m ∷ ns)) n)

  abbrev pub by_name : List String → String → Resolved
  by_name names selector = let lower = to_lowercase selector in pick lower (matches lower names)

  -- A selector with `#` in front, with digits only, or a part of a name.
  unfoldable pub resolve : List String → String → List ℕ → Resolved
  unfolding by_index pick
  resolve names selector [] = by_index names []
  resolve names selector (c ∷ s) =
      if c == b'#'
      then by_index names s
      else if all_digits (c ∷ s)
      then by_index names (c ∷ s)
      else by_name names selector

  -- `resolve_proxy_name`, with the names of the proxies.
  unfoldable pub resolve_proxy_name : List String → String → Resolved
  unfolding resolve
  resolve_proxy_name names selector = resolve names selector (codes selector)
