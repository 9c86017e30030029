-- ===== src/Latency/Delay.antt =====
-- crates/control-tower-service/src/api/delay_handlers.rs: the delay of one proxy, the delays of all
-- of them, and the results of the automatic test. JSON is what the code reads of it.
use control_tower.Prelude.{
  ℕ, ◌-◌, ◌/◌, ◌%◌, ◌^◌, max, String, Bool, not, ◌||◌, Option, none, some, List, [], ◌∷◌, map, drop,
  if◌then◌else◌, map_or, unwrap_or, ltb, str_eq, length, get_elem?, ◌==◌,
}
use control_tower.Text.{codes, parse_usize, all_digits}
use control_tower.Settings.Store.{LatencyResult, AutoTestState}
use control_tower.Latency.{
  Reply, timed_out, unparsed, negative, http_error, delay, texts, skip_count,
}

-- How the request for the proxies ends: the values of `GLOBAL.all`, with none for one that is no text.
pub data Listing : Type 0 where
  no_client not_fetched refused not_parsed no_proxies no_global : Listing
  global : List (Option String) → Listing

-- The name of a result and the reply that it stands for.
abbrev pub Measured : Type 0
Measured = String × Reply

pub data AllAnswer : Type 0 where
  internal_error bad_request : AllAnswer
  delays : List Measured → Option (String × ℕ) → AllAnswer

-- `min_by_key` over the delays above 0: the first of the least.
unfoldable pub better_delay : Option (String × ℕ) → Measured → Option (String × ℕ)
better_delay best (n, timed_out) = best
better_delay best (n, unparsed) = best
better_delay best (n, negative) = best
better_delay best (n, http_error status) = best
better_delay none (n, delay d) = if d == 0 then none else some (n, d)
better_delay (some b) (n, delay d) =
    if d == 0 then some b else if ltb d b.1 then some (n, d) else some b

unfoldable pub min_delay : Option (String × ℕ) → List Measured → Option (String × ℕ)
unfolding better_delay
min_delay best [] = best
min_delay best (r ∷ rs) = min_delay (better_delay best r) rs

-- Every mode but `ping` has a URL to be fetched.
abbrev pub fetches : String → Bool
fetches mode = not (str_eq mode "ping")

unfoldable pub proxy_delay_all : Listing → (Bool → String → Reply) → String → AllAnswer
unfolding min_delay texts
proxy_delay_all no_client reply mode = internal_error
proxy_delay_all not_fetched reply mode = internal_error
proxy_delay_all refused reply mode = bad_request
proxy_delay_all not_parsed reply mode = internal_error
proxy_delay_all no_proxies reply mode = delays [] none
proxy_delay_all no_global reply mode = delays [] none
proxy_delay_all (global vs) reply mode =
    let results : List Measured =
      map (λ n. (n, reply (fetches mode) n)) (drop skip_count (texts vs)) in
    delays results (min_delay none results)

-- The name of a number is that of the proxy in this place, or the number itself if this is no text.
pub data Target : Type 0 where
  invalid_index : Target
  proxy : String → Target

unfoldable pub target_at : String → List (Option String) → ℕ → Target
target_at name vs i =
    if i == 0 || ltb (length vs) i
    then invalid_index
    else proxy (unwrap_or (unwrap_or (get_elem? vs (i - 1)) none) name)

unfoldable pub target : String → List (Option String) → Target
unfolding target_at parse_usize
target name vs =
    if all_digits (codes name)
    then map_or (parse_usize (codes name)) invalid_index (target_at name vs)
    else proxy name

pub data DelayAnswer : Type 0 where
  internal_error bad_request : DelayAnswer
  -- The delay, or null.
  measured : Option ℕ → DelayAnswer

abbrev pub delay_of : Reply → Option ℕ
delay_of (delay d) = some d
delay_of _ = none

unfoldable pub target_delay : (Bool → String → Reply) → String → Target → DelayAnswer
target_delay reply mode invalid_index = DelayAnswer.bad_request
target_delay reply mode (proxy n) = measured (delay_of (reply (fetches mode) n))

unfoldable pub proxy_delay_post : String → Listing → (Bool → String → Reply) → String → DelayAnswer
unfolding target_delay target
proxy_delay_post name refused reply mode = DelayAnswer.bad_request
proxy_delay_post name (global vs) reply mode = target_delay reply mode (target name vs)
proxy_delay_post name _ reply mode = DelayAnswer.internal_error

pub record FastestResponse : Type 0 where
  pub enabled : Bool
  pub interval_minutes : ℕ
  pub last_test_at : Option ℕ
  pub fastest : Option LatencyResult
  pub results : List LatencyResult

unfoldable pub get_fastest : AutoTestState → FastestResponse
get_fastest s = record {
  enabled = s.enabled;
  interval_minutes = max (s.interval_secs / 60) 1 % 2 ^ 32;
  last_test_at = s.last_test_at;
  fastest = s.fastest;
  results = s.results;
}
