-- ===== src/Latency.antt =====
-- The automatic latency test: `run_auto_latency_test`, `test_node_latency` and
-- `test_concurrent_latency` of crates/control-tower-service/src/service/latency_test.rs, and the
-- test in `run_server` of main.rs that starts it. What Mihomo and the operating system answer
-- during a test is a `World`; the requests for the nodes run at the same time, so their results
-- stand in the order in which they were completed.

pub mod Once
pub mod Fastest
pub mod Delay
pub mod Agree
use Prim.Native.String
use control_tower.Prelude.{
  ℕ, ◌-◌, ◌*◌, max, String, Bool, true, false, not, Option, none, some, List, [], ◌∷◌, map, drop,
  if◌then◌else◌, map_or, unwrap_or, leb, ltb, is_empty, str_eq, length,
}
use control_tower.Settings.{SettingsData, AutoTestConfig}
use control_tower.Settings.Store.{LatencyResult, AutoTestState}

-- What a request for the delay of a node gives; the status is as it is printed. A reply without a
-- number `delay` counts as a negative one.
pub data Reply : Type 0 where
  timed_out unparsed negative : Reply
  http_error : String → Reply
  delay : ℕ → Reply

abbrev pub reached : String → ℕ → LatencyResult
reached node_name d = record { name = node_name; latency = some d; error = none }

abbrev pub unreached : String → String → LatencyResult
unreached node_name e = record { name = node_name; latency = none; error = some e }

unfoldable pub test_node_latency : String → Reply → LatencyResult
test_node_latency node_name timed_out = unreached node_name "Timeout"
test_node_latency node_name unparsed = unreached node_name "Parse error"
test_node_latency node_name negative = unreached node_name "Negative delay"
test_node_latency node_name (http_error status) =
    unreached node_name (String.◌++◌ "Mihomo error (HTTP " (String.◌++◌ status ")"))
test_node_latency node_name (delay d) = reached node_name d

pub record World : Type 0 where
  pub running : Bool
  -- The texts of `GLOBAL.all` and, in their places, none for other values; none if the list of the
  -- proxies cannot be had, because of the client, the request, its status, its body or its entries.
  pub proxies : Option (List (Option String))
  -- Whether a runtime, and a client for the nodes, can be made.
  pub runtime : Bool
  pub client : Bool
  -- The reply for a node, to a request with the URL to be fetched or without it.
  pub reply : Bool → String → Reply
  -- The nodes in the order of their replies.
  pub completed : List String
  -- The seconds at which the test starts and ends.
  pub started : ℕ
  pub ended : ℕ

-- `filter_map` with `as_str`
unfoldable pub texts : List (Option String) → List String
texts [] = []
texts (none ∷ vs) = texts vs
texts (some s ∷ vs) = s ∷ texts vs

unfoldable pub test_concurrent_latency : World → Bool → List String → List LatencyResult
unfolding test_node_latency
test_concurrent_latency w http nodes_to_test =
    if w.client
    then map (λ n. test_node_latency n (w.reply http n)) w.completed
    else map (λ n. unreached n "Client init failed") nodes_to_test

-- `min_by_key` on the latency of the results that have one: the first of the least.
unfoldable pub better : Option LatencyResult → LatencyResult → Option LatencyResult
better none r = map_or r.latency none (λ d. some r)
better (some b) r =
    map_or r.latency (some b) (λ d. if map_or b.latency true (λ e. ltb d e) then some r else some b)

unfoldable pub min_latency : Option LatencyResult → List LatencyResult → Option LatencyResult
unfolding better
min_latency best [] = best
min_latency best (r ∷ rs) = min_latency (better best r) rs

-- `test_ended` is the state after a test, with none for the results if there is no node to test.
unfoldable pub test_ended :
    AutoTestConfig → World → List LatencyResult → AutoTestState → AutoTestState
unfolding min_latency
test_ended cfg w rs st = record st {
  enabled = true;
  interval_secs = cfg.interval_minutes * 60;
  last_test_at = some w.ended;
  fastest = min_latency none rs;
  results = rs;
}

test_nodes : AutoTestConfig → World → List String → AutoTestState → ℕ × AutoTestState
unfolding test_ended test_concurrent_latency
test_nodes cfg w nodes st =
    let http : Bool = str_eq (unwrap_or cfg.latency_test_mode "http") "http" in
    if is_empty nodes
    then (0, test_ended cfg w [] st)
    else if w.runtime
    then (length nodes, test_ended cfg w (test_concurrent_latency w http nodes) st)
    else (0, st)

-- The first three names of `GLOBAL.all` are skipped.
abbrev pub skip_count : ℕ
skip_count = 3

run_enabled : AutoTestConfig → World → AutoTestState → ℕ × AutoTestState
unfolding test_nodes texts
run_enabled cfg w st =
    let begun : AutoTestState = record st { last_test_at = some w.started } in
    if w.running
    then map_or w.proxies (0, begun) (λ vs. test_nodes cfg w (drop skip_count (texts vs)) begun)
    else (0, begun)

-- The number of the nodes tested, and the state.
unfoldable pub run_auto_latency_test : World → SettingsData → AutoTestState → ℕ × AutoTestState
unfolding run_enabled
run_auto_latency_test w settings st =
    map_or settings.auto_test (0, st) (λ cfg. if cfg.enabled then run_enabled cfg w st else (0, st))

-- `should_run` of `run_server`: the test is started, and marked as running.
unfoldable pub should_run : ℕ → AutoTestState → Bool × AutoTestState
should_run now st =
    if st.running
    then (false, st)
    else if leb (max st.interval_secs 60) (now - unwrap_or st.last_test_at 0)
    then (true, record st { running = true })
    else (false, st)
