-- ===== src/Latency/Agree.antt =====
-- The fastest proxy of the automatic test and of the request for all delays.
use control_tower.Prelude.{
  subst, ℕ, ◌≡◌, refl, ap, ◌∙◌, String, Bool, true, false, Option, none, some, List, [], ◌∷◌, map,
  drop, map_or, unwrap_or, ltb, str_eq, any, arith, ◌==◌, Bool-cases, inl, inr,
}
use control_tower.Settings.{SettingsData, AutoTestConfig}
use control_tower.Settings.Store.{LatencyResult, AutoTestState}
use control_tower.Latency.{
  Reply, timed_out, unparsed, negative, http_error, delay, reached, texts, skip_count, World,
  test_node_latency, better, min_latency, run_auto_latency_test, run_enabled, test_nodes,
  test_ended, test_concurrent_latency,
}
use control_tower.Latency.Delay.{
  Measured, better_delay, min_delay, fetches, global, delays, proxy_delay_all, get_fastest,
}

abbrev pub is_zero : Reply → Bool
is_zero (delay d) = d == 0
is_zero _ = false

-- The result of the automatic test that a name and a delay stand for.
abbrev pub result_of : Option (String × ℕ) → Option LatencyResult
result_of o = map_or o none (λ p. some (reached p.0 p.1))

better_same :
    (best : Option (String × ℕ)) (n : String) (r : Reply)
    → is_zero r ≡ false
    → better (result_of best) (test_node_latency n r) ≡ result_of (better_delay best (n, r))
unfolding better test_node_latency better_delay
better_same none n timed_out z = refl
better_same none n unparsed z = refl
better_same none n negative z = refl
better_same none n (http_error s) z = refl
better_same none n (delay d) z = rw z refl
better_same (some b) n timed_out z = refl
better_same (some b) n unparsed z = refl
better_same (some b) n negative z = refl
better_same (some b) n (http_error s) z = refl
better_same (some b) n (delay d) z = elim (Bool-cases (ltb d b.1)) [
  | inl e ↦ rw (z, e) refl
  | inr e ↦ rw (z, e) refl
]

min_same :
    (best : Option (String × ℕ)) (reply : String → Reply) (ns : List String)
    → any (λ n. is_zero (reply n)) ns ≡ false
    → min_latency (result_of best) (map (λ n. test_node_latency n (reply n)) ns)
      ≡ result_of (min_delay best (map (λ n. (n, reply n)) ns))
unfolding min_latency min_delay
min_same best reply [] z = refl
min_same best reply (n ∷ ns) z =
    ap (λ b. min_latency b (map (λ n. test_node_latency n (reply n)) ns))
      (better_same best n (reply n) (ground (arith, z)))
    ∙ min_same (better_delay best (n, reply n)) reply ns (ground (arith, z))

-- Whether the automatic test has a URL to be fetched.
abbrev pub http_of : AutoTestConfig → Bool
http_of cfg = str_eq (unwrap_or cfg.latency_test_mode "http") "http"

-- The fastest of a test of these nodes.
fastest-test_nodes :
    (w : World) (cfg : AutoTestConfig) (st : AutoTestState) (ns : List String)
    → w.runtime ≡ true
    → w.client ≡ true
    → w.completed ≡ ns
    → any (λ n. is_zero (w.reply (http_of cfg) n)) ns ≡ false
    → (test_nodes cfg w ns st).1.fastest
      ≡ result_of (min_delay none (map (λ n. (n, w.reply (http_of cfg) n)) ns))
unfolding test_nodes test_ended test_concurrent_latency min_latency min_delay
fastest-test_nodes w cfg st [] e f g z = refl
fastest-test_nodes w cfg st (n ∷ ns) e f g z =
    rw (e, f, g) (min_same none (w.reply (http_of cfg)) (n ∷ ns) z)

-- An automatic test that runs to its end, and a request for the delays of all proxies, which get the
-- same list of proxies and the same replies, none of them a delay of 0, in the order of the list and
-- both with a URL to be fetched or both without: the request names as the fastest the proxy with the
-- delay that the test stores, and that is then answered to a request for the fastest.
pub proxy_delay_all-run_auto_latency_test :
    (w : World) (settings : SettingsData) (cfg : AutoTestConfig) (st : AutoTestState)
    (vs : List (Option String)) (mode : String)
    → settings.auto_test ≡ some cfg
    → cfg.enabled ≡ true
    → w.running ≡ true
    → w.proxies ≡ some vs
    → w.runtime ≡ true
    → w.client ≡ true
    → w.completed ≡ drop skip_count (texts vs)
    → http_of cfg ≡ fetches mode
    → any (λ n. is_zero (w.reply (fetches mode) n)) (drop skip_count (texts vs)) ≡ false
    → (best : Option (String × ℕ)) × (rs : List Measured) × (proxy_delay_all
          (global vs)
          w.reply
          mode
        ≡ delays rs best)
      × ((get_fastest (run_auto_latency_test w settings st).1).fastest ≡ result_of best)
unfolding proxy_delay_all get_fastest run_auto_latency_test run_enabled test_nodes test_ended
    test_concurrent_latency
proxy_delay_all-run_auto_latency_test w settings cfg st vs mode a b c d e f g h z =
    let nodes : List String = drop skip_count (texts vs) in
    let rs : List Measured = map (λ n. (n, w.reply (fetches mode) n)) nodes in
    let st' : AutoTestState = record st { last_test_at = some w.started } in
    let same =
      subst
        (λ http.
          any (λ n. is_zero (w.reply http n)) nodes ≡ false
          → (test_nodes cfg w nodes st').1.fastest
            ≡ result_of (min_delay none (map (λ n. (n, w.reply http n)) nodes)))
        h (fastest-test_nodes w cfg st' nodes e f g) z in
    (min_delay none rs, rs, refl, rw (a, b, c, d) same)
