-- ===== src/Latency/Fastest.antt =====
-- The node that a test names as the fastest.
use mathlib.Core.List.{Permᴰ, Memᴰ}
use mathlib.Core.Option.{some-injective, none-ne-some}
use control_tower.Prelude.{
  ℕ, ◌≤◌, String, Bool, true, false, Option, none, some, List, [], ◌∷◌, ◌≡◌, refl, map, All, ltb,
  drop, and_then, map_or, Memᴰ-map, All-map, All-Permᴰ, Memᴰ-Permᴰ, is_empty, str_eq, unwrap_or,
  length, if◌then◌else◌, arith, Bool-cases, inl, inr, ◌⊎◌, subst, sym, ap, ◌∙◌, Option-cases,
}
use control_tower.Settings.{SettingsData, AutoTestConfig}
use control_tower.Settings.Store.{LatencyResult, AutoTestState}
use control_tower.Latency.{
  World, test_node_latency, texts, min_latency, better, run_auto_latency_test, run_enabled,
  test_nodes, test_ended, skip_count, test_concurrent_latency,
}

-- The first latency is there and no more than the second, if that is there.
unfoldable pub IsLeast : Option ℕ → Option ℕ → Type 0
IsLeast o none = Unit {0}
IsLeast none (some d) = ⊥
IsLeast (some e) (some d) = e ≤ d

abbrev pub latency_of : Option LatencyResult → Option ℕ
latency_of o = and_then o (λ r. r.latency)

IsLeast-trans : (a b c : Option ℕ) → IsLeast a b → IsLeast b c → IsLeast a c
unfolding IsLeast
IsLeast-trans a b none h k = tt
IsLeast-trans none none (some d) h k = k
IsLeast-trans none (some e) (some d) h k = h
IsLeast-trans (some x) none (some d) h k = elim k [ ]
IsLeast-trans (some x) (some e) (some d) h k = ground arith

-- The best so far has a latency.
Timed : Option LatencyResult → Type 0
Timed none = Unit {0}
Timed (some r) = (d : ℕ) × (r.latency ≡ some d)

reflexive : (o : Option ℕ) → IsLeast o o
unfolding IsLeast
reflexive none = tt
reflexive (some d) = omega arith

-- Of two latencies, of which the first is there, the one that `better` keeps.
better_time :
    (e : ℕ) (o : Option ℕ) (b r : LatencyResult)
    → b.latency ≡ some e
    → r.latency ≡ o
    → IsLeast (latency_of (better (some b) r)) (some e)
      × IsLeast (latency_of (better (some b) r)) o
      × Timed (better (some b) r)
unfolding IsLeast better Timed
better_time e none b r h k = rw (h, k) (omega arith, tt, (e, refl))
better_time e (some d) b r h k = elim (Bool-cases (ltb d e)) [
  | inl t ↦ rw (h, k) (rw t (ground arith, ground arith, (d, refl)))
  | inr t ↦ rw (h, k) (rw t (ground arith, ground arith, (e, refl)))
]

better_first :
    (o : Option ℕ) (r : LatencyResult)
    → r.latency ≡ o
    → IsLeast (latency_of (better none r)) o × Timed (better none r)
unfolding IsLeast better Timed
better_first none r k = rw k (tt, tt)
better_first (some d) r k = rw k (omega arith, (d, refl))

better-IsLeast :
    (best : Option LatencyResult) (r : LatencyResult)
    → Timed best
    → IsLeast (latency_of (better best r)) (latency_of best)
      × IsLeast (latency_of (better best r)) r.latency
      × Timed (better best r)
unfolding Timed
better-IsLeast none r h =
    let b = better_first r.latency r refl in (none_least (latency_of (better none r)), b.0, b.1)
  where
    none_least : (o : Option ℕ) → IsLeast o none
    none_least o = unfold IsLeast in tt
better-IsLeast (some b) r (e, h) =
    let k = better_time e r.latency b r h refl in
    (subst (λ o. IsLeast (latency_of (better (some b) r)) o) (sym h) k.0, k.1, k.2)

-- What `min_latency` finds is at most every latency it has seen.
min_latency-IsLeast :
    (best : Option LatencyResult) (rs : List LatencyResult)
    → Timed best
    → IsLeast (latency_of (min_latency best rs)) (latency_of best)
      × All (λ r. IsLeast (latency_of (min_latency best rs)) r.latency) rs
unfolding min_latency
min_latency-IsLeast best [] h = (reflexive (latency_of best), tt)
min_latency-IsLeast best (r ∷ rs) h =
    let b = better-IsLeast best r h in
    let rest = min_latency-IsLeast (better best r) rs b.2 in
    let f : Option ℕ = latency_of (min_latency (better best r) rs) in
    (
      IsLeast-trans f (latency_of (better best r)) (latency_of best) rest.0 b.0,
      (IsLeast-trans f (latency_of (better best r)) r.latency rest.0 b.1, rest.1),
    )

better-one_of :
    (best : Option LatencyResult) (r : LatencyResult)
    → (better best r ≡ best) ⊎ (better best r ≡ some r)
unfolding better
better-one_of none r = elim (Option-cases r.latency) [
  | inl e ↦ inl (ap (λ o. map_or o none (λ d. some r)) e)
  | inr (d, e) ↦ inr (ap (λ o. map_or o none (λ d. some r)) e)
]
better-one_of (some b) r = elim (Option-cases r.latency) [
  | inl e ↦ inl (ap (kept b r) e)
  | inr (d, e) ↦ elim (Bool-cases (map_or b.latency true (λ e. ltb d e))) [
    | inl t ↦ inr (ap (kept b r) e ∙ ap (λ c. if c then some r else some b) t)
    | inr t ↦ inl (ap (kept b r) e ∙ ap (λ c. if c then some r else some b) t)
  ]
]
  where
    kept : LatencyResult → LatencyResult → Option ℕ → Option LatencyResult
    kept b r o =
        map_or o (some b) (λ d. if map_or b.latency true (λ e. ltb d e) then some r else some b)

-- It is what it started from, or one of the results.
Memᴰ-min_latency :
    (best : Option LatencyResult) (rs : List LatencyResult) (f : LatencyResult)
    → min_latency best rs ≡ some f
    → (best ≡ some f) ⊎ Memᴰ f rs
unfolding min_latency
Memᴰ-min_latency best [] f h = inl h
Memᴰ-min_latency best (r ∷ rs) f h = elim (Memᴰ-min_latency (better best r) rs f h) [
  | inr m ↦ inr (Memᴰ.tail m)
  | inl e ↦ elim (better-one_of best r) [
    | inl k ↦ inl (sym k ∙ e)
    | inr k ↦ inr (Memᴰ.head (some-injective f r (sym e ∙ k)))
  ]
]

-- A fastest node is one of those tested, with the latency of its reply.
unfoldable pub IsReply : World → Bool → List String → Option LatencyResult → Type 0
unfolding test_node_latency
IsReply w http nodes none = Unit {0}
IsReply w http nodes (some f) =
    (n : String) × Memᴰ n nodes × (f ≡ test_node_latency n (w.reply http n))

min_latency-IsReply :
    (w : World) (http : Bool) (nodes : List String) (o : Option LatencyResult)
    → min_latency none (map (λ n. test_node_latency n (w.reply http n)) w.completed) ≡ o
    → Permᴰ w.completed nodes
    → IsReply w http nodes o
unfolding IsReply
min_latency-IsReply w http nodes none e p = tt
min_latency-IsReply w http nodes (some f) e p =
    let rs = map (λ n. test_node_latency n (w.reply http n)) w.completed in
    elim (Memᴰ-min_latency none rs f e) [
      | inl k ↦ elim (none-ne-some f k) [ ]
      | inr m ↦ let h = Memᴰ-map _ w.completed f m in (h.0, Memᴰ-Permᴰ p h.1, h.2)
    ]

-- Of an automatic test that is enabled and runs to its end, in whatever order the replies come, the
-- node named as the fastest is one of those tested with the latency of its reply, no node tested
-- has a lower one, and one is named if any node has a latency. As many nodes are counted as were
-- tested, which are the names of the group GLOBAL from the fourth on.
pub run_auto_latency_test-IsLeast :
    (w : World) (settings : SettingsData) (st : AutoTestState) (cfg : AutoTestConfig)
    (vs : List (Option String))
    → settings.auto_test ≡ some cfg
    → cfg.enabled ≡ true
    → w.running ≡ true
    → w.runtime ≡ true
    → w.client ≡ true
    → w.proxies ≡ some vs
    → is_empty (drop skip_count (texts vs)) ≡ false
    → Permᴰ w.completed (drop skip_count (texts vs))
    → let http : Bool = str_eq (unwrap_or cfg.latency_test_mode "http") "http" in
      let nodes : List String = drop skip_count (texts vs) in
      let tested : ℕ × AutoTestState = run_auto_latency_test w settings st in
      (tested.0 ≡ length nodes)
      × IsReply w http nodes tested.1.fastest
      × All
          (λ n.
            IsLeast (latency_of tested.1.fastest) (test_node_latency n (w.reply http n)).latency)
          nodes
unfolding run_auto_latency_test run_enabled test_nodes test_ended test_concurrent_latency
run_auto_latency_test-IsLeast w settings st cfg vs a b c d e f g p =
    let http : Bool = str_eq (unwrap_or cfg.latency_test_mode "http") "http" in
    let nodes : List String = drop skip_count (texts vs) in
    let test = λ (n : String). test_node_latency n (w.reply http n) in
    let m = min_latency-IsLeast none (map test w.completed) (unfold Timed in tt) in
    simp (a, b, c, f, g, d, e)
      (
        refl,
        min_latency-IsReply w http nodes (min_latency none (map test w.completed)) refl p,
        All-Permᴰ _ p (All-map _ test w.completed m.1),
      )
