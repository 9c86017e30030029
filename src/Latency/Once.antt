-- ===== src/Latency/Once.antt =====
-- The flag `running` is set by `run_server` and never reset: the test is started at most once.
use control_tower.Prelude.{
  ℕ, ◌+◌, ◌≤◌, true, List, [], ◌∷◌, ◌≡◌, refl, ◌∙◌, if◌then◌else◌, arith, Bool-cases, inl, inr,
}
use control_tower.Settings.{SettingsData}
use control_tower.Settings.Store.{
  AutoTestState, Runtime, SettingsFile, load_settings, load_starting, load_auto_test,
}
use control_tower.Latency.{
  World, run_auto_latency_test, run_enabled, test_nodes, test_ended, should_run,
}

-- What changes the state of the automatic test: a round of `run_server` at a second, the test
-- itself, and a load of the settings.
pub data Event : Type 0 where
  round : ℕ → Event
  test : World → SettingsData → Event
  load : SettingsFile → Event

unfoldable pub after : Event → Runtime → Runtime
after (round now) rt = record rt { auto_test = (should_run now rt.auto_test).1 }
after (test w settings) rt = record rt {
  auto_test = (run_auto_latency_test w settings rt.auto_test).1;
}
after (load file) rt = load_settings file rt

-- How often a run of events starts the test.
abbrev pub started_by : Event → Runtime → ℕ
started_by (round now) rt = if (should_run now rt.auto_test).0 then 1 else 0
started_by (test w settings) rt = 0
started_by (load file) rt = 0

unfoldable pub starts : List Event → Runtime → ℕ
starts [] rt = 0
starts (e ∷ es) rt = started_by e rt + starts es (after e rt)

run_keeps :
    (w : World) (settings : SettingsData) (st : AutoTestState)
    → (run_auto_latency_test w settings st).1.running ≡ st.running
unfolding run_auto_latency_test run_enabled test_nodes test_ended
run_keeps w settings st = ground arith

load_keeps :
    (file : SettingsFile) (rt : Runtime)
    → (load_settings file rt).auto_test.running ≡ rt.auto_test.running
unfolding load_settings load_starting load_auto_test
load_keeps file rt = ground arith

event_keeps :
    (e : Event) (rt : Runtime)
    → rt.auto_test.running ≡ true
    → (started_by e rt ≡ 0) × ((after e rt).auto_test.running ≡ true)
unfolding after should_run
event_keeps (round now) rt h = ground (arith, h)
event_keeps (test w settings) rt h = (refl, run_keeps w settings rt.auto_test ∙ h)
event_keeps (load file) rt h = (refl, load_keeps file rt ∙ h)

starts_none : (es : List Event) (rt : Runtime) → rt.auto_test.running ≡ true → starts es rt ≡ 0
unfolding starts
starts_none [] rt h = refl
starts_none (e ∷ es) rt h =
    let k = event_keeps e rt h in omega (arith, k.0, starts_none es (after e rt) k.1)

started_marks :
    (now : ℕ) (rt : Runtime)
    → (should_run now rt.auto_test).0 ≡ true
    → (after (round now) rt).auto_test.running ≡ true
unfolding after should_run
started_marks now rt h = ground (arith, h)

le_one : (es : List Event) (rt : Runtime) → starts es rt ≤ 1
unfolding starts after
le_one [] rt = ground arith
le_one (round now ∷ es) rt = elim (Bool-cases (should_run now rt.auto_test).0) [
  | inl t ↦
      let k = starts_none es (after (round now) rt) (started_marks now rt t) in ground (arith, k, t)
  | inr t ↦ let k = le_one es (after (round now) rt) in ground (arith, k, t)
]
le_one (test w settings ∷ es) rt =
    let k = le_one es (after (test w settings) rt) in ground (arith, k)
le_one (load file ∷ es) rt = let k = le_one es (after (load file) rt) in ground (arith, k)

-- In any sequence of rounds of `run_server`, tests and loads of the settings, the automatic test is
-- started at most once, and not at all if it was started before: no later round starts it, however
-- long ago that was.
pub starts-running :
    (es : List Event) (rt : Runtime) → starts es rt ≤ (if rt.auto_test.running then 0 else 1)
starts-running es rt = elim (Bool-cases rt.auto_test.running) [
  | inl t ↦ let k = starts_none es rt t in ground (arith, k, t)
  | inr t ↦ let k = le_one es rt in ground (arith, k, t)
]
