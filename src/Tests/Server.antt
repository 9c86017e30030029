-- ===== src/Tests/Server.antt =====
-- The loop of the daemon, the latency test and the rule providers on concrete inputs.
use mathlib.Core.List.{Permᴰ}
use control_tower.Prelude.{
  ◌++◌, any, ℕ, ◌+◌, ◌*◌, ◌≤◌, ◌<◌, ◌≡◌, refl, String, true, false, none, some, List, [], ◌∷◌,
  arith, All, drop, retain, str_eq, if◌then◌else◌, Option,
}
use control_tower.Profiles.{RuleProviderConfig}
use control_tower.Yaml.Instance.{plain, Node, str, seq, cons, nil, map_of, field, end}
use control_tower.ActiveConfig.{Disk, Io, complete, write_atomically, provider_map, change_rules}
use control_tower.ActiveConfig.Edit.{perform, edited}
use control_tower.Settings.{SettingsData, AutoTestConfig, reread}
use control_tower.Settings.Store.{
  SettingsFile, Runtime, AutoTestState, LatencyResult, get_settings, printed, first_settings,
  save_settings, missing,
}
use control_tower.Settings.Store as Store
use control_tower.Settings.Merge.{IsStable, changed, to_both}
use control_tower.Latency.{
  World, Reply, delay, timed_out, run_auto_latency_test, texts, skip_count, test_node_latency,
}
use control_tower.Latency.Fastest.{IsLeast, IsReply, latency_of, run_auto_latency_test-IsLeast}
use control_tower.Latency.Once.{Event, round, test, load, starts, starts-running}
use control_tower.Server.{Times, run_server, start}
use control_tower.Server.Pace.{IsOrdered, checks, last_begun, run_server-pace}
use control_tower.Providers.{
  RuleProviderRequest, Answers, Stores, is_valid, provider_of, providers_in, rules_in, other_name,
  other_rule, rule_set_rule, added, add_rule_provider, delete_rule_provider, add_to_active,
}
use control_tower.Latency.Delay.{Measured, global, delays, proxy_delay_all, get_fastest}
use control_tower.Latency.Agree.{is_zero, result_of, proxy_delay_all-run_auto_latency_test}
use control_tower.Providers.RoundTrip.{delete_rule_provider-add_rule_provider}
use control_tower.Providers.Active.{HasProvider, add_rule_provider-HasProvider}

abbrev idle : AutoTestState
idle = record {
  enabled = true;
  interval_secs = 900;
  last_test_at = none;
  fastest = none;
  results = [];
  running = false;
}

abbrev runtime : Runtime
runtime = record { api_host = "127.0.0.1"; api_port = 9090; auto_test = idle; patches = [] }

abbrev cfg : AutoTestConfig
cfg = record { enabled = true; interval_minutes = 15; latency_test_mode = none }

abbrev settings : SettingsData
settings = record first_settings { auto_test = some cfg }

abbrev names : List (Option String)
names = some "DIRECT" ∷ some "REJECT" ∷ none ∷ some "GLOBAL" ∷ some "a" ∷ some "b" ∷ []

abbrev reply : String → Reply
reply n = if str_eq n "a" then delay 80 else delay 30

abbrev world : World
world = record {
  running = true;
  proxies = some names;
  runtime = true;
  client = true;
  reply = λ http n. reply n;
  completed = "b" ∷ "a" ∷ [];
  started = 1000;
  ended = 1004;
}

names-Permᴰ : Permᴰ ("b" ∷ "a" ∷ []) (drop skip_count (texts names))
unfolding texts
names-Permᴰ = Permᴰ.swap refl refl

run_auto_latency_test-IsLeast_example :
    ((run_auto_latency_test world settings idle).0 ≡ 2)
    × IsReply world true ("a" ∷ "b" ∷ []) (run_auto_latency_test world settings idle).1.fastest
    × All
        (λ n.
          IsLeast
            (latency_of (run_auto_latency_test world settings idle).1.fastest)
            (test_node_latency n (reply n)).latency)
        ("a" ∷ "b" ∷ [])
unfolding texts
run_auto_latency_test-IsLeast_example =
    run_auto_latency_test-IsLeast world settings idle cfg names refl refl refl refl refl refl refl
      names-Permᴰ

abbrev events : List Event
events = round 2000 ∷ test world settings ∷ load missing ∷ round 900000 ∷ []

started_once : starts (round 2000 ∷ round 900000 ∷ []) runtime ≡ 1
unfolding starts control_tower.Latency.Once.after control_tower.Latency.should_run
started_once = ground arith

starts-running_example : starts events runtime ≤ 1
starts-running_example = starts-running events runtime

abbrev times : ℕ → Times
times t = record {
  begun = t;
  checked = t + 2;
  refreshed = t + 5;
  ended = t + 10;
  wall = 1700000000;
}

abbrev rounds : List (Times × SettingsData)
rounds = (times 1000, settings) ∷ (times 61000, settings) ∷ (times 62000, settings) ∷ []

rounds-IsOrdered : IsOrdered 0 rounds
unfolding IsOrdered
rounds-IsOrdered =
    (omega arith, omega arith, (omega arith, omega arith, (omega arith, omega arith, tt)))

run_server-pace_example :
    (60000 * checks (run_server rounds runtime (start 0 settings).1).0 + 0
      ≤ (run_server rounds runtime (start 0 settings).1).2.last_cron_check)
    × (last_begun 0 rounds
        < (run_server rounds runtime (start 0 settings).1).2.last_cron_check + 60000)
run_server-pace_example = run_server-pace rounds runtime 0 settings rounds-IsOrdered

abbrev disk : Disk plain
disk = record {
  active = some (some (map_of (field "rules" (seq (cons (str "MATCH,DIRECT") nil)) end)));
  temp = none;
}

abbrev io : Io plain
io = record { readable = true; written = complete; renamed = true }

abbrev to_value : RuleProviderConfig → Node
to_value p = str p.name

abbrev answers : Answers plain to_value
answers = record {
  saving = record { client = true; write = Store.complete };
  first = io;
  second = io;
}

abbrev stores : Stores plain to_value
stores = record { settings = printed first_settings; config = disk }

stores-IsStable : IsStable (printed first_settings)
unfolding get_settings reread
stores-IsStable = refl

abbrev request : RuleProviderRequest
request = record {
  name = "ads";
  kind = "http";
  behavior = "domain";
  url = some "https://a.b/ads";
  path = none;
  interval = none;
  enabled = none;
  lazy = none;
  filter = none;
}

request_valid : is_valid request ≡ true
unfolding is_valid
request_valid = refl

delete_rule_provider-add_rule_provider_example :
    get_settings
      (delete_rule_provider plain to_value answers runtime "ads"
        (add_rule_provider plain to_value answers runtime request stores).1).1.settings
    ≡ changed
        (to_both
          (retain (other_name "ads") (providers_in (get_settings (printed first_settings))))
          (retain
            (other_rule (rule_set_rule "ads"))
            (rules_in (get_settings (printed first_settings)))))
        (get_settings (printed first_settings))
delete_rule_provider-add_rule_provider_example =
    delete_rule_provider-add_rule_provider plain to_value answers answers runtime runtime request
      stores refl refl request_valid stores-IsStable

add_rule_provider-HasProvider_example :
    HasProvider plain to_value
      (retain (other_name "ads") (providers_in (get_settings (printed first_settings)))
        ++ provider_of request ∷ [])
      "RULE-SET,ads,REJECT"
      (map_of (field "rules" (seq (cons (str "MATCH,DIRECT") nil)) end))
      (add_rule_provider plain to_value answers runtime request stores).1.config
unfolding add_rule_provider add_to_active is_valid save_settings Store.write_settings perform edited
    write_atomically provider_map change_rules provider_of get_settings added rule_set_rule reread
add_rule_provider-HasProvider_example =
    add_rule_provider-HasProvider plain to_value answers runtime request stores
      (map_of (field "rules" (seq (cons (str "MATCH,DIRECT") nil)) end))
      (field "rules" (seq (cons (str "MATCH,DIRECT") nil)) end) refl refl refl refl

abbrev in_order : World
in_order = record world { completed = "a" ∷ "b" ∷ [] }

same_order : in_order.completed ≡ drop skip_count (texts names)
unfolding texts
same_order = refl

no_zero : any (λ n. is_zero (reply n)) (drop skip_count (texts names)) ≡ false
unfolding texts
no_zero = refl

proxy_delay_all-run_auto_latency_test_example :
    (best : Option (String × ℕ)) × (rs : List Measured) × (proxy_delay_all
        (global names)
        in_order.reply
        "http"
      ≡ delays rs best)
    × ((get_fastest (run_auto_latency_test in_order settings idle).1).fastest ≡ result_of best)
proxy_delay_all-run_auto_latency_test_example =
    proxy_delay_all-run_auto_latency_test in_order settings cfg idle names "http" refl refl refl
      refl refl refl same_order refl no_zero
