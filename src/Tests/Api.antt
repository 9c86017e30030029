-- ===== src/Tests/Api.antt =====
-- The sessions of session.rs and the connection history of settings_ops.rs and clash_api.rs on
-- concrete inputs.
use control_tower.Prelude.{◌≡◌, some, String, List, [], ◌∷◌, ◌++◌, arith, take, reverse}
use control_tower.Session.{verify_session}
use control_tower.Session.History.{
  Event, created, verified, run, is_alive, login_time, IsOrdered, time, verify_session-run,
}
use control_tower.Connections.{
  ConnectionMetadata, missing, complete, get_connection_history, record_all,
}
use control_tower.Connections.Recording.{records, get_connection_history-record_all}

abbrev events : List Event
events = verified "a" 90010 ∷ created "b" 100 ∷ created "a" 5 ∷ []

events-IsOrdered : IsOrdered 90020 events
unfolding IsOrdered time
events-IsOrdered = (ground arith, (ground arith, (ground arith, tt)))

verify_session-run_example :
    (verify_session "b" 90020 (run events)).0 ≡ is_alive 90020 (login_time "b" events)
verify_session-run_example = verify_session-run "b" 90020 events (omega arith) events-IsOrdered

abbrev connection : String → ConnectionMetadata
connection name = record {
  id = name;
  source_ip = "10.0.0.1";
  destination = "a";
  chains = [];
  upload = 1;
  download = 2;
}

get_connection_history-record_all_example :
    get_connection_history (
      record_all
        (some 1)
        (λ j. complete)
        (λ i. "now")
        0
        (connection "a" ∷ connection "b" ∷ [])
        missing)
    ≡ take 1 (
        reverse (records (λ i. "now") 0 (connection "a" ∷ connection "b" ∷ []))
        ++ get_connection_history missing)
unfolding get_connection_history
get_connection_history-record_all_example =
    get_connection_history-record_all (some 1) (λ i. "now") 0 (connection "a" ∷ connection "b" ∷ [])
      missing (omega arith)
