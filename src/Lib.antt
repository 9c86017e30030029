-- ===== src/Lib.antt =====
-- Control Tower: a daemon that runs the Mihomo proxy, keeps its configuration and updates its
-- subscriptions, with an HTTP interface, a socket for commands, and a command line client.
--
-- The program's core is crates/control-tower-service-core: the circuit breaker, the manager of the
-- Mihomo process and the store of the active configuration config.yaml. The daemon of
-- crates/control-tower-service puts a state behind locks around it, takes commands over a socket
-- (main.rs), runs the cron jobs that download subscriptions (src/scheduler.rs), keeps its settings
-- in settings.yaml, and has handlers for profiles, rules, rule providers, settings, passwords,
-- sessions and connections. The client of crates/control-tower-cli sends commands over the socket and
-- changes the files of the daemon itself.
--
-- The files and the code that they model:
--   Breaker: `CircuitBreaker` of crates/control-tower-service-core/src/state.rs. Children:
--     Invariant, History (the specification by the calls seen), Cooldown (the clock side).
--   Manager: `MihomoManager` of crates/control-tower-service-core/src/mihomo.rs, over Breaker.
--     Children: Start (one call), Machine (a step relation with the life of the process).
--   LogBuffer: `append_log` and `get_logs` of crates/control-tower-service/src/service/logging.rs.
--   Service: start, stop, status and restart of service/lifecycle.rs, over Manager; Service/Ipc:
--     `handle_command_with_state` of src/main.rs with src/ipc_types.rs, over Service and LogBuffer;
--     Service/Ipc/Machine: the daemon as a state machine.
--   Text, Files, Profiles: texts as code points with the functions of Rust's `str` that the code
--     calls, paths and files, and the records of crates/control-tower-service-core/src/profiles.rs.
--   Scheduler: `Schedule` and `ProfileCronJob` of src/scheduler.rs; Scheduler/Subscription:
--     `update_profile_subscription`; Scheduler/Cron: the operations on the list of jobs.
--   Yaml: an interface for the library serde_yaml_ng, with a concrete instance in Yaml/Instance;
--     Yaml/Tables: what is read from a mapping of which the last entry of a name counts.
--   ActiveConfig: `ActiveConfigStore` of crates/control-tower-service-core/src/active_config.rs,
--     over Yaml. ActiveConfig/Edit has the public methods, ActiveConfig/Replace has
--     `replace_from_profile`; Atomic, Rules and Replace/Spec are about what a call leaves on disk.
--   RuleList: the handlers of src/api/rules_handlers.rs, over what the files hold.
--   Session: src/session.rs. Connections: the connection history of service/settings_ops.rs and
--     `track_connections` of service/clash_api.rs.
--   Settings: the records of src/settings.rs; Settings/Store: the other functions of
--     service/settings_ops.rs; Settings/Update: `put_settings` of src/api/settings_handlers.rs;
--     Merge and Sync: what a save changes in the file and in the daemon; Settings/Auth: the handlers
--     of src/api/auth_handlers.rs, over Settings and Session.
--   Latency: service/latency_test.rs. Fastest is about one test, Once about the loop that starts it.
--     Latency/Delay: src/api/delay_handlers.rs; Agree is about both.
--   Server: `run_server` of src/main.rs, over Latency. Pace is about its cron checks.
--   Providers: the handlers of src/api/rule_provider_handlers.rs, over Settings and ActiveConfig.
--     Settled and RoundTrip are about settings.yaml, Active about config.yaml.
--   Catalog: the handlers of src/api/profile_handlers.rs, over Profiles, Settings, ActiveConfig and
--     Service: deletion in Catalog itself, and Add, Mix (the merge of profiles), Activate, Item and
--     Update, Refresh. Current and Requests are about the current profile of the manifest, InStep
--     about what an activation leaves in both configuration files, Lost and Stamp about an update of
--     the URL.
--   ConfigOps: service/config_ops.rs, over Settings and Service; ConfigOps/Dns: its section for DNS
--     and `put_dns_settings`; ConfigOps/Expected: the same section as a table of its keys.
--     Ports and Section are about what an application of ports and a PUT of the DNS settings leave in
--     both files.
--   Socket: src/ipc_server.rs, and `ipc_connect_and_send` of the client's src/service.rs, over
--     Service/Ipc. Line is about the loop that reads a message, Exchange about a command and its
--     answer.
--   Cli: the client's src/config.rs and src/profile.rs, in crates/control-tower-cli, over Profiles and
--     ActiveConfig, with the commands in Cli/Edit and Cli/Switch; Cli/Proxies: `resolve_proxy_name` of
--     proxy.rs; Cli/Settings: settings.rs;
--     Cli/Remote: what service.rs, mode.rs and proxy.rs ask the daemon or Mihomo for; Cli/Remote/Start:
--     `start_service`; Cli/Rules: rule.rs; Cli/Truncate: `truncate_str`. Shared, Activate and Cron are
--     about the manifest that the client leaves to the daemon, Lost about the settings, Named and
--     Select about the proxy that is taken, Listed about the rules that are listed.
--   Tests: runs and instances on concrete inputs. Prelude: names and lemmas that the others share.
--
-- How the code is rendered. A method that changes `&mut self` takes the state and returns it with
-- the result; a step relation is an indexed data type. What the operating system, the clock, the
-- network and the random generator answer during a call is an argument of it (`Host`, `Startup`,
-- `Internet`, `Io`, `World`, `Times`). Numbers are natural numbers; where the release build wraps
-- around, `% 2 ^ w` is written out (the counter of `mark_failure`, the differences of `u64` clocks).
-- The laws of `Yaml` are documented behaviour of the library: a parser that reads back what the
-- printer wrote, and lookup after insertion and removal. settings.yaml is what its parsers make of
-- it, and a save stores the settings as the attributes of their fields say they are read back.
-- profiles.yaml and settings.yaml, which daemon and client read with structs of their own, are what
-- the parsers of both make of them. PBKDF2, SHA-256, serde_json's texts and Unicode's tables of cases
-- are parameters; that the JSON of a value is one line that the parser reads back is a hypothesis
-- where it is used. Every loop is structural recursion but those that read a message from a socket,
-- which have a number of rounds. The five attempts of `start_service` are those of the code; a
-- socket that is not there at its first test is taken to be still missing at the second one.
--
-- Not modelled: the HTTP server, TLS and JSON shapes; the requests to Mihomo's API, which are
-- listed as actions or given by their answers; the installer, whose result is an input; of the
-- client, the parser of its arguments, its update of itself, and the tables that it prints for
-- connections and statistics. The locks are modelled as calls that run one after the other; the
-- gap in `check_and_run_crons` between its phases is visible in its parts but the jobs are not
-- changed in it.
pub mod Prelude
pub mod Breaker
pub mod Manager
pub mod LogBuffer
pub mod Service
pub mod Text
pub mod Files
pub mod Profiles
pub mod Scheduler
pub mod Yaml
pub mod ActiveConfig
pub mod RuleList
pub mod Session
pub mod Connections
pub mod Settings
pub mod Latency
pub mod Server
pub mod Providers
pub mod Catalog
pub mod ConfigOps
pub mod Socket
pub mod Cli
pub mod Tests
