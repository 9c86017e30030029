-- ===== src/Tests/Settings.antt =====
-- The settings and the password on concrete inputs.
use Prim.Native.String
use control_tower.Prelude.{
  ◌≡◌, ◌≢◌, refl, String, true, false, none, some, [], arith, eq_iff, str_eq, if◌then◌else◌,
}
use control_tower.Session.{create_session}
use control_tower.Settings.{reread}
use control_tower.Settings.Store.{
  SettingsFile, missing, printed, Runtime, complete, get_settings, save_settings,
  ensure_settings_file, first_settings, get_latency_test_mode,
}
use control_tower.Settings.Merge.{IsStable, changed, to_mode, get_settings-save_settings}
use control_tower.Settings.Update.{UpdateSettingsRequest, put_settings, get_settings-put_settings}
use control_tower.Settings.Auth.{bearer, token, unauthorized, login, check_auth}
use control_tower.Settings.Auth.Login.{after_setup, login-setup_password}

abbrev runtime : Runtime
runtime = record {
  api_host = "127.0.0.1";
  api_port = 9090;
  auto_test = record {
    enabled = false;
    interval_secs = 0;
    last_test_at = none;
    fastest = none;
    results = [];
    running = false;
  };
  patches = [];
}

abbrev file : SettingsFile
file = printed first_settings

file-IsStable : IsStable file
unfolding get_settings reread
file-IsStable = refl

mode_of_file : get_latency_test_mode (ensure_settings_file complete missing) ≡ "http"
unfolding get_latency_test_mode ensure_settings_file get_settings reread
mode_of_file = refl

get_settings-save_settings_example :
    (get_settings
        (save_settings
          (record { client = true; write = complete })
          (changed (to_mode "global") (get_settings file))
          file
          runtime).1
      ≡ changed (to_mode "global") (get_settings file))
    × IsStable
        (save_settings
          (record { client = true; write = complete })
          (changed (to_mode "global") (get_settings file))
          file
          runtime).1
get_settings-save_settings_example =
    get_settings-save_settings (to_mode "global") true file runtime file-IsStable

abbrev request : UpdateSettingsRequest
request = record {
  api_host = none;
  api_port = some 9091;
  http_port = none;
  socks_port = none;
  mixed_port = some 7892;
  service_port = none;
  tun_enabled = none;
  log_level = some "debug";
  allow_lan = none;
  ipv6 = none;
  tcp_concurrent = none;
  mode = none;
  latency_test_mode = none;
  auto_test = none;
}

get_settings-put_settings_example :
    get_settings (put_settings (record { client = true; write = complete }) request file runtime).1
    ≡ record (get_settings file) { api_port = some 9091; log_level = some "debug" }
unfolding get_settings reread
get_settings-put_settings_example =
    get_settings-put_settings true request file runtime file-IsStable

abbrev key : String → String
key p = "6b"

key-nonempty : key "secret" ≢ ""
key-nonempty = ground (arith, eq_iff "6b" "", differ)
  where
    differ : str_eq "6b" "" ≡ false
    differ = refl

login-setup_password_example :
    (login
        (λ s. s)
        "6b01"
        "01"
        (after_setup key (λ s. s) true "secret" file runtime)
        "t"
        100
        (λ t. none)
      ≡ (if str_eq "6b01" (String.◌++◌ "6b" "01")
          then (token "t", (create_session "t" 100 (λ t. none)).1)
          else (unauthorized, λ t. none)))
    × ((check_auth
          (bearer "t")
          (after_setup key (λ s. s) true "secret" file runtime)
          200
          (create_session "t" 100 (λ t. none)).1).0
        ≡ true)
login-setup_password_example =
    login-setup_password key (λ s. s) true "secret" file runtime "6b01" "01" "t" 100 200 (λ t. none)
      (omega arith) key-nonempty (omega arith) (omega arith) (omega arith)
