-- ===== src/Settings/Auth.antt =====
-- The password of the HTTP API: api/auth_handlers.rs, and `check_auth` and `require_auth` of
-- api/helpers.rs, over the settings and the sessions. PBKDF2 and SHA-256, with their salt and
-- rounds, are the parameters `pbkdf2_hash` and `sha256`, from texts to texts of hexadecimal digits.
pub mod Login
use Prim.Native.String
use control_tower.Prelude.{
  ℕ, ◌^◌, String, Bool, true, false, not, ◌&&◌, ◌||◌, Option, none, some, if◌then◌else◌, ltb,
  str_eq, map_or, and_then, unwrap_or, is_empty,
}
use control_tower.Session.{Session, Sessions, create_session, verify_session, remove_session}
use control_tower.Settings.{SettingsData, AuthConfig}
use control_tower.Settings.Store.{SettingsFile, Runtime, Host, Saved, get_settings, save_settings}

-- The header Authorization of a request: absent, of another form, or `Bearer ` and a token.
pub data Authorization : Type 0 where
  absent other : Authorization
  bearer : String → Authorization

-- The answers, with the token of a login; `unauthorized` is that of a nonce or a login that is
-- refused, and `unset` that of a password that is not set.
pub data Answer : Type 0 where
  done too_short not_configured unset unauthorized internal_error : Answer
  challenge : String → Answer
  token : String → Answer
  status : Bool → Bool → Bool → Answer

auth_enabled : SettingsData → Bool
auth_enabled s = map_or s.auth true (λ a. a.enabled)

password_set : SettingsData → Bool
password_set s = map_or (and_then s.auth (λ a. a.password)) false (λ p. not (str_eq p ""))

-- `random` is the text that the random generator gives.
unfoldable pub get_nonce : String → SettingsFile → Answer
unfolding auth_enabled password_set
get_nonce random file =
    let s : SettingsData = get_settings file in
    if not (auth_enabled s) || not (password_set s) then not_configured else challenge random

unfoldable pub check_session_token : Authorization → ℕ → Sessions → Bool × Sessions
check_session_token absent now m = (false, m)
check_session_token other now m = (false, m)
check_session_token (bearer t) now m = verify_session t now m

unfoldable pub get_auth_status : Authorization → SettingsFile → ℕ → Sessions → Answer × Sessions
unfolding auth_enabled password_set check_session_token
get_auth_status header file now m =
    let s : SettingsData = get_settings file in
    let checked : Bool × Sessions = check_session_token header now m in
    (status (auth_enabled s) (password_set s) checked.0, checked.1)

unfoldable pub logout : Authorization → Sessions → Answer × Sessions
logout absent m = (done, m)
logout other m = (done, m)
logout (bearer t) m = (done, remove_session t m)

-- `check_auth`, which `require_auth` turns into an option.
unfoldable pub check_auth : Authorization → SettingsFile → ℕ → Sessions → Bool × Sessions
unfolding auth_enabled check_session_token
check_auth header file now m =
    if auth_enabled (get_settings file) then check_session_token header now m else (true, m)

-- A session whose token is the next of the random generator, if the hash is the expected one.
unfoldable pub verify_hash : Bool → String → ℕ → Sessions → Answer × Sessions
verify_hash true fresh now m =
    let created : String × Sessions = create_session fresh now m in (token created.0, created.1)
verify_hash false fresh now m = (unauthorized, m)

module _ (sha256 : String → String) where
  login_with : AuthConfig → String → String → String → ℕ → Sessions → Answer × Sessions
  unfolding verify_hash
  login_with a hash nonce fresh now m =
      map_or a.password (unset, m)
        (λ stored_key.
          if str_eq stored_key ""
          then (unset, m)
          else verify_hash (str_eq hash (sha256 (String.◌++◌ stored_key nonce))) fresh now m)

  unfoldable pub login : String → String → SettingsFile → String → ℕ → Sessions → Answer × Sessions
  unfolding login_with
  login hash nonce file fresh now m =
      let s : SettingsData = get_settings file in
      map_or s.auth (not_configured, m) (λ a. login_with a hash nonce fresh now m)

answered : Saved → Answer × SettingsFile × Runtime
answered (true, file, rt) = (done, file, rt)
answered (false, file, rt) = (internal_error, file, rt)

-- The settings with a new key; without an entry `auth`, one that is enabled is made.
unfoldable pub with_key : String → SettingsData → AuthConfig
with_key key s = record (unwrap_or s.auth (record { enabled = true; password = none })) {
  password = some key;
}

-- `body.password.len()` counts bytes.
unfoldable pub setup_password :
    (pbkdf2_hash : String → String)
    → Host
    → String
    → SettingsFile
    → Runtime
    → Answer × SettingsFile × Runtime
unfolding answered with_key
setup_password pbkdf2_hash host password file rt =
    let s : SettingsData = get_settings file in
    if ltb (String.len password) 6
    then (too_short, file, rt)
    else answered
        (save_settings host (record s { auth = some (with_key (pbkdf2_hash password) s) }) file rt)
