-- ===== src/Settings/Auth/Login.antt =====
-- Who can log in after a password is set, and how long.
use Prim.Native.String
use control_tower.Prelude.{
  ℕ, ◌+◌, ◌^◌, ◌≤◌, ◌<◌, ◌≡◌, ◌≢◌, refl, String, Bool, true, false, some, str_eq, if◌then◌else◌,
  arith, eq_iff, ltb, inl, inr, Bool-cases,
}
use control_tower.Session.{Sessions, create_session}
use control_tower.Session.History.{verify_session-create_session}
use control_tower.Settings.{reread}
use control_tower.Settings.Store.{
  SettingsFile, Runtime, complete, get_settings, save_settings, write_settings, merge_settings,
}
use control_tower.Settings.Auth.{
  bearer, token, unauthorized, login, login_with, verify_hash, setup_password, with_key, answered,
  check_auth, check_session_token, auth_enabled,
}

module _ (pbkdf2_hash : String → String) (sha256 : String → String) (client : Bool) where
  -- The settings file after a password is set with a write that completes.
  abbrev pub after_setup : String → SettingsFile → Runtime → SettingsFile
  after_setup password file rt =
      (setup_password pbkdf2_hash (record { client = client; write = complete }) password file rt).1

  auth_after :
      (password : String) (file : SettingsFile) (rt : Runtime)
      → ltb (String.len password) 6 ≡ false
      → (get_settings (after_setup password file rt)).auth
        ≡ some (with_key (pbkdf2_hash password) (get_settings file))
  unfolding setup_password answered save_settings write_settings get_settings merge_settings reread
  auth_after password file rt h = rw (h, get_settings) refl

  -- After a password of at least six bytes is set with a write that completes, whatever password was
  -- set before, a login with a nonce answers with a new token exactly if the hash is that of the
  -- password's key and the nonce, and is refused otherwise; and `check_auth` accepts a request with
  -- the token for a day. The key of the password is not the empty text.
  pub login-setup_password :
      (password : String) (file : SettingsFile) (rt : Runtime) (hash nonce fresh : String)
      (now later : ℕ) (m : Sessions)
      → 6 ≤ String.len password
      → pbkdf2_hash password ≢ ""
      → now ≤ later
      → later < now + 86400
      → later < 2 ^ 64
      → (login sha256 hash nonce (after_setup password file rt) fresh now m ≡ (
          if str_eq hash (sha256 (String.◌++◌ (pbkdf2_hash password) nonce))
          then (token fresh, (create_session fresh now m).1)
          else (unauthorized, m)))
        × ((check_auth
              (bearer fresh)
              (after_setup password file rt)
              later
              (create_session fresh now m).1).0
            ≡ true)
  unfolding login login_with verify_hash with_key create_session check_auth check_session_token
  login-setup_password password file rt hash nonce fresh now later m long e after before small =
      let h : ltb (String.len password) 6 ≡ false = ground arith in
      let ne : str_eq (pbkdf2_hash password) "" ≡ false =
        ground (arith, eq_iff (pbkdf2_hash password) "") in
      let v = verify_session-create_session fresh now later m after before small in
      (
        rw (auth_after password file rt h, ne)
            (elim (Bool-cases (str_eq hash (sha256 (String.◌++◌ (pbkdf2_hash password) nonce)))) [
              | inl t ↦ rw t refl
              | inr t ↦ rw t refl
            ]),
        elim (Bool-cases (auth_enabled (get_settings (after_setup password file rt)))) [
          | inl t ↦ rw t v
          | inr t ↦ rw t refl
        ],
      )
