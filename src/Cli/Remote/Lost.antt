-- ===== src/Cli/Remote/Lost.antt =====
-- What the client leaves of the daemon's settings when it changes the mode.
use control_tower.Prelude.{
  ℕ, String, Bool, true, false, ◌≡◌, refl, ap, ◌∙◌, Option, some, none, unwrap_or, arith, if_elim,
}
use control_tower.Profiles.{RuleProviderConfig}
use control_tower.Yaml.{Yaml}
use control_tower.ActiveConfig.{Io}
use control_tower.Service.Ipc as Ipc
use control_tower.Service.Ipc.{IpcCommand, IpcResponse}
use control_tower.Session.{Sessions}
use control_tower.Settings.{SettingsData, no_settings, reread}
use control_tower.Settings.Store.{get_settings}
use control_tower.Settings.Auth.{login, not_configured}
use control_tower.Socket.{Response, Codec}
use control_tower.Cli.Settings.{
  written_by_daemon, daemon_file, SharedFile, load_settings, complete, set_mode,
}
use control_tower.Cli.Remote.{
  Remote, Session, is_mode, done, persist_mode, change_mode, set_current_mode,
}

-- The seven entries that the client knows, with the new mode.
abbrev pub shared : String → SettingsData → SettingsData
shared mode s = record no_settings {
  api_port = s.api_port;
  http_port = s.http_port;
  socks_port = s.socks_port;
  service_port = s.service_port;
  tun_enabled = some (unwrap_or s.tun_enabled false);
  log_level = s.log_level;
  mode = some mode;
}

get_settings-set_mode :
    (mode : String) (d : SettingsData)
    → get_settings (
        daemon_file
          (set_mode complete mode (load_settings (written_by_daemon d)) (written_by_daemon d)).1)
      ≡ shared mode d
unfolding set_mode load_settings get_settings reread
get_settings-set_mode mode d = refl

module _ {J V : Type 0} (y : Yaml) (to_value : RuleProviderConfig → y.Value)
    (commands : Codec IpcCommand) (responses : Codec (Response V))
    (wire : IpcResponse J → Response V) (sha256 : String → String) where
  -- The daemon finds just these settings, and every login is refused.
  unfoldable pub IsLost : String → SettingsData → SharedFile → Type 0
  IsLost mode d f =
      (get_settings (daemon_file f) ≡ shared mode d)
      × ((hash nonce fresh : String) (now : ℕ) (m : Sessions)
          → login sha256 hash nonce (daemon_file f) fresh now m ≡ (not_configured, m))

  login-none :
      (f : SharedFile) (mode : String) (d : SettingsData)
      → get_settings (daemon_file f) ≡ shared mode d
      → (hash nonce fresh : String) (now : ℕ) (m : Sessions)
      → login sha256 hash nonce (daemon_file f) fresh now m ≡ (not_configured, m)
  unfolding login
  login-none f mode d e hash nonce fresh now m = rw e refl

  file-persist_mode :
      (io : Option (Io y)) (mode : String) (s : Session y to_value commands responses wire)
      → (persist_mode y to_value commands responses wire complete io mode s).file
        ≡ (set_mode complete mode s.settings s.file).1
  unfolding persist_mode
  file-persist_mode none mode s = refl
  file-persist_mode (some io) mode s = refl

  -- Whenever the client sets the mode, with settings.yaml as the daemon has written it and a write
  -- that completes, and reports success, the mode is one of the three, and the daemon then finds in
  -- settings.yaml the new mode and six other entries of before alone: the password, custom rules,
  -- rule providers, DNS and all the rest are gone, and every login is answered with not configured.
  pub set_current_mode-IsLost :
      (r : Remote y to_value commands responses wire) (io : Option (Io y)) (mode : String)
      (s : Session y to_value commands responses wire) (d : SettingsData)
      → s.file ≡ written_by_daemon d
      → s.settings ≡ load_settings s.file
      → (set_current_mode y to_value commands responses wire r complete io mode s).0 ≡ true
      → (is_mode mode ≡ true)
        × IsLost mode d
            (set_current_mode y to_value commands responses wire r complete io mode s).1.file
  unfolding set_current_mode change_mode IsLost
  set_current_mode-IsLost r io mode s d e l =
      let P : Bool × Session y to_value commands responses wire → Type 0 =
        λ o. o.0 ≡ true → (is_mode mode ≡ true) × IsLost mode d o.1.file in
      let new = persist_mode y to_value commands responses wire complete io mode s in
      let found : get_settings (daemon_file new.file) ≡ shared mode d =
        ap (λ f. get_settings (daemon_file f))
          (file-persist_mode io mode s
            ∙ (ap (λ c. (set_mode complete mode c s.file).1) l
                ∙ ap (λ f. (set_mode complete mode (load_settings f) f).1) e))
        ∙ get_settings-set_mode mode d in
      if_elim P (is_mode mode) (change_mode y to_value commands responses wire r complete io mode s)
        (false, s)
        (λ b.
          if_elim P (done y to_value commands responses wire r (Ipc.mode mode)) (true, new)
            (false, s) (λ x h. (b, (found, login-none new.file mode d found)))
            (λ x h. absurd (ground (arith, h))))
        (λ b h. absurd (ground (arith, h)))
