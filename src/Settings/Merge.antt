-- ===== src/Settings/Merge.antt =====
-- What a save of settings.yaml changes: callers read the settings, change an entry and save them.
use control_tower.Prelude.{
  String, Bool, Option, none, some, List, [], ◌∷◌, ◌≡◌, refl, sym, ap, ◌∙◌, or_else, is_empty,
  if◌then◌else◌, Bool-cases, inl, inr, str_eq, ◌≢◌,
}
use control_tower.Profiles.{RuleProviderConfig}
use control_tower.Settings.{
  SettingsData, AuthConfig, DnsSettings, reread, reread_dns, text_or_default,
}
use control_tower.Settings.Store.{
  SettingsFile, Runtime, get_settings, merge_settings, save_settings, complete, Host, failed,
  write_settings, Write-cases,
}

pub or_else_same {ℓ} : {A : Type ℓ} (o : Option A) → or_else o o ≡ o
or_else_same none = refl
or_else_same (some a) = refl

pub given_same {ℓ} : {A : Type ℓ} (xs : List A) → (if is_empty xs then xs else xs) ≡ xs
given_same [] = refl
given_same (x ∷ xs) = refl

merge_same : (s : SettingsData) → merge_settings s s ≡ s
unfolding merge_settings
merge_same s = λ i. record s {
  api_host = or_else_same s.api_host i;
  api_port = or_else_same s.api_port i;
  http_port = or_else_same s.http_port i;
  socks_port = or_else_same s.socks_port i;
  service_port = or_else_same s.service_port i;
  tun_enabled = or_else_same s.tun_enabled i;
  log_level = or_else_same s.log_level i;
  allow_lan = or_else_same s.allow_lan i;
  ipv6 = or_else_same s.ipv6 i;
  tcp_concurrent = or_else_same s.tcp_concurrent i;
  mode = or_else_same s.mode i;
  latency_test_mode = or_else_same s.latency_test_mode i;
  auto_test = or_else_same s.auto_test i;
  custom_rules = or_else_same s.custom_rules i;
  profile_rules_count = or_else_same s.profile_rules_count i;
  auto_update_on_startup = or_else_same s.auto_update_on_startup i;
  rule_providers = or_else_same s.rule_providers i;
  dns = or_else_same s.dns i;
  connection_history = or_else_same s.connection_history i;
  auth = or_else_same s.auth i;
  closed_connections = given_same s.closed_connections i;
}

-- The changes that callers make to what they have read.
pub data Change : Type 0 where
  to_mode : String → Change
  to_auth : AuthConfig → Change
  to_dns : DnsSettings → Change
  to_rules : List String → Change
  to_providers : List RuleProviderConfig → Change
  to_both : List RuleProviderConfig → List String → Change

abbrev pub changed : Change → SettingsData → SettingsData
changed (to_mode m) s = record s { mode = some m }
changed (to_auth a) s = record s { auth = some a }
changed (to_dns d) s = record s { dns = some (reread_dns d) }
changed (to_rules rs) s = record s { custom_rules = some rs }
changed (to_providers ps) s = record s { rule_providers = some ps }
changed (to_both ps rs) s = record s { rule_providers = some ps; custom_rules = some rs }

merge_changed : (c : Change) (s : SettingsData) → merge_settings (changed c s) s ≡ changed c s
unfolding merge_settings
merge_changed (to_mode m) s = ap (changed (to_mode m)) (merge_same s)
merge_changed (to_auth a) s = ap (changed (to_auth a)) (merge_same s)
merge_changed (to_dns d) s = ap (changed (to_dns d)) (merge_same s)
merge_changed (to_rules rs) s = ap (changed (to_rules rs)) (merge_same s)
merge_changed (to_providers ps) s = ap (changed (to_providers ps)) (merge_same s)
merge_changed (to_both ps rs) s = ap (changed (to_both ps rs)) (merge_same s)

text_or_default_twice :
    (d s : String) → text_or_default d (text_or_default d s) ≡ text_or_default d s
text_or_default_twice d s = elim (Bool-cases (str_eq s "")) [
  | inl e ↦ rw e (default_kept d)
  | inr e ↦ rw e (rw e refl)
]
  where
    default_kept : (d : String) → text_or_default d d ≡ d
    default_kept d = elim (Bool-cases (str_eq d "")) [ inl e ↦ rw e refl | inr e ↦ rw e refl ]

reread_dns_twice : (d : DnsSettings) → reread_dns (reread_dns d) ≡ reread_dns d
unfolding reread_dns
reread_dns_twice d = λ i. record d {
  enhanced_mode = text_or_default_twice "fake-ip" d.enhanced_mode i;
  fake_ip_range = text_or_default_twice "198.18.0.1/15" d.fake_ip_range i;
}

pub reread-changed : (c : Change) (s : SettingsData) → reread (changed c s) ≡ changed c (reread s)
unfolding reread
reread-changed (to_mode m) s = refl
reread-changed (to_auth a) s = refl
reread-changed (to_dns d) s = ap (λ e. record s { dns = some e }) (reread_dns_twice d)
reread-changed (to_rules rs) s = refl
reread-changed (to_providers ps) s = refl
reread-changed (to_both ps rs) s = refl

-- The settings as a save would leave them, which every save makes true.
abbrev pub IsStable : SettingsFile → Type 0
IsStable file = reread (get_settings file) ≡ get_settings file

pub saved_as :
    (client : Bool) (new : SettingsData) (file : SettingsFile) (rt : Runtime)
    → get_settings (save_settings (record { client = client; write = complete }) new file rt).1
      ≡ reread (merge_settings new (get_settings file))
unfolding save_settings get_settings write_settings
saved_as client new file rt = refl

-- Of settings that were read, of which one entry, or the providers and the rules together, are
-- changed, and which are saved with a write that completes, exactly those are read that were saved.
-- The settings were such as a save leaves them, and are so again.
pub get_settings-save_settings :
    (c : Change) (client : Bool) (file : SettingsFile) (rt : Runtime)
    → IsStable file
    → (get_settings
          (save_settings
            (record { client = client; write = complete })
            (changed c (get_settings file))
            file
            rt).1
        ≡ changed c (get_settings file))
      × IsStable
          (save_settings
            (record { client = client; write = complete })
            (changed c (get_settings file))
            file
            rt).1
get_settings-save_settings c client file rt stable =
    let s : SettingsData = get_settings file in
    let e =
      saved_as client (changed c s) file rt
      ∙ (ap reread (merge_changed c s) ∙ (reread-changed c s ∙ ap (changed c) stable)) in
    (e, ap reread e ∙ (reread-changed c s ∙ (ap (changed c) stable ∙ sym e)))

-- Whatever settings are saved, with whatever result of the write, `mixed_port` and the HTTPS
-- entries that are read afterwards are those of before, unless a failed write damages the file.
save_settings-mixed_port :
    (host : Host) (new : SettingsData) (file : SettingsFile) (rt : Runtime)
    → ((left : SettingsFile) → host.write ≢ failed left)
    → ((get_settings (save_settings host new file rt).1).mixed_port
        ≡ (get_settings file).mixed_port)
      × ((get_settings (save_settings host new file rt).1).https ≡ (get_settings file).https)
unfolding save_settings write_settings get_settings merge_settings reread
save_settings-mixed_port host new file rt h = elim (Write-cases host.write) [
  | inl e ↦ rw e (refl, refl)
  | inr (inl e) ↦ rw e (refl, refl)
  | inr (inr (left, e)) ↦ elim (h left e) [ ]
]

-- Saved without rules, the settings keep those that were there.
pub get_settings-save_providers :
    (ps : List RuleProviderConfig) (client : Bool) (file : SettingsFile) (rt : Runtime)
    → IsStable file
    → get_settings
        (save_settings
          (record { client = client; write = complete })
          (record (changed (to_providers ps) (get_settings file)) { custom_rules = none })
          file
          rt).1
      ≡ changed (to_providers ps) (get_settings file)
unfolding merge_settings reread
get_settings-save_providers ps client file rt stable =
    let s : SettingsData = get_settings file in
    saved_as client (record (changed (to_providers ps) s) { custom_rules = none }) file rt
    ∙ (ap reread
          (λ i. record (merge_same s i) { custom_rules = s.custom_rules; rule_providers = some ps })
        ∙ (reread-changed (to_providers ps) s ∙ ap (changed (to_providers ps)) stable))
