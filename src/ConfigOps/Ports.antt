-- ===== src/ConfigOps/Ports.antt =====
-- What the application of ports leaves in config.yaml and in settings.yaml.
use control_tower.Prelude.{
  ℕ, String, Bool, true, false, Option, none, some, ◌≡◌, refl, sym, subst, if◌then◌else◌, str_eq,
  or_else, map_or, arith, Bool-cases, inl, inr,
}
use control_tower.Yaml.{Yaml}
use control_tower.ActiveConfig.{
  Result, ok, err, or_fail, yaml_error, Disk, Written, complete, failed, get_key, with_mapping,
}
use control_tower.Manager
use control_tower.Settings.{SettingsData, reread}
use control_tower.Settings.Store.{
  SettingsFile, Runtime, Host, Write, get_settings, merge_settings, save_settings, write_settings,
  load_settings_ports,
}
use control_tower.Settings.Store as Store
use control_tower.ConfigOps.{File, Daemon, Answers, write, update_config, update_content}

wrote :
    (w : Write) (s : SettingsData) (file : SettingsFile) (rt : Runtime)
    → (write_settings w s file rt).0 ≡ true
    → get_settings (write_settings w s file rt).1 ≡ reread s
unfolding write_settings get_settings
wrote Store.complete s file rt h = refl
wrote Store.unprinted s file rt h = ground (arith, h)
wrote (Store.failed left) s file rt h = ground (arith, h)

pub saved_lem :
    (host : Host) (new : SettingsData) (file : SettingsFile) (rt : Runtime)
    → (save_settings host new file rt).0 ≡ true
    → get_settings (save_settings host new file rt).1
      ≡ reread (merge_settings new (get_settings file))
unfolding save_settings
saved_lem host new file rt h = wrote host.write (merge_settings new (get_settings file)) file _ h

-- What is read after the ports are saved.
abbrev pub with_ports : ℕ → ℕ → Runtime → SettingsFile → SettingsData → SettingsData
with_ports http_port socks_port rt file s = record s {
  api_host = some "127.0.0.1";
  api_port = some rt.api_port;
  http_port = some http_port;
  socks_port = some socks_port;
  service_port = some 8080;
  tun_enabled = or_else (load_settings_ports file).tun_enabled s.tun_enabled;
}

module _ (y : Yaml) (flag : Bool → y.Value) (address : String → ℕ → String) where
  open y use {Content, Value, Mapping, from_str, to_string, as_mapping, string, number, insert}

  abbrev Ans : Type 0
  Ans = Answers y flag address

  abbrev State : Type 0
  State = Daemon y flag address

  write_lem :
      (w : Written y) (d : Disk y) (r : Result Content)
      → (write y flag address w d r).0 ≡ true
      → (c : Content) × (r ≡ ok c) × ((write y flag address w d r).1.active ≡ some c)
  unfolding write
  write_lem w d (err e) h = ground (arith, h)
  write_lem complete d (ok c) h = (c, refl, refl)
  write_lem (failed left) d (ok c) h = ground (arith, h)

  or_fail_lem : (o : Option Content) (c : Content) → or_fail o yaml_error ≡ ok c → o ≡ some c
  or_fail_lem none c h = ground (arith, h)
  or_fail_lem (some b) c h = ground (arith, h)

  update_content-from_str :
      (f : Mapping → Mapping) (a : File y flag address) (d : Disk y) (c : Content) (v : Value)
      → from_str c ≡ some v
      → (update_content y flag address f a d c).0 ≡ true
      → (c' : Content) × ((update_content y flag address f a d c).1.active ≡ some c')
        × (from_str c' ≡ some (with_mapping y f v))
  unfolding update_content
  update_content-from_str f a d c v k = elim (Bool-cases a.readable) [
    | inl r ↦
        rw (r, k)
          (λ h.
            let new : Option Content = to_string (with_mapping y f v) in
            let (c', o, w) = write_lem a.written d (or_fail new yaml_error) h in
            (c', w, y.read_back (with_mapping y f v) c' (or_fail_lem new c' o)))
    | inr r ↦ rw r (λ h. ground (arith, h))
  ]

  -- A change that succeeds is in the file.
  pub update_config-from_str :
      (f : Mapping → Mapping) (a : File y flag address) (d : Disk y) (c : Content) (v : Value)
      → d.active ≡ some c
      → from_str c ≡ some v
      → (update_config y flag address f a d).0 ≡ true
      → (c' : Content) × ((update_config y flag address f a d).1.active ≡ some c')
        × (from_str c' ≡ some (with_mapping y f v))
  unfolding update_config
  update_config-from_str f a d c v e k =
      subst
        (λ o.
          (map_or o (false, d) (update_content y flag address f a d)).0 ≡ true
          → (c' : Content) × ((map_or o (false, d) (update_content y flag address f a d)).1.active
              ≡ some c')
            × (from_str c' ≡ some (with_mapping y f v)))
        (sym e) (update_content-from_str f a d c v k)

  -- The value of a key after the ports are set.
  abbrev pub port_value : Option Value → String → ℕ → ℕ → String → Option Value
  port_value old controller http_port socks_port k =
      if str_eq "external-controller" k
      then some (string controller)
      else if str_eq "socks-port" k
      then some (number socks_port)
      else if str_eq "mixed-port" k
      then some (number http_port)
      else old

  -- config.yaml parses to the old value with the ports set.
  unfoldable pub PortsSet : Value → String → ℕ → ℕ → Disk y → Type 0
  PortsSet v controller http_port socks_port d =
      (c : Content) × (w : Value) × (d.active ≡ some c)
      × (from_str c ≡ some w)
      × ((k : String)
          → get_key y k w ≡ port_value (get_key y k v) controller http_port socks_port k)
