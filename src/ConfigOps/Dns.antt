-- ===== src/ConfigOps/Dns.antt =====
-- `apply_dns_settings` of service/config_ops.rs: the section of config.yaml for DNS; and
-- `put_dns_settings` of api/settings_handlers.rs.
use control_tower.Prelude.{
  ℕ, String, Bool, true, false, Option, none, some, List, [], ◌∷◌, if◌then◌else◌, map_or, is_empty,
}
use control_tower.Yaml.{Yaml}
use control_tower.ActiveConfig.{Disk, strings}
use control_tower.Settings.{DnsSettings, FallbackFilter, HostEntry, NameserverPolicyEntry}
use control_tower.Settings.{no_settings}
use control_tower.Settings.Store.{Host, Saved, save_settings}
use control_tower.ConfigOps.{Failure, no_config, no_settings_saved, File, Daemon, update_config}

module _ (y : Yaml) (flag : Bool → y.Value) (address : String → ℕ → String) where
  open y use {Value, Mapping, string, sequence, mapping, new, insert, remove}

  -- A list that is empty is left out.
  abbrev pub listed : String → List String → Mapping → Mapping
  listed k xs m = if is_empty xs then m else insert k (sequence (strings y xs)) m

  abbrev pub host_map : List HostEntry → Mapping → Mapping
  host_map [] m = m
  host_map (h ∷ hs) m = host_map hs (insert h.host (string h.ip) m)

  abbrev pub policy_map : List NameserverPolicyEntry → Mapping → Mapping
  policy_map [] m = m
  policy_map (p ∷ ps) m =
      policy_map ps (insert p.match_domain (sequence (strings y p.nameserver)) m)

  unfoldable pub filter_map : FallbackFilter → Mapping
  filter_map f =
      let m : Mapping = insert "geoip" (flag f.geoip) new in
      listed "ipcidr" f.ipcidr (map_or f.geoip_code m (λ code. insert "geoip-code" (string code) m))

  abbrev pub default_nameservers : List String
  default_nameservers = "223.5.5.5" ∷ "119.29.29.29" ∷ "114.114.114.114" ∷ []

  unfoldable pub dns_map : DnsSettings → Mapping
  unfolding filter_map
  dns_map s =
      let fixed : Mapping = insert "default-nameserver" (sequence (strings y default_nameservers)) (
        insert "fake-ip-range" (string s.fake_ip_range) (
          insert "enhanced-mode" (string s.enhanced_mode)
            (insert "listen" (string "0.0.0.0:53") (insert "enable" (flag true) new)))) in
      let servers : Mapping =
        listed "fallback" s.fallback (listed "nameserver" s.nameserver fixed) in
      let filtered : Mapping =
        map_or s.fallback_filter servers
          (λ f. insert "fallback-filter" (mapping (filter_map f)) servers) in
      let hosts : Mapping =
        if is_empty s.hosts
        then filtered
        else insert "hosts" (mapping (host_map s.hosts new)) filtered in
      if is_empty s.nameserver_policy
      then hosts
      else insert "nameserver-policy" (mapping (policy_map s.nameserver_policy new)) hosts

  unfoldable pub set_dns : DnsSettings → Mapping → Mapping
  unfolding dns_map
  set_dns s m = if s.enable then insert "dns" (mapping (dns_map s)) m else remove "dns" m

  unfoldable pub apply_dns_settings : DnsSettings → File y flag address → Disk y → Bool × Disk y
  unfolding update_config set_dns
  apply_dns_settings s = update_config y flag address (set_dns s)

  unfoldable pub dns_saved : Daemon y flag address → Saved → Option Failure × Daemon y flag address
  dns_saved s (stored, file, rt) =
      (if stored then none else some no_settings_saved, record s { settings = file; runtime = rt })

  unfoldable pub dns_applied :
      Host
      → DnsSettings
      → Daemon y flag address
      → Bool × Disk y
      → Option Failure × Daemon y flag address
  unfolding dns_saved save_settings
  dns_applied host dns s (false, d) = (some no_config, record s { config = d })
  dns_applied host dns s (true, d) =
      dns_saved (record s { config = d })
        (save_settings host (record no_settings { dns = some dns }) s.settings s.runtime)

  -- The settings are saved after config.yaml is written; Mihomo is not restarted.
  unfoldable pub put_dns_settings :
      File y flag address
      → Host
      → DnsSettings
      → Daemon y flag address
      → Option Failure × Daemon y flag address
  unfolding dns_applied apply_dns_settings
  put_dns_settings file host dns s = dns_applied host dns s (apply_dns_settings dns file s.config)
