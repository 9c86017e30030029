-- ===== src/ConfigOps/Expected.antt =====
-- The section of config.yaml for DNS, key by key, apart from the order in which the code makes it.
pub mod Keys
use control_tower.Prelude.{
  ℕ, String, Bool, true, false, Option, none, some, List, [], ◌∷◌, ◌≡◌, refl, sym, ap, ◌∙◌,
  if◌then◌else◌, map_or, or_else, is_empty, str_eq, subst, arith, eq_iff, Bool-cases, Option-cases,
  inl, inr,
}
use control_tower.Yaml.{Yaml}
use control_tower.Yaml.Tables.{last_value}
use control_tower.ActiveConfig.{strings}
use control_tower.Settings.{DnsSettings, FallbackFilter, HostEntry, NameserverPolicyEntry}
use control_tower.ConfigOps.Dns.{host_map, policy_map, filter_map, dns_map}

module _ (y : Yaml) (flag : Bool → y.Value) where
  open y use {Value, Mapping, string, sequence, mapping, new, get, insert}

  -- The value of the key `k` if it has one, and otherwise the rest of the table.
  abbrev pub given : String → String → Option Value → Option Value → Option Value
  given k j v rest = if str_eq k j then or_else v rest else rest

  -- A list that is not empty.
  abbrev pub servers : List String → Option Value
  servers xs = if is_empty xs then none else some (sequence (strings y xs))

  abbrev pub filter_value : FallbackFilter → String → Option Value
  filter_value f k = given "geoip" k (some (flag f.geoip)) (
      given "geoip-code" k (map_or f.geoip_code none (λ code. some (string code)))
        (given "ipcidr" k (servers f.ipcidr) none))

  abbrev pub HasFilter : Option FallbackFilter → Mapping → Type 0
  HasFilter none m = Unit
  HasFilter (some f) m = (k : String) → get k m ≡ filter_value f k

  abbrev pub section_value : DnsSettings → Mapping → Mapping → Mapping → String → Option Value
  section_value s filter hosts policies k = given "enable" k (some (flag true)) (
      given "listen" k (some (string "0.0.0.0:53")) (
        given "enhanced-mode" k (some (string s.enhanced_mode)) (
          given "fake-ip-range" k (some (string s.fake_ip_range)) (
            given "default-nameserver" k
              (servers ("223.5.5.5" ∷ "119.29.29.29" ∷ "114.114.114.114" ∷ []))
              (given "nameserver" k (servers s.nameserver) (
                given "fallback" k (servers s.fallback) (
                  given "fallback-filter" k
                    (map_or s.fallback_filter none (λ f. some (mapping filter)))
                    (given "hosts" k (if is_empty s.hosts then none else some (mapping hosts)) (
                      given "nameserver-policy" k
                        (if is_empty s.nameserver_policy then none else some (mapping policies))
                        none)))))))))

  -- The keys of the section and, in their mappings, those of the filter, the hosts and the policies.
  unfoldable pub IsSection : DnsSettings → Mapping → Type 0
  IsSection s section =
      (filter hosts policies : Mapping) × HasFilter s.fallback_filter filter
      × ((k : String)
          → get k hosts ≡ last_value {A = HostEntry} (λ h. h.host) (λ h. string h.ip) k s.hosts)
      × ((k : String)
          → get k policies
            ≡ last_value {A = NameserverPolicyEntry} (λ p. p.match_domain)
                (λ p. sequence (strings y p.nameserver)) k s.nameserver_policy)
      × ((k : String) → get k section ≡ section_value s filter hosts policies k)
