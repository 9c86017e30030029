-- ===== src/ConfigOps/Expected/Keys.antt =====
-- The keys of the section for DNS as `apply_dns_settings` makes it are the expected ones.
use control_tower.Prelude.{
  ℕ, String, Bool, true, false, Option, none, some, List, [], ◌∷◌, ◌≡◌, refl, sym, ap, ◌∙◌,
  if◌then◌else◌, map_or, or_else, is_empty, str_eq, subst, arith, eq_iff, Bool-cases, inl, inr,
}
use control_tower.Yaml.{Yaml}
use control_tower.Yaml.Tables.{last_value, last_more, at_new}
use control_tower.ActiveConfig.{strings}
use control_tower.Settings.{DnsSettings, FallbackFilter, HostEntry, NameserverPolicyEntry}
use control_tower.ConfigOps.Dns.{
  default_nameservers, listed, host_map, policy_map, filter_map, dns_map,
}
use control_tower.ConfigOps.Expected.{
  given, servers, filter_value, HasFilter, section_value, IsSection,
}

-- A property of all texts, by a case for one of them.
at : (P : String → Type 0) (k j : String) → P k → (str_eq k j ≡ false → P j) → P j
at P k j p other = elim (Bool-cases (str_eq k j)) [
  | inl e ↦ subst P (ground (arith, e, eq_iff k j)) p
  | inr e ↦ other e
]

module _ (y : Yaml) (flag : Bool → y.Value) (address : String → ℕ → String) where
  open y use {Value, Mapping, string, sequence, mapping, new, get, insert, get-insert, get-new}

  given-none : (k j : String) (rest : Option Value) → given y flag k j none rest ≡ rest
  given-none k j rest = elim (Bool-cases (str_eq k j)) [ inl e ↦ rw e refl | inr e ↦ rw e refl ]

  get-unless :
      (b : Bool) (k j : String) (v : Value) (m : Mapping)
      → get j (if b then m else insert k v m)
        ≡ given y flag k j (if b then none else some v) (get j m)
  get-unless true k j v m = sym (given-none k j (get j m))
  get-unless false k j v m = get-insert k j v m

  get-optional :
      {A : Type 0} (o : Option A) (f : A → Value) (k j : String) (m : Mapping)
      → get j (map_or o m (λ a. insert k (f a) m))
        ≡ given y flag k j (map_or o none (λ a. some (f a))) (get j m)
  get-optional none f k j m = sym (given-none k j (get j m))
  get-optional (some a) f k j m = get-insert k j (f a) m

  get-filtered :
      (o : Option FallbackFilter) (j : String) (m : Mapping)
      → get j (map_or o m (λ f. insert "fallback-filter" (mapping (filter_map y flag address f)) m))
        ≡ given y flag "fallback-filter" j
            (map_or o none (λ f. some (mapping (map_or o new (filter_map y flag address)))))
            (get j m)
  get-filtered none j m = sym (given-none "fallback-filter" j (get j m))
  get-filtered (some f) j m =
      get-insert "fallback-filter" j (mapping (filter_map y flag address f)) m

  -- The filter's keys as the last insertion found first.
  filter_made : FallbackFilter → String → Option Value
  filter_made f j = given y flag "ipcidr" j (servers y flag f.ipcidr) (
      given y flag "geoip-code" j (map_or f.geoip_code none (λ code. some (string code)))
        (given y flag "geoip" j (some (flag f.geoip)) none))

  filter_same : (f : FallbackFilter) (j : String) → filter_made f j ≡ filter_value y flag f j
  unfolding filter_made
  filter_same f j =
      let P : String → Type 0 = λ j. filter_made f j ≡ filter_value y flag f j in
      at P "ipcidr" j refl
        (λ e0. at P "geoip-code" j refl (λ e1. at P "geoip" j refl (λ e2. rw (e0, e1, e2) refl)))

  get-filter_map :
      (f : FallbackFilter) (j : String)
      → get j (filter_map y flag address f) ≡ filter_value y flag f j
  unfolding filter_map filter_made
  get-filter_map f j =
      let m : Mapping = insert "geoip" (flag f.geoip) new in
      let m' : Mapping = map_or f.geoip_code m (λ code. insert "geoip-code" (string code) m) in
      get-unless (is_empty f.ipcidr) "ipcidr" j (sequence (strings y f.ipcidr)) m'
      ∙ (ap (given y flag "ipcidr" j (servers y flag f.ipcidr)) (
            get-optional f.geoip_code string "geoip-code" j m
            ∙ ap
                (given y flag "geoip-code" j
                  (map_or f.geoip_code none (λ code. some (string code))))
                (get-insert "geoip" j (flag f.geoip) new
                  ∙ ap (given y flag "geoip" j (some (flag f.geoip))) (get-new j)))
          ∙ filter_same f j)

  get-host_map :
      (hs : List HostEntry) (m : Mapping) (j : String)
      → get j (host_map y flag address hs m)
        ≡ or_else (last_value {A = HostEntry} (λ h. h.host) (λ h. string h.ip) j hs) (get j m)
  get-host_map [] m j = refl
  get-host_map (h ∷ hs) m j =
      let o = last_value {A = HostEntry} (λ h. h.host) (λ h. string h.ip) j hs in
      get-host_map hs (insert h.host (string h.ip) m) j
      ∙ (ap (or_else o) (get-insert h.host j (string h.ip) m)
          ∙ last_more o (get j m) h.host j (string h.ip))

  -- The servers of the last policy for a domain.
  policy_value : String → List NameserverPolicyEntry → Option Value
  policy_value =
      last_value {A = NameserverPolicyEntry} (λ p. p.match_domain)
        (λ p. sequence (strings y p.nameserver))

  get-policy_map :
      (ps : List NameserverPolicyEntry) (m : Mapping) (j : String)
      → get j (policy_map y flag address ps m) ≡ or_else (policy_value j ps) (get j m)
  unfolding policy_value
  get-policy_map [] m j = refl
  get-policy_map (p ∷ ps) m j =
      let v : Value = sequence (strings y p.nameserver) in
      get-policy_map ps (insert p.match_domain v m) j
      ∙ (ap (or_else (policy_value j ps)) (get-insert p.match_domain j v m)
          ∙ last_more (policy_value j ps) (get j m) p.match_domain j v)

  section_made : DnsSettings → Mapping → Mapping → Mapping → String → Option Value
  section_made s filter hosts policies j =
      given y flag "nameserver-policy" j
        (if is_empty s.nameserver_policy then none else some (mapping policies))
        (given y flag "hosts" j (if is_empty s.hosts then none else some (mapping hosts)) (
          given y flag "fallback-filter" j
            (map_or s.fallback_filter none (λ f. some (mapping filter)))
            (given y flag "fallback" j (servers y flag s.fallback) (
              given y flag "nameserver" j (servers y flag s.nameserver) (
                given y flag "default-nameserver" j
                  (servers y flag ("223.5.5.5" ∷ "119.29.29.29" ∷ "114.114.114.114" ∷ []))
                  (given y flag "fake-ip-range" j (some (string s.fake_ip_range)) (
                    given y flag "enhanced-mode" j (some (string s.enhanced_mode)) (
                      given y flag "listen" j (some (string "0.0.0.0:53"))
                        (given y flag "enable" j (some (flag true)) none)))))))))

  section_same :
      (s : DnsSettings) (filter hosts policies : Mapping) (j : String)
      → section_made s filter hosts policies j ≡ section_value y flag s filter hosts policies j
  unfolding section_made
  section_same s filter hosts policies j =
      let P : String → Type 0 = λ j.
        section_made s filter hosts policies j ≡ section_value y flag s filter hosts policies j in
      at P "nameserver-policy" j refl (λ e0. at P "hosts" j refl (λ e1.
        at P "fallback-filter" j refl (λ e2. at P "fallback" j refl (λ e3.
          at P "nameserver" j refl (λ e4. at P "default-nameserver" j refl (λ e5.
            at P "fake-ip-range" j refl (λ e6. at P "enhanced-mode" j refl (λ e7.
              at P "listen" j refl (λ e8.
                at P "enable" j refl
                  (λ e9. rw (e0, e1, e2, e3, e4, e5, e6, e7, e8, e9) refl))))))))))

  has_filter :
      (o : Option FallbackFilter) → HasFilter y flag o (map_or o new (filter_map y flag address))
  has_filter none = tt
  has_filter (some f) = λ j. get-filter_map f j

  get-dns_map :
      (s : DnsSettings) (j : String)
      → get j (dns_map y flag address s)
        ≡ section_made s
            (map_or s.fallback_filter new (filter_map y flag address))
            (host_map y flag address s.hosts new)
            (policy_map y flag address s.nameserver_policy new)
            j
  unfolding dns_map section_made
  get-dns_map s j =
      let g = given y flag in
      let hosts : Mapping = host_map y flag address s.hosts new in
      let policies : Mapping = policy_map y flag address s.nameserver_policy new in
      let filter : Mapping = map_or s.fallback_filter new (filter_map y flag address) in
      let m1 : Mapping = insert "enable" (flag true) new in
      let m2 : Mapping = insert "listen" (string "0.0.0.0:53") m1 in
      let m3 : Mapping = insert "enhanced-mode" (string s.enhanced_mode) m2 in
      let m4 : Mapping = insert "fake-ip-range" (string s.fake_ip_range) m3 in
      let m5 : Mapping =
        insert "default-nameserver" (sequence (strings y (default_nameservers y flag address)))
          m4 in
      let m6 : Mapping = listed y flag address "nameserver" s.nameserver m5 in
      let m7 : Mapping = listed y flag address "fallback" s.fallback m6 in
      let m8 : Mapping =
        map_or s.fallback_filter m7
          (λ f. insert "fallback-filter" (mapping (filter_map y flag address f)) m7) in
      let m9 : Mapping = if is_empty s.hosts then m8 else insert "hosts" (mapping hosts) m8 in
      let k1 =
        get-insert "enable" j (flag true) new ∙ ap (g "enable" j (some (flag true))) (get-new j) in
      let k2 =
        get-insert "listen" j (string "0.0.0.0:53") m1
        ∙ ap (g "listen" j (some (string "0.0.0.0:53"))) k1 in
      let k3 =
        get-insert "enhanced-mode" j (string s.enhanced_mode) m2
        ∙ ap (g "enhanced-mode" j (some (string s.enhanced_mode))) k2 in
      let k4 =
        get-insert "fake-ip-range" j (string s.fake_ip_range) m3
        ∙ ap (g "fake-ip-range" j (some (string s.fake_ip_range))) k3 in
      let k5 =
        get-insert "default-nameserver" j
          (sequence (strings y (default_nameservers y flag address))) m4
        ∙ ap
            (g "default-nameserver" j
              (some (sequence (strings y (default_nameservers y flag address)))))
            k4 in
      let k6 =
        get-unless (is_empty s.nameserver) "nameserver" j (sequence (strings y s.nameserver)) m5
        ∙ ap (g "nameserver" j (servers y flag s.nameserver)) k5 in
      let k7 =
        get-unless (is_empty s.fallback) "fallback" j (sequence (strings y s.fallback)) m6
        ∙ ap (g "fallback" j (servers y flag s.fallback)) k6 in
      let k8 =
        get-filtered s.fallback_filter j m7
        ∙ ap (g "fallback-filter" j (map_or s.fallback_filter none (λ f. some (mapping filter))))
            k7 in
      let k9 =
        get-unless (is_empty s.hosts) "hosts" j (mapping hosts) m8
        ∙ ap (g "hosts" j (if is_empty s.hosts then none else some (mapping hosts))) k8 in
      get-unless (is_empty s.nameserver_policy) "nameserver-policy" j (mapping policies) m9
      ∙ ap
          (g "nameserver-policy" j
            (if is_empty s.nameserver_policy then none else some (mapping policies)))
          k9

  pub dns_map-IsSection : (s : DnsSettings) → IsSection y flag s (dns_map y flag address s)
  unfolding IsSection policy_value
  dns_map-IsSection s =
      let filter : Mapping = map_or s.fallback_filter new (filter_map y flag address) in
      let hosts : Mapping = host_map y flag address s.hosts new in
      let policies : Mapping = policy_map y flag address s.nameserver_policy new in
      (
        filter,
        hosts,
        policies,
        has_filter s.fallback_filter,
        (λ k.
            get-host_map s.hosts new k
            ∙ at_new y (last_value {A = HostEntry} (λ h. h.host) (λ h. string h.ip) k s.hosts) k),
        (λ k.
            get-policy_map s.nameserver_policy new k
            ∙ at_new y (policy_value k s.nameserver_policy) k),
        (λ k. get-dns_map s k ∙ section_same s filter hosts policies k),
      )
