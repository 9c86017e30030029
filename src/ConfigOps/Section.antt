-- ===== src/ConfigOps/Section.antt =====
-- What a PUT of the DNS settings leaves in config.yaml and in settings.yaml.
use control_tower.Prelude.{
  ℕ, String, Bool, true, false, none, some, ◌≡◌, refl, ap, ◌∙◌, if◌then◌else◌, str_eq, arith,
  Bool-cases, inl, inr,
}
use control_tower.Yaml.{Yaml}
use control_tower.ActiveConfig.{Disk, get_key, with_mapping}
use control_tower.Settings.{DnsSettings, SettingsData, no_settings, reread, reread_dns}
use control_tower.Settings.Store.{Host, Saved, get_settings, merge_settings, save_settings}
use control_tower.ConfigOps.{File, Daemon, update_config}
use control_tower.ConfigOps.Dns.{
  dns_map, set_dns, apply_dns_settings, dns_saved, dns_applied, put_dns_settings,
}
use control_tower.ConfigOps.Expected.{IsSection}
use control_tower.ConfigOps.Expected.Keys.{dns_map-IsSection}
use control_tower.ConfigOps.Ports.{saved_lem, update_config-from_str}

merged_dns :
    (dns : DnsSettings) (old : SettingsData)
    → reread (merge_settings (record no_settings { dns = some dns }) old)
      ≡ record old { dns = some (reread_dns dns) }
unfolding merge_settings reread
merged_dns dns old = refl

module _ (y : Yaml) (flag : Bool → y.Value) (address : String → ℕ → String) where
  open y use {Content, Value, Mapping, from_str, as_mapping, mapping, insert, remove}

  abbrev State : Type 0
  State = Daemon y flag address

  dns_saved_lem :
      (s : State) (saved : Saved)
      → (dns_saved y flag address s saved).0 ≡ none
      → (saved.0 ≡ true)
        × ((dns_saved y flag address s saved).1.settings ≡ saved.1)
        × ((dns_saved y flag address s saved).1.config ≡ s.config)
  unfolding dns_saved
  dns_saved_lem s (false, file, rt) h = ground (arith, h)
  dns_saved_lem s (true, file, rt) h = (refl, refl, refl)

  dns_applied_lem :
      (host : Host) (dns : DnsSettings) (s : State) (u : Bool × Disk y)
      → (dns_applied y flag address host dns s u).0 ≡ none
      → (u.0 ≡ true)
        × (get_settings (dns_applied y flag address host dns s u).1.settings
            ≡ record (get_settings s.settings) { dns = some (reread_dns dns) })
        × ((dns_applied y flag address host dns s u).1.config ≡ u.1)
  unfolding dns_applied
  dns_applied_lem host dns s (false, d) h = ground (arith, h)
  dns_applied_lem host dns s (true, d) h =
      let new : SettingsData = record no_settings { dns = some dns } in
      let saved : Saved = save_settings host new s.settings s.runtime in
      let (w, e, k) = dns_saved_lem (record s { config = d }) saved h in
      (
        refl,
        ap get_settings e
            ∙ (saved_lem host new s.settings s.runtime w
                ∙ merged_dns dns (get_settings s.settings)),
        k,
      )

  -- config.yaml parses to the old value with the expected section for DNS, or without one.
  unfoldable pub DnsSet : Value → DnsSettings → Disk y → Type 0
  DnsSet v dns d =
      (c : Content) × (w : Value) × (section : Mapping) × (d.active ≡ some c)
      × (from_str c ≡ some w)
      × IsSection y flag dns section
      × ((k : String)
          → get_key y k w ≡ (
              if str_eq "dns" k
              then (if dns.enable then some (mapping section) else none)
              else get_key y k v))

  get_key-set_dns :
      (dns : DnsSettings) (v : Value) (m : Mapping) (k : String)
      → as_mapping v ≡ some m
      → get_key y k (with_mapping y (set_dns y flag address dns) v) ≡ (
          if str_eq "dns" k
          then (if dns.enable then some (mapping (dns_map y flag address dns)) else none)
          else get_key y k v)
  unfolding set_dns
  get_key-set_dns dns v m k e =
      let section : Value = mapping (dns_map y flag address dns) in
      elim (Bool-cases dns.enable) [
        | inl t ↦
            rw
              (
                e,
                t,
                y.as_mapping-put v m (insert "dns" section m) e,
                y.get-insert "dns" k section m,
              )
              refl
        | inr t ↦ rw (e, t, y.as_mapping-put v m (remove "dns" m) e, y.get-remove "dns" k m) refl
      ]

  -- A PUT of the DNS settings that is answered with 200, on a config.yaml that reads as a mapping,
  -- leaves in it, if they are enabled, a section that has, key by key and with no other key, the
  -- fixed entries and texts, each list of servers that is not empty, the filter with its own keys,
  -- the last address of each host and the last servers of each domain; and none if they are not
  -- enabled; with all other keys as they were; and from settings.yaml these DNS settings are read,
  -- with the defaults for texts that are empty, and all else as before.
  pub put_dns_settings-agrees :
      (file : File y flag address) (host : Host) (dns : DnsSettings) (s : State) (c : Content)
      (v : Value) (m : Mapping)
      → s.config.active ≡ some c
      → from_str c ≡ some v
      → as_mapping v ≡ some m
      → (put_dns_settings y flag address file host dns s).0 ≡ none
      → (get_settings (put_dns_settings y flag address file host dns s).1.settings
          ≡ record (get_settings s.settings) { dns = some (reread_dns dns) })
        × DnsSet v dns (put_dns_settings y flag address file host dns s).1.config
  unfolding put_dns_settings apply_dns_settings DnsSet
  put_dns_settings-agrees file host dns s c v m e k l h =
      let f : Mapping → Mapping = set_dns y flag address dns in
      let (done, saved, conf) =
        dns_applied_lem host dns s (update_config y flag address f file s.config) h in
      let (c', active, read) = update_config-from_str y flag address f file s.config c v e k done in
      (
        saved,
        (
          c',
          with_mapping y f v,
          dns_map y flag address dns,
          ap (λ d. d.active) conf ∙ active,
          read,
          dns_map-IsSection y flag address dns,
          λ j. get_key-set_dns dns v m j l,
        ),
      )
