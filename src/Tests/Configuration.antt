-- ===== src/Tests/Configuration.antt =====
-- config.yaml under active_config.rs and the handlers of rules_handlers.rs on concrete inputs.
use control_tower.Prelude.{
  min, ◌↔◌, ◌≡◌, refl, true, none, some, [], ◌∷◌, arith, length, map, false,
}
use control_tower.Profiles.{RuleProviderConfig}
use control_tower.Yaml.Instance.{
  plain, Node, str, seq, map_of, Nodes, nil, cons, Fields, end, field,
}
use control_tower.ActiveConfig.{
  Disk, Io, complete, PortOverrides, ok, change_rules, write_atomically,
}
use control_tower.ActiveConfig.Edit.{append_rule, edited, perform, target}
use control_tower.ActiveConfig.Atomic.{Holds, Ends, perform-Ends}
use control_tower.ActiveConfig.Rules.{Changes, rules_after, rule_list, perform-Changes}
use control_tower.ActiveConfig.Replace.{replace_from_profile, override_keys, skipped}
use control_tower.ActiveConfig.Replace.Overlay.{survives}
use control_tower.ActiveConfig.Replace.Spec.{Generated, replace_from_profile-Generated}
use control_tower.RuleList.{RuleFiles, added, removed, custom, add_rule, delete_rule, stored}
use control_tower.RuleList.Sync.{IsSynced, counted, add_rule-IsSynced, delete_rule-IsSynced}

abbrev rules : Nodes
rules = cons (str "MATCH,DIRECT") nil

abbrev fields : Fields
fields = field "mode" (str "rule") (field "rules" (seq rules) end)

abbrev disk : Disk plain
disk = record { active = some (some (map_of fields)); temp = none }

abbrev io : Io plain
io = record { readable = true; written = complete; renamed = true }

abbrev to_value : RuleProviderConfig → Node
to_value p = str p.name

perform-Ends_example :
    Ends plain io
      (target plain to_value (append_rule "A") io disk)
      disk
      (perform plain to_value (append_rule "A") io disk).0
      (perform plain to_value (append_rule "A") io disk).1
perform-Ends_example = perform-Ends plain to_value (append_rule "A") io disk refl

perform-Changes_example :
    (w : Node) × Holds plain w (perform plain to_value (append_rule "A") io disk).1
    × Changes plain
        (map_of fields)
        (rules_after plain (append_rule "A") (rule_list plain (map_of fields)))
        w
unfolding perform edited change_rules write_atomically
perform-Changes_example =
    perform-Changes plain to_value (append_rule "A") io disk (map_of fields) fields refl refl refl
      refl refl

abbrev ports : PortOverrides
ports = record {
  mixed_port = some 7892;
  socks_port = none;
  http_port = none;
  external_controller = none;
}

replace_from_profile-Generated_example :
    (w : Node) × Generated plain (some (map_of fields)) ("C" ∷ []) ports (map_of fields) w
    × Ends plain io
        (ok (length (rule_list plain (map_of fields)), w))
        disk
        (replace_from_profile plain (some (some (map_of fields))) ("C" ∷ []) ports io disk).0
        (replace_from_profile plain (some (some (map_of fields))) ("C" ∷ []) ports io disk).1
replace_from_profile-Generated_example =
    replace_from_profile-Generated plain (some (map_of fields)) (some (map_of fields)) ("C" ∷ [])
      ports io disk (map_of fields) fields refl refl refl refl refl

abbrev synced : RuleFiles
synced = record {
  custom_rules = some ("A" ∷ "B" ∷ []);
  profile_rules_count = some 1;
  config_rules = "A" ∷ "B" ∷ "P" ∷ [];
}

synced-IsSynced : IsSynced ("A" ∷ "B" ∷ []) ("P" ∷ []) synced
unfolding IsSynced
synced-IsSynced = (refl, refl)

add_rule-IsSynced_example :
    ((add_rule true true ("hk" ∷ []) "hk" "C" synced).0 ≡ added "C")
    × ((add_rule true true ("hk" ∷ []) "hk" "C" synced).1.custom_rules
        ≡ stored ("A" ∷ "B" ∷ "C" ∷ []))
    × ((add_rule true true ("hk" ∷ []) "hk" "C" synced).1.profile_rules_count
        ≡ synced.profile_rules_count)
    × (IsSynced ("A" ∷ "B" ∷ "C" ∷ []) ("P" ∷ []) (add_rule true true ("hk" ∷ []) "hk" "C" synced).1
        ↔ (min (counted synced) 3 ≡ 1))
add_rule-IsSynced_example =
    add_rule-IsSynced ("hk" ∷ []) "hk" "C" ("A" ∷ "B" ∷ []) ("P" ∷ []) synced refl synced-IsSynced

delete_rule-IsSynced_example :
    ((delete_rule true true 2 custom 0 synced).0 ≡ removed (some "A"))
    × IsSynced ("B" ∷ []) ("P" ∷ []) (delete_rule true true 2 custom 0 synced).1
    × ((delete_rule true true 2 custom 0 synced).1.profile_rules_count ≡ synced.profile_rules_count)
delete_rule-IsSynced_example =
    delete_rule-IsSynced 0 ("A" ∷ "B" ∷ []) ("P" ∷ []) synced (omega arith) synced-IsSynced

-- The mode, the redirection ports, the log level, the DNS settings and the tunnel are kept from the
-- old configuration; the ports of the proxies and the controller are not.
survives_test :
    map (survives plain) override_keys
    ≡ true ∷ false ∷ true ∷ true ∷ true ∷ true ∷ false ∷ false ∷ false ∷ true ∷ []
unfolding survives skipped
survives_test = refl
