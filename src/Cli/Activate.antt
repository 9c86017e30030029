-- ===== src/Cli/Activate.antt =====
-- What an activation by the client leaves in the manifest and in config.yaml.
use control_tower.Prelude.{
  ℕ, String, Bool, true, false, none, some, List, [], ◌∷◌, ◌≡◌, refl, sym, ap, ◌∙◌, subst,
  if◌then◌else◌, str_eq, map, any, length, arith, eq_iff, Bool-cases, inl, inr, map_or-some,
}
use control_tower.Profiles.{ProfileItem, ProfilesYaml}
use control_tower.Catalog as Catalog
use control_tower.Yaml.{Yaml}
use control_tower.ActiveConfig.{Disk, PortOverrides, Result, ok, err, rules_of}
use control_tower.ActiveConfig.Atomic.{Holds, Ends-ok}
use control_tower.ActiveConfig.Rules.{rule_list}
use control_tower.ActiveConfig.Replace.{replace_from_profile}
use control_tower.ActiveConfig.Replace.Spec.{Generated, HasRules, replace_from_profile-Generated}
use control_tower.Cli.{
  Profile, ProfilesFile, item_of, written_by_daemon, load_profiles, entry, current_of,
  save_profiles, find,
}
use control_tower.Cli.Switch.{
  deactivated, activated, Home, Activation, served_after, replaced, activate_found,
  activate_profile,
}
use control_tower.Cli.Shared.{
  daemon_of, forget, nameless, profiles_of, named_lem, load_profiles_lem, seen, daemon_of-saved,
}

current_of-activated :
    (id : String) (ps : List Profile) (p : Profile)
    → find id ps ≡ some p
    → current_of (activated id ps) ≡ some id
unfolding current_of activated find
current_of-activated id [] p h = ground (arith, h)
current_of-activated id (q ∷ ps) p h = elim (Bool-cases (str_eq q.id id)) [
  | inl e ↦ rw e (ap some (ground (arith, eq_iff q.id id)))
  | inr e ↦
      rw e (current_of-activated id ps p (sym (ap (λ b. if b then some q else find id ps) e) ∙ h))
]

entries-activated : (id : String) (ps : List Profile) → map entry (activated id ps) ≡ map entry ps
unfolding activated
entries-activated id [] = refl
entries-activated id (q ∷ ps) = elim (Bool-cases (str_eq q.id id)) [
  | inl e ↦ rw e (ap (λ x. entry q ∷ x) (deactivated_same ps))
  | inr e ↦ rw e (ap (λ x. entry q ∷ x) (entries-activated id ps))
]
  where
    deactivated_same : (ps : List Profile) → map entry (deactivated ps) ≡ map entry ps
    deactivated_same [] = refl
    deactivated_same (p ∷ ps) = ap (λ x. entry p ∷ x) (deactivated_same ps)

seen-activated :
    (id : String) (ps : List Profile) (p : Profile) (yaml : ProfilesYaml)
    → find id ps ≡ some p
    → map item_of (map entry ps) ≡ map forget yaml.items
    → seen (activated id ps) ≡ record { current = some id; items = map forget yaml.items }
seen-activated id ps p yaml f e = λ i. record {
  current = current_of-activated id ps p f i;
  items = (ap (map item_of) (entries-activated id ps) ∙ e) i;
}

abbrev no_ports : PortOverrides
no_ports = record {
  mixed_port = none;
  socks_port = none;
  http_port = none;
  external_controller = none;
}

module _ (y : Yaml) (content_of : List ℕ → y.Content) where
  served_after_lem :
      (a : Activation y content_of) (h : Home y content_of) (r : Bool × ProfilesFile)
      → (served_after y content_of a h r).0 ≡ none
      → (r.0 ≡ true)
        × ((served_after y content_of a h r).1.profiles ≡ r.1)
        × ((served_after y content_of a h r).1.config ≡ h.config)
  unfolding served_after
  served_after_lem a h (true, f) e = (refl, refl, refl)
  served_after_lem a h (false, f) e = ground (arith, e)

  replaced_lem :
      (a : Activation y content_of) (id : String) (ps : List Profile) (h : Home y content_of)
      (r : Result ℕ × Disk y)
      → (replaced y content_of a id ps h r).0 ≡ none
      → (n : ℕ) × (r.0 ≡ ok n)
        × (daemon_of (replaced y content_of a id ps h r).1.profiles ≡ some (seen (activated id ps)))
        × ((replaced y content_of a id ps h r).1.config ≡ r.1)
  unfolding replaced
  replaced_lem a id ps h (err x, d) e = ground (arith, e)
  replaced_lem a id ps h (ok n, d) e =
      let (stored, f, c) =
        served_after_lem a (record h { config = d })
          (save_profiles a.saved (activated id ps) h.profiles) e in
      (n, refl, ap daemon_of f ∙ daemon_of-saved a.saved (activated id ps) h.profiles stored, c)

  second :
      (n m : ℕ) (v w : y.Value) → ◌≡◌ {A = Result (ℕ × y.Value)} (ok (n, v)) (ok (m, w)) → v ≡ w
  second n m v w h = ground (arith, h)

  -- config.yaml has the rules of v, and no temporary file is left.
  unfoldable pub HasJust : y.Value → Disk y → Type 0
  HasJust v d = (w : y.Value) × Holds y w d × (rules_of y w ≡ some (rule_list y v))

  -- An activation that is done, of a profile of a manifest that the daemon has written, with a name
  -- for every item, and a text of the profile that is a mapping with an array of rules or none: the
  -- daemon then reads this profile as the current one, and the items without their options, scripts
  -- and lists of profiles, all of the default type; and config.yaml has the rules of the profile and
  -- no others, whatever custom rules were in it. config.yaml was there and can be read.
  pub activate_profile-HasJust :
      (a : Activation y content_of) (id : String) (h : Home y content_of) (yaml : ProfilesYaml)
      (item : ProfileItem) (file : String) (t : List ℕ) (c : y.Content) (v : y.Value)
      (m : y.Mapping)
      → h.profiles ≡ written_by_daemon yaml
      → any nameless yaml.items ≡ false
      → Catalog.find id yaml.items ≡ some item
      → item.file ≡ some file
      → h.texts file ≡ some t
      → y.from_str (content_of t) ≡ some v
      → y.as_mapping v ≡ some m
      → HasRules y v
      → h.config.active ≡ some c
      → a.io.readable ≡ true
      → (activate_profile y content_of a id h).0 ≡ none
      → (daemon_of (activate_profile y content_of a id h).1.profiles
          ≡ some (record { current = some id; items = map forget yaml.items }))
        × HasJust v (activate_profile y content_of a id h).1.config
  unfolding activate_profile activate_found HasJust Generated
  activate_profile-HasJust a id h yaml item file t c v m e named f g k l j r b i z =
      let (es, loaded) = named_lem yaml.items named in
      let ps : List Profile = profiles_of yaml.current es in
      let (p, found, same) = loaded.4 yaml.current id item f in
      let res = replace_from_profile y (some (content_of t)) [] no_ports a.io h.config in
      let path : activate_profile y content_of a id h ≡ replaced y content_of a id ps h res =
        map_or-some (load_profiles h.profiles) ps _ _
          (ap load_profiles e ∙ load_profiles_lem yaml (some es) loaded.0)
        ∙ (map_or-some (find id ps) p _ _ found
            ∙ (map_or-some p.file file _ _ (same ∙ g) ∙ map_or-some (h.texts file) t _ _ k)) in
      let (n, o, read, conf) = replaced_lem a id ps h res (sym (ap (λ r. r.0) path) ∙ z) in
      let (w, generated, ends) =
        replace_from_profile-Generated y (content_of t) c [] no_ports a.io h.config v m l j r b i in
      let (w', eq, holds) =
        Ends-ok y a.io (ok (length (rule_list y v), w)) h.config res.1 n res.0 ends o in
      (
        ap (λ x. daemon_of x.1.profiles) path
            ∙ (read ∙ ap some (seen-activated id ps p yaml found (loaded.1 yaml.current))),
        (
          w',
          subst (Holds y w') (sym (ap (λ x. x.1.config) path ∙ conf)) holds,
          subst (λ x. rules_of y x ≡ some (rule_list y v))
              (second (length (rule_list y v)) n w w' eq) generated.1,
        ),
      )
