-- ===== src/Cli/Shared.antt =====
-- What the client leaves of a manifest that the daemon has written.
use control_tower.Prelude.{
  String, Bool, true, false, not, Option, none, some, List, [], ◌∷◌, ◌++◌, ◌≡◌, refl, sym, ap, ◌∙◌,
  if◌then◌else◌, str_eq, map_or, unwrap_or, map, map-append, is_some, any, arith, eq_iff,
  Bool-cases, Option-cases, inl, inr, if_elim, map_or_elim,
}
use control_tower.Profiles.{ProfileItem, ProfilesYaml}
use control_tower.Catalog as Catalog
use control_tower.Cli.{
  Profile, Entry, ProfilesFile, content, entry_of, entries_of, item_of, written_by_daemon,
  written_by_client, profile_of, load_profiles, entry, current_of, Save, complete, no_dir, failed,
  save_profiles, find, Failure, not_downloaded, not_saved, not_written,
}
use control_tower.Cli.Edit.{Addition, new_profile, Texts, added, add_text, add_profile, put}

-- What the daemon reads.
abbrev pub daemon_of : ProfilesFile → Option ProfilesYaml
daemon_of (content p) = p.daemon
daemon_of _ = none

-- What is left of an item: its options, script and list of profiles are gone, and its type is the
-- default one.
abbrev pub forget : ProfileItem → ProfileItem
forget item = record item { options = none; kind = some "remote"; script = none; merge = [] }

-- The current profile, if it is an item.
abbrev pub known_current : ProfilesYaml → Option String
known_current yaml =
    map_or yaml.current none (λ c. if is_some (Catalog.find c yaml.items) then some c else none)

abbrev pub nameless : ProfileItem → Bool
nameless item = not (is_some item.name)

-- The profiles that the client makes of the entries.
abbrev pub profiles_of : Option String → List Entry → List Profile
profiles_of c = map (profile_of c)

abbrev pub made : ProfileItem → String → Entry
made item name = record {
  uid = item.uid;
  name = name;
  file = item.file;
  url = item.url;
  cron = item.cron;
  updated_at = item.updated_at;
}

entry_of-made :
    (item : ProfileItem) (name : String)
    → item.name ≡ some name
    → entry_of item ≡ some (made item name)
unfolding entry_of
entry_of-made item name e = ap (λ o. map_or o none (λ n. some (made item n))) e

entry_of-nameless : (item : ProfileItem) → item.name ≡ none → entry_of item ≡ none
unfolding entry_of
entry_of-nameless item e = ap (λ o. map_or o none (λ n. some (made item n))) e

item_of-made :
    (item : ProfileItem) (name : String)
    → item.name ≡ some name
    → item_of (made item name) ≡ forget item
item_of-made item name e = λ i. record (forget item) { name = sym e i }

-- The entries of a manifest in which every item has a name.
abbrev pub Loaded : List ProfileItem → List Entry → Type 0
Loaded items es =
    (entries_of items ≡ some es)
    × ((c : Option String) → map item_of (map entry (profiles_of c es)) ≡ map forget items)
    × ((c : String)
        → current_of (profiles_of (some c) es)
          ≡ (if is_some (Catalog.find c items) then some c else none))
    × (current_of (profiles_of none es) ≡ none)
    × ((c : Option String) (id : String) (item : ProfileItem)
        → Catalog.find id items ≡ some item
        → (p : Profile) × (find id (profiles_of c es) ≡ some p) × (p.file ≡ item.file))

found_made :
    (c : Option String) (id : String) (item found : ProfileItem) (name : String)
    (items : List ProfileItem) (ps : List Profile)
    → (Catalog.find id items ≡ some found
        → (p : Profile) × (find id ps ≡ some p) × (p.file ≡ found.file))
    → Catalog.find id (item ∷ items) ≡ some found
    → (p : Profile) × (find id (profile_of c (made item name) ∷ ps) ≡ some p)
      × (p.file ≡ found.file)
unfolding find Catalog.find
found_made c id item found name items ps f = elim (Bool-cases (str_eq item.uid id)) [
  | inl e ↦
      rw e
        (λ h. (profile_of c (made item name), refl, ap (λ o. map_or o item.file (λ i. i.file)) h))
  | inr e ↦ rw e f
]

Loaded-made :
    (item : ProfileItem) (name : String) (items : List ProfileItem) (es : List Entry)
    → item.name ≡ some name
    → Loaded items es
    → Loaded (item ∷ items) (made item name ∷ es)
unfolding entries_of current_of Catalog.find
Loaded-made item name items es e (f, g, k, l, n) = (
  rw (entry_of-made item name e, f) refl,
  λ c. λ i. item_of-made item name e i ∷ g c i,
  λ c. ground (arith, eq_iff c item.uid, eq_iff item.uid c, k c),
  l,
  λ c id found. found_made c id item found name items (profiles_of c es) (n c id found),
)

pub named_lem :
    (items : List ProfileItem) → any nameless items ≡ false → (es : List Entry) × Loaded items es
unfolding entries_of current_of Catalog.find
named_lem [] h = ([], (refl, λ c. refl, λ c. refl, refl, λ c id item e. absurd (ground (arith, e))))
named_lem (item ∷ items) h = elim (Option-cases item.name) [
  | inl e ↦ absurd (ground (arith, h, e))
  | inr (name, e) ↦
      let (es, l) = named_lem items (ground (arith, h, e)) in
      (made item name ∷ es, Loaded-made item name items es e l)
]

nameless_lem : (items : List ProfileItem) → any nameless items ≡ true → entries_of items ≡ none
unfolding entries_of
nameless_lem [] h = ground (arith, h)
nameless_lem (item ∷ items) h = elim (Option-cases item.name) [
  | inl e ↦ rw (entry_of-nameless item e) refl
  | inr (name, e) ↦ rw (entry_of-made item name e, nameless_lem items (ground (arith, h, e))) refl
]

current_of-profiles_of :
    (c : Option String) (items : List ProfileItem) (es : List Entry)
    → Loaded items es
    → current_of (profiles_of c es)
      ≡ map_or c none (λ c. if is_some (Catalog.find c items) then some c else none)
current_of-profiles_of none items es l = l.3
current_of-profiles_of (some c) items es l = l.2 c

pub load_profiles_lem :
    (yaml : ProfilesYaml) (o : Option (List Entry))
    → entries_of yaml.items ≡ o
    → load_profiles (written_by_daemon yaml)
      ≡ map_or o none (λ es. some (profiles_of yaml.current es))
unfolding load_profiles written_by_daemon
load_profiles_lem yaml none e = rw e refl
load_profiles_lem yaml (some es) e = rw e refl

current_of-append :
    (ps : List Profile) (p : Profile) → p.active ≡ false → current_of (ps ++ p ∷ []) ≡ current_of ps
unfolding current_of
current_of-append [] p e = rw e refl
current_of-append (q ∷ ps) p e = ground (arith, current_of-append ps p e)

-- What the daemon reads of profiles that the client has saved.
abbrev pub seen : List Profile → ProfilesYaml
seen ps = record { current = current_of ps; items = map item_of (map entry ps) }

pub daemon_of-saved :
    (s : Save) (ps : List Profile) (f : ProfilesFile)
    → (save_profiles s ps f).0 ≡ true
    → daemon_of (save_profiles s ps f).1 ≡ some (seen ps)
unfolding save_profiles written_by_client
daemon_of-saved complete ps f h = refl
daemon_of-saved no_dir ps f h = ground (arith, h)
daemon_of-saved (failed left) ps f h = ground (arith, h)

-- What the daemon reads after the client has added a profile.
abbrev pub with_new : ProfilesYaml → ProfileItem → ProfilesYaml
with_new yaml new =
    if any nameless yaml.items
    then record { current = none; items = new ∷ [] }
    else record { current = known_current yaml; items = map forget yaml.items ++ new ∷ [] }

with_new-same :
    (yaml : ProfilesYaml) (new : ProfileItem) (b : Bool)
    → any nameless yaml.items ≡ b
    → with_new yaml new ≡ (
        if b
        then record { current = none; items = new ∷ [] }
        else record { current = known_current yaml; items = map forget yaml.items ++ new ∷ [] })
with_new-same yaml new b e = rw e refl

seen-added :
    (yaml : ProfilesYaml) (new : Profile)
    → new.active ≡ false
    → seen (unwrap_or (load_profiles (written_by_daemon yaml)) [] ++ new ∷ [])
      ≡ with_new yaml (item_of (entry new))
unfolding current_of
seen-added yaml new n =
    let start : Option (List Profile) → ProfilesYaml = λ o. seen (unwrap_or o [] ++ new ∷ []) in
    let item : ProfileItem = item_of (entry new) in
    elim (Bool-cases (any nameless yaml.items)) [
      | inl h ↦
          let only : seen (new ∷ []) ≡ record { current = none; items = item ∷ [] } =
            λ i. record { current = current_of-append [] new n i; items = item ∷ [] } in
          ap start (load_profiles_lem yaml none (nameless_lem yaml.items h))
          ∙ (only ∙ sym (with_new-same yaml item true h))
      | inr h ↦
          let (es, l) = named_lem yaml.items h in
          let ps : List Profile = profiles_of yaml.current es in
          let items : map item_of (map entry (ps ++ new ∷ []))
              ≡ map forget yaml.items ++ item ∷ [] =
            ap (map item_of) (map-append entry ps (new ∷ []))
            ∙ (map-append item_of (map entry ps) (entry new ∷ [])
                ∙ ap (λ x. x ++ item ∷ []) (l.1 yaml.current)) in
          let all : seen (ps ++ new ∷ []) ≡ record {
            current = known_current yaml;
            items = map forget yaml.items ++ item ∷ [];
          } =
            λ i. record {
              current =
                  (current_of-append ps new n ∙ current_of-profiles_of yaml.current yaml.items es l)
                    i;
              items = items i;
            } in
          ap start (load_profiles_lem yaml (some es) l.0)
          ∙ (all ∙ sym (with_new-same yaml item false h))
    ]

added-seen :
    (a : Addition) (ps : List Profile) (f : ProfilesFile) (ts : Texts)
    → (added a ps f ts).0 ≡ none
    → daemon_of (added a ps f ts).1 ≡ some (seen ps)
added-seen a ps f ts h = daemon_of-saved a.saved ps f (stored (save_profiles a.saved ps f).0 h)
  where
    stored :
        (b : Bool) → ◌≡◌ {A = Option Failure} (if b then none else some not_saved) none → b ≡ true
    stored true e = refl
    stored false e = ground (arith, e)

-- An addition that is made, to a manifest that the daemon has written: if every item of it has a
-- name, the daemon then reads the items it had and the new one, but without the options, scripts and
-- lists of profiles, all of the default type, and the current profile if it is an item; if an item
-- has no name, it reads the new one alone, and none is the current one.
pub daemon_of-add_profile :
    (a : Addition) (url : String) (name : Option String) (yaml : ProfilesYaml) (ts : Texts)
    → (add_profile a url name (written_by_daemon yaml) ts).0 ≡ none
    → daemon_of (add_profile a url name (written_by_daemon yaml) ts).1
      ≡ some (with_new yaml (item_of (entry (new_profile a url name))))
unfolding add_profile new_profile
daemon_of-add_profile a url name yaml ts =
    let new : Profile = new_profile a url name in
    let f : ProfilesFile = written_by_daemon yaml in
    let ps : List Profile = unwrap_or (load_profiles f) [] ++ new ∷ [] in
    let P : Option Failure × ProfilesFile × Texts → Type 0 =
      λ r. r.0 ≡ none → daemon_of r.1 ≡ some (with_new yaml (item_of (entry new))) in
    map_or_elim P a.download (some not_downloaded, f, ts) (add_text a url name f ts)
      (λ e h. ground (arith, h))
      (λ text e.
        if_elim P a.dir_made _ (some not_written, f, ts)
          (λ d.
            if_elim P a.written (added a ps f (put a.path (some text) ts))
              (some not_written, f, put a.path a.left ts)
              (λ w h.
                added-seen a ps f (put a.path (some text) ts) h
                ∙ ap some (seen-added yaml new refl))
              (λ w h. ground (arith, h)))
          (λ d h. ground (arith, h)))
