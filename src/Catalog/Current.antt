-- ===== src/Catalog/Current.antt =====
-- The current profile of the manifest is one of its items, whatever requests the handlers of
-- profile_handlers.rs take.
use control_tower.Prelude.{
  String, Bool, true, false, Option, none, some, List, [], ◌∷◌, ◌++◌, ◌≡◌, refl, sym, ap, ◌∙◌,
  if◌then◌else◌, str_eq, map_or, is_some, retain, arith, eq_iff, Bool-cases, Option-cases, inl, inr,
}
use control_tower.Profiles.{
  ProfileItem, ProfilesYaml, Manifest, missing, unreadable, invalid, manifest,
}
use control_tower.Files.{FilePath}
use control_tower.Catalog.{
  Stored, complete, failed, store_manifest, delete_profile, delete_in, resolve_profile_file,
  delete_found, remove_file, find, other_item, without, Catalog,
}
use control_tower.Catalog.Item.{change_first}

-- Whether the current profile, if there is one, is an item.
abbrev pub closed : ProfilesYaml → Bool
closed yaml = map_or yaml.current true (λ c. is_some (find c yaml.items))

abbrev pub closed_in : Manifest → Bool
closed_in (manifest yaml) = closed yaml
closed_in _ = true

find-retain :
    (c uid : String) (items : List ProfileItem)
    → str_eq c uid ≡ false
    → find c (retain (other_item uid) items) ≡ find c items
unfolding find
find-retain c uid [] h = refl
find-retain c uid (item ∷ items) h =
    ground (arith, find-retain c uid items h, eq_iff item.uid uid, eq_iff item.uid c, eq_iff c uid)

find-append :
    (c : String) (items more : List ProfileItem)
    → is_some (find c items) ≡ true
    → is_some (find c (items ++ more)) ≡ true
unfolding find
find-append c [] more h = ground (arith, h)
find-append c (item ∷ items) more h = elim (Bool-cases (str_eq item.uid c)) [
  | inl e ↦ rw e refl
  | inr e ↦ rw e (
      find-append c items more
        (sym (ap (λ b. is_some (if b then some item else find c items)) e) ∙ h))
]

if_some :
    (b : Bool) (x z : ProfileItem) (o : Option ProfileItem)
    → is_some (if b then some x else o) ≡ is_some (if b then some z else o)
if_some true x z o = refl
if_some false x z o = refl

-- A change of an item that keeps its uid.
find-change_first :
    (c uid : String) (f : ProfileItem → ProfileItem) (items : List ProfileItem)
    → ((item : ProfileItem) → str_eq item.uid uid ≡ true → (f item).uid ≡ item.uid)
    → is_some (find c (change_first uid f items)) ≡ is_some (find c items)
unfolding find change_first
find-change_first c uid f [] h = refl
find-change_first c uid f (item ∷ items) h = elim (Bool-cases (str_eq item.uid uid)) [
  | inl e ↦ rw e (
      ap (λ u. is_some (if str_eq u c then some (f item) else find c items)) (h item e)
      ∙ if_some (str_eq item.uid c) (f item) item (find c items))
  | inr e ↦ rw e (elim (Bool-cases (str_eq item.uid c)) [
    | inl k ↦ rw k refl
    | inr k ↦ rw k (find-change_first c uid f items h)
  ])
]

pub closed-change_first :
    (uid : String) (f : ProfileItem → ProfileItem) (yaml : ProfilesYaml)
    → ((item : ProfileItem) → str_eq item.uid uid ≡ true → (f item).uid ≡ item.uid)
    → closed (record yaml { items = change_first uid f yaml.items }) ≡ closed yaml
closed-change_first uid f yaml h = elim (Option-cases yaml.current) [
  | inl e ↦
      ap (λ o. map_or o true (λ c. is_some (find c (change_first uid f yaml.items)))) e
      ∙ sym (ap (λ o. map_or o true (λ c. is_some (find c yaml.items))) e)
  | inr (c, e) ↦
      ap (λ o. map_or o true (λ c. is_some (find c (change_first uid f yaml.items)))) e
      ∙ (find-change_first c uid f yaml.items h
          ∙ sym (ap (λ o. map_or o true (λ c. is_some (find c yaml.items))) e))
]

without_lem :
    (uid : String) (o : Option String) (items : List ProfileItem)
    → map_or o true (λ c. is_some (find c items)) ≡ true
    → map_or
        (if map_or o false (λ c. str_eq c uid) then none else o)
        true
        (λ c. is_some (find c (retain (other_item uid) items)))
      ≡ true
without_lem uid none items h = refl
without_lem uid (some c) items h = elim (Bool-cases (str_eq c uid)) [
  | inl e ↦ rw e refl
  | inr e ↦ rw e (ap is_some (find-retain c uid items e) ∙ h)
]

closed-without :
    (uid : String) (yaml : ProfilesYaml) → closed yaml ≡ true → closed (without uid yaml) ≡ true
unfolding without
closed-without uid yaml h = without_lem uid yaml.current yaml.items h

-- A new item at the end.
pub append_lem :
    (o : Option String) (items more : List ProfileItem)
    → map_or o true (λ c. is_some (find c items)) ≡ true
    → map_or o true (λ c. is_some (find c (items ++ more))) ≡ true
append_lem none items more h = refl
append_lem (some c) items more h = find-append c items more h

-- What the handlers store in the manifest.
pub store-closed :
    (stored : Stored) (yaml : ProfilesYaml) (c : Catalog)
    → stored ≡ complete
    → closed yaml ≡ true
    → closed_in (store_manifest stored yaml c).1.manifest ≡ true
unfolding store_manifest
store-closed complete yaml c e h = h
store-closed (failed left) yaml c e h = ground (arith, e)

delete_in-closed :
    (stored : Stored) (removable : Bool) (dir : FilePath) (uid : String) (c : Catalog)
    (m : Manifest)
    → stored ≡ complete
    → c.manifest ≡ m
    → closed_in m ≡ true
    → closed_in (delete_in stored removable dir uid c m).1.manifest ≡ true
unfolding delete_in delete_found
delete_in-closed stored removable dir uid c missing e k h = ap closed_in k
delete_in-closed stored removable dir uid c unreadable e k h = ap closed_in k
delete_in-closed stored removable dir uid c invalid e k h = ap closed_in k
delete_in-closed stored removable dir uid c (manifest yaml) e k h =
    elim (Option-cases (find uid yaml.items)) [
      | inl n ↦ rw n (ap closed_in k ∙ h)
      | inr (item, n) ↦ rw n (
          ap closed_in (
            removed_manifest removable (resolve_profile_file c.files dir uid item.file)
              (store_manifest stored (without uid yaml) c))
          ∙ store-closed stored (without uid yaml) c e (closed-without uid yaml h))
    ]
  where
    removed_manifest :
        (b : Bool) (p : FilePath) (r : Bool × Catalog)
        → (remove_file b p r).1.manifest ≡ r.1.manifest
    removed_manifest b p (false, c) = unfold remove_file in refl
    removed_manifest true p (true, c) = unfold remove_file in refl
    removed_manifest false p (true, c) = unfold remove_file in refl

pub delete_profile-closed :
    (stored : Stored) (removable : Bool) (dir : FilePath) (uid : String) (c : Catalog)
    → stored ≡ complete
    → closed_in c.manifest ≡ true
    → closed_in (delete_profile stored removable dir uid c).1.manifest ≡ true
unfolding delete_profile
delete_profile-closed stored removable dir uid c e h =
    delete_in-closed stored removable dir uid c c.manifest e refl h
