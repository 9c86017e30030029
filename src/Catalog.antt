-- ===== src/Catalog.antt =====
-- The profiles: the handlers of crates/control-tower-service/src/api/profile_handlers.rs, over the
-- manifest profiles.yaml, the profile files, settings.yaml, config.yaml and the daemon. A uid is the
-- text of a UUID, so that its first eight bytes are eight characters. The handlers stand in the
-- children.
pub mod Add
pub mod Mix
pub mod Activate
pub mod Item
pub mod Update
pub mod Refresh
pub mod Current
pub mod Requests
pub mod Stamp
pub mod Lost
pub mod InStep
use control_tower.Prelude.{
  ℕ, String, Bool, true, false, not, Option, none, some, List, [], ◌∷◌, ◌++◌, if◌then◌else◌, str_eq,
  map_or, retain,
}
use control_tower.Files.{FilePath, Files, join, yaml_file, short_file, is_long, path_eq, exists}
use control_tower.Profiles.{
  ProfileItem, ProfilesYaml, Manifest, missing, unreadable, invalid, manifest,
}

-- The answers 200, 400, 404 and 500.
pub data Answer : Type 0 where
  done bad_request not_found internal_error : Answer

pub record Catalog : Type 0 where
  pub manifest : Manifest
  pub files : Files

-- How a write of the manifest ends; one that fails leaves what it leaves.
pub data Stored : Type 0 where
  complete : Stored
  failed : Manifest → Stored

-- How a write of a profile's file ends.
pub data Written : Type 0 where
  written : Written
  broken : Option (List ℕ) → Written

abbrev pub put : FilePath → Option (List ℕ) → Files → Files
put p o fs q = if path_eq p q then o else fs q

unfoldable pub write_file : Written → FilePath → List ℕ → Files → Bool × Files
write_file written p text fs = (true, put p (some text) fs)
write_file (broken left) p text fs = (false, put p left fs)

unfoldable pub by_uid : Files → FilePath → String → FilePath
by_uid fs dir uid =
    if is_long uid
    then (if exists fs (join dir (short_file uid))
        then join dir (short_file uid)
        else join dir (yaml_file uid))
    else join dir (yaml_file uid)

unfoldable pub resolve_profile_file : Files → FilePath → String → Option String → FilePath
unfolding by_uid
resolve_profile_file fs dir uid none = by_uid fs dir uid
resolve_profile_file fs dir uid (some f) =
    if exists fs (join dir f) then join dir f else by_uid fs dir uid

-- `items.iter().find(|p| p.uid == uid)`
unfoldable pub find : String → List ProfileItem → Option ProfileItem
find uid [] = none
find uid (item ∷ items) =
    let rest = find uid items in if str_eq item.uid uid then some item else rest

-- `yaml.current.as_ref() == Some(&uid)`
abbrev pub is_current : String → ProfilesYaml → Bool
is_current uid yaml = map_or yaml.current false (λ c. str_eq c uid)

unfoldable pub store_manifest : Stored → ProfilesYaml → Catalog → Bool × Catalog
store_manifest complete yaml c = (true, record c { manifest = manifest yaml })
store_manifest (failed left) yaml c = (false, record c { manifest = left })

abbrev pub other_item : String → ProfileItem → Bool
other_item uid item = not (str_eq item.uid uid)

unfoldable pub without : String → ProfilesYaml → ProfilesYaml
without uid yaml = record {
  current = if is_current uid yaml then none else yaml.current;
  items = retain (other_item uid) yaml.items;
}

-- The file is removed if it is there and can be.
unfoldable pub remove_file : Bool → FilePath → Bool × Catalog → Answer × Catalog
remove_file removable p (false, c) = (internal_error, c)
remove_file removable p (true, c) =
    (done, if removable then record c { files = put p none c.files } else c)

unfoldable pub delete_found :
    Stored → Bool → FilePath → String → ProfilesYaml → Catalog → ProfileItem → Answer × Catalog
unfolding remove_file without store_manifest resolve_profile_file
delete_found stored removable dir uid yaml c item =
    remove_file removable (resolve_profile_file c.files dir uid item.file)
      (store_manifest stored (without uid yaml) c)

unfoldable pub delete_in : Stored → Bool → FilePath → String → Catalog → Manifest → Answer × Catalog
unfolding find delete_found
delete_in stored removable dir uid c missing = (not_found, c)
delete_in stored removable dir uid c unreadable = (internal_error, c)
delete_in stored removable dir uid c invalid = (bad_request, c)
delete_in stored removable dir uid c (manifest yaml) =
    map_or (find uid yaml.items) (not_found, c) (delete_found stored removable dir uid yaml c)

unfoldable pub delete_profile : Stored → Bool → FilePath → String → Catalog → Answer × Catalog
unfolding delete_in
delete_profile stored removable dir uid c = delete_in stored removable dir uid c c.manifest
