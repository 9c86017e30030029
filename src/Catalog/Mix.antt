-- ===== src/Catalog/Mix.antt =====
-- `merge_profiles` of api/profile_handlers.rs: the configuration of a profile that is made of
-- others. `content_of` is the content of a file with a text.
use control_tower.Prelude.{ℕ, String, Option, some, List, [], ◌∷◌, ◌++◌, map_or, and_then}
use control_tower.Files.{FilePath, Files}
use control_tower.Profiles.{ProfilesYaml}
use control_tower.Yaml.{Yaml}
use control_tower.Catalog.{find, resolve_profile_file}

module _ (y : Yaml) (content_of : List ℕ → y.Content) where
  open y use {
    Content, Value, Mapping, text, from_str, to_string, as_sequence, as_mapping, put_sequence,
    put_mapping, get, insert,
  }

  -- The elements of the one array are pushed to the other; nothing happens if one is no array.
  abbrev pub pushed : Value → Value → Value
  pushed into v =
      map_or (as_sequence into) into
        (λ xs. map_or (as_sequence v) into (λ ys. put_sequence into (xs ++ ys)))

  -- One key of a profile goes into what is merged so far.
  unfoldable pub merge_key : String → Mapping → Mapping → Mapping
  merge_key k profile merged =
      map_or (get k profile) merged
        (λ v. insert k (map_or (get k merged) v (λ into. pushed into v)) merged)

  unfoldable pub merge_keys : Mapping → Mapping → Mapping
  unfolding merge_key
  merge_keys profile merged =
      merge_key "rules" profile
        (merge_key "proxy-groups" profile (merge_key "proxies" profile merged))

  unfoldable pub merge_value : Value → Value → Value
  unfolding merge_keys
  merge_value merged profile =
      map_or (as_mapping merged) merged
        (λ m. map_or (as_mapping profile) merged (λ p. put_mapping merged (merge_keys p m)))

  -- The parsed profile of a uid: it must be listed, its file readable, and its text YAML.
  unfoldable pub profile_value : Files → FilePath → ProfilesYaml → String → Option Value
  unfolding find resolve_profile_file
  profile_value fs dir yaml uid = and_then (find uid yaml.items) (λ item.
      and_then (fs (resolve_profile_file fs dir uid item.file)) (λ t. from_str (content_of t)))

  unfoldable pub merge_all : Files → FilePath → ProfilesYaml → List String → Value → Option Value
  unfolding profile_value merge_value
  merge_all fs dir yaml [] merged = some merged
  merge_all fs dir yaml (uid ∷ uids) merged =
      and_then (profile_value fs dir yaml uid)
        (λ v. merge_all fs dir yaml uids (merge_value merged v))

  unfoldable pub merge_profiles : Files → FilePath → ProfilesYaml → List String → Option Content
  unfolding merge_all
  merge_profiles fs dir yaml uids =
      and_then (from_str (text "mode: rule\nproxies: []\n"))
        (λ base. and_then (merge_all fs dir yaml uids base) to_string)
