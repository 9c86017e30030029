-- ===== src/Catalog/Add.antt =====
-- POST /api/profiles: `add_profile` of api/profile_handlers.rs.
use Prim.Native.String
use Prim.Native.Char.{code}
use control_tower.Prelude.{
  ℕ, zero, suc, ◌-◌, String, Bool, true, false, not, ◌||◌, ◌&&◌, Option, none, some, List, [], ◌∷◌,
  ◌++◌, if◌then◌else◌, str_eq, map_or, unwrap_or, ◌==◌, ltb,
}
use control_tower.Files.{FilePath, Files, join, short_file}
use control_tower.Text.{codes, trim, starts_with}
use control_tower.Profiles.{ProfileDownloadOptions, ProfileItem, ProfilesYaml, Manifest, manifest}
use control_tower.Catalog.{
  Answer, done, bad_request, internal_error, Catalog, Stored, Written, write_file, store_manifest,
}

pub record AddProfileRequest : Type 0 where
  pub url : Option String
  pub name : Option String
  pub kind : Option String
  pub file : Option String
  pub script : Option String
  pub merge : Option (List String)
  pub options : Option ProfileDownloadOptions

-- How a download ends: without a client, without a good answer, with a body that cannot be read, or
-- with a text.
pub data Download : Type 0 where
  no_client refused unreadable : Download
  body : List ℕ → Download

-- What is answered during the request; `source` is what the file of a local profile holds.
pub record World : Type 0 where
  pub dir_made : Bool
  pub uid : String
  pub source : Option (List ℕ)
  pub download : Download
  pub write : Written
  pub stored : Stored
  pub now : ℕ

unfoldable pub is_blank : String → Bool
is_blank s = elim (trim (codes s)) [ [] ↦ true | c ∷ cs ↦ false ]

-- Whether a download looks like a page of HTML.
unfoldable pub is_page : List ℕ → Bool
is_page text = starts_with (trim text) (codes "<")

has_slash : String → Bool
has_slash String.[] = false
has_slash (String.◌∷◌ c s) = code c == b'/' || has_slash s

-- `url.split('/').last()`
unfoldable pub last_segment : String → String
unfolding has_slash
last_segment String.[] = ""
last_segment (String.◌∷◌ c s) =
    let rest = last_segment s in
    if has_slash s then rest else if code c == b'/' then s else String.◌∷◌ c s

-- `trim_end_matches(".yaml")`, with the length of the text as the number of rounds.
strip : ℕ → String → String
strip zero s = s
strip (suc n) s =
    let stem : String = String.slice s 0 (String.len s - 5) in
    let rest = strip n stem in
    if not (ltb (String.len s) 5) && str_eq s (String.◌++◌ stem ".yaml") then rest else s

unfoldable pub default_name : String → Option String → String → String
unfolding strip last_segment
default_name kind url uid =
    if str_eq kind "remote"
    then map_or url (String.◌++◌ "Profile " (String.slice uid 0 8))
        (λ u. strip (String.len u) (last_segment u))
    else String.◌++◌ kind " profile"

unfoldable pub saved_as : Bool × Files → Answer × Files
saved_as (true, fs) = (done, fs)
saved_as (false, fs) = (internal_error, fs)

unfoldable pub add_local : World → FilePath → Option String → Files → Answer × Files
unfolding saved_as
add_local w p none fs = saved_as (write_file w.write p (codes "mode: rule\nproxies: []\n") fs)
add_local w p (some f) fs =
    map_or w.source (done, fs) (λ text. saved_as (write_file w.write p text fs))

unfoldable pub add_download : World → FilePath → Download → Files → Answer × Files
unfolding saved_as
add_download w p no_client fs = (internal_error, fs)
add_download w p refused fs = (bad_request, fs)
add_download w p unreadable fs = (internal_error, fs)
add_download w p (body text) fs =
    if is_page text then (bad_request, fs) else saved_as (write_file w.write p text fs)

unfoldable pub add_remote : World → FilePath → Option String → Files → Answer × Files
unfolding add_download
add_remote w p url fs =
    map_or url (bad_request, fs)
      (λ u. if is_blank u then (bad_request, fs) else add_download w p w.download fs)

abbrev placeholder : String
placeholder = "# Merge profile - content generated at activation\nmode: rule\n"

-- The profile's file, by the kind of the profile.
unfoldable pub add_file : World → AddProfileRequest → String → FilePath → Files → Answer × Files
unfolding add_local add_remote saved_as
add_file w b kind p fs =
    if str_eq kind "local"
    then add_local w p b.file fs
    else if str_eq kind "script"
    then saved_as (write_file w.write p (codes (unwrap_or b.script "")) fs)
    else if str_eq kind "merge"
    then saved_as (write_file w.write p (codes placeholder) fs)
    else add_remote w p b.url fs

-- The manifest that the new item joins: an empty one if there is none or it cannot be used.
unfoldable pub manifest_or_empty : Manifest → ProfilesYaml
manifest_or_empty (manifest yaml) = yaml
manifest_or_empty _ = record { current = none; items = [] }

unfoldable pub new_item : World → AddProfileRequest → String → ProfileItem
new_item w b kind = record {
  uid = w.uid;
  name = some (unwrap_or b.name (default_name kind b.url w.uid));
  file = some (short_file w.uid);
  url = b.url;
  cron = none;
  updated_at = some w.now;
  options = b.options;
  kind = some kind;
  script = b.script;
  merge = unwrap_or b.merge [];
}

unfoldable pub add_item : World → AddProfileRequest → String → Catalog → Answer × Catalog
unfolding manifest_or_empty new_item
add_item w b kind c =
    let yaml : ProfilesYaml = manifest_or_empty c.manifest in
    let stored =
      store_manifest w.stored (record yaml { items = yaml.items ++ new_item w b kind ∷ [] }) c in
    (if stored.0 then done else internal_error, stored.1)

unfoldable pub add_after :
    World → AddProfileRequest → String → Manifest → Answer × Files → Answer × Catalog
unfolding add_item
add_after w b kind m (done, fs) = add_item w b kind (record { manifest = m; files = fs })
add_after w b kind m (a, fs) = (a, record { manifest = m; files = fs })

unfoldable pub add_profile : World → FilePath → AddProfileRequest → Catalog → Answer × Catalog
unfolding add_after add_file
add_profile w dir b c =
    let kind : String = unwrap_or b.kind "remote" in
    if w.dir_made
    then add_after w b kind c.manifest (add_file w b kind (join dir (short_file w.uid)) c.files)
    else (internal_error, c)
