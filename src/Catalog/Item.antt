-- ===== src/Catalog/Item.antt =====
-- What `update_profile` and `refresh_profile` of api/profile_handlers.rs do to an item of the manifest.
use Prim.Native.Char.{code}
use control_tower.Prelude.{
  ℕ, String, Bool, true, false, ◌&&◌, Option, none, some, List, [], ◌∷◌, if◌then◌else◌, str_eq,
  map_or, and_then, leb,
}
use control_tower.Files.{is_long, short_file}
use control_tower.Text.{codes, is_whitespace, parse_u32}
use control_tower.Profiles.{ProfileDownloadOptions, ProfileItem, ProfilesYaml}
use control_tower.Catalog.Add.{is_blank}

-- A field of the body: absent, which a value of another type is too, null, or a text.
pub data Field : Type 0 where
  absent null : Field
  text : String → Field

-- The options: absent, cleared by null or by a value that is no options, or given.
pub data OptionsField : Type 0 where
  unchanged cleared : OptionsField
  given : ProfileDownloadOptions → OptionsField

pub record Body : Type 0 where
  pub is_object : Bool
  pub name : Field
  pub url : Field
  pub cron : Field
  pub options : OptionsField

trim_start : String → String
trim_start String.[] = ""
trim_start (String.◌∷◌ c s) =
    let rest = trim_start s in if is_whitespace (code c) then rest else String.◌∷◌ c s

trim_end : String → String
trim_end String.[] = ""
trim_end (String.◌∷◌ c s) =
    let rest = trim_end s in
    if str_eq rest "" && is_whitespace (code c) then "" else String.◌∷◌ c rest

unfoldable pub trim : String → String
unfolding trim_start trim_end
trim s = trim_end (trim_start s)

-- A file name of another form is replaced.
unfoldable pub normalised : String → ProfileItem → ProfileItem
normalised uid item = if is_long uid then record item { file = some (short_file uid) } else item

-- The new cron text, with none for a text that is no number of minutes.
unfoldable pub cron_of : Field → Option String → Option (Option String)
unfolding trim
cron_of absent old = some old
cron_of null old = some none
cron_of (text s) old =
    if str_eq (trim s) ""
    then some none
    else if map_or (parse_u32 (codes (trim s))) false (leb 1)
    then some (some (trim s))
    else none

abbrev pub name_of : Field → Option String → Option String
name_of absent old = old
name_of null old = none
name_of (text s) old = if is_blank s then none else some s

abbrev pub options_of : OptionsField → Option ProfileDownloadOptions → Option ProfileDownloadOptions
options_of unchanged old = old
options_of cleared old = none
options_of (given o) old = some o

-- The item with the changes but the URL, with none for a cron text that is refused.
unfoldable pub edited : String → Body → ProfileItem → Option ProfileItem
unfolding normalised cron_of
edited uid b item = and_then (cron_of b.cron item.cron) (λ cron.
    some (record (normalised uid item) {
      cron = cron;
      name = name_of b.name item.name;
      options = options_of b.options item.options;
    }))

-- The first item of the uid is changed.
unfoldable pub change_first :
    String → (ProfileItem → ProfileItem) → List ProfileItem → List ProfileItem
change_first uid f [] = []
change_first uid f (item ∷ items) =
    let rest = change_first uid f items in
    if str_eq item.uid uid then f item ∷ items else item ∷ rest

unfoldable pub stamp : String → ℕ → Option String → ProfilesYaml → ProfilesYaml
unfolding change_first
stamp uid now url yaml = record yaml {
  items =
      change_first uid
        (λ item. record item { updated_at = some now; url = map_or url item.url (λ u. some u) })
        yaml.items;
}

-- The URL that is given, if it differs from the item's.
abbrev pub new_url : Field → Option String → Option String
new_url absent old = none
new_url null old = none
new_url (text u) old = if map_or old false (λ o. str_eq u o) then none else some u

-- A URL that is given must be a text that is not blank.
abbrev pub url_refused : Field → Bool
url_refused absent = false
url_refused null = true
url_refused (text u) = is_blank u

abbrev pub url_blank : Field → Bool
url_blank absent = false
url_blank null = false
url_blank (text u) = is_blank u
