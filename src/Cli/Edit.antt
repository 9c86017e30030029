-- ===== src/Cli/Edit.antt =====
-- `set_cron`, `add_profile` and `update_profile` of crates/control-tower-cli/src/profile.rs.
use control_tower.Prelude.{
  ℕ, String, Bool, false, not, ◌&&◌, ◌||◌, Option, none, some, List, [], ◌∷◌, ◌++◌, ◌==◌, ltb,
  if◌then◌else◌, str_eq, map_or, and_then, unwrap_or, ◌+◌, or_else,
}
use control_tower.Text.{codes, parse_u32}
use control_tower.Cli.{
  Profile, ProfilesFile, load_profiles, current_of, Save, save_profiles, find, change, Call,
  reload_cron, Failure, not_loaded, not_found, no_active, no_url, invalid_minutes, not_downloaded,
  not_written, not_saved,
}

-- `s.to_lowercase() == "off"`: no other character has a lower case in this text.
abbrev pub lower : ℕ → ℕ
lower c = if not (ltb c b'A') && not (ltb b'Z' c) then c + 32 else c

unfoldable pub is_off : List ℕ → Bool
is_off (o ∷ f ∷ g ∷ []) = lower o == b'o' && lower f == b'f' && lower g == b'f'
is_off _ = false

unfoldable pub minutes_of : String → Option ℕ
minutes_of s = and_then (parse_u32 (codes s)) (λ n. if ltb n 1 || ltb 10080 n then none else some n)

-- The cron text of a profile is set, saved, and the daemon asked to load the jobs again.
abbrev pub Changed : Type 0
Changed = Option Failure × ProfilesFile × List Call

unfoldable pub saved_cron : Save → String → Option String → List Profile → ProfilesFile → Changed
unfolding save_profiles change
saved_cron s id cron ps f =
    let r = save_profiles s (change id (λ p. record p { cron = cron }) ps) f in
    if r.0 then (none, r.1, reload_cron ∷ []) else (some not_saved, r.1, [])

-- `set_cron`; without a schedule the one that is there is shown.
unfoldable pub set_cron_in : Save → String → Option String → ProfilesFile → List Profile → Changed
unfolding saved_cron minutes_of is_off find
set_cron_in s id schedule f ps =
    map_or (find id ps) (some not_found, f, [])
      (λ p.
        map_or schedule (none, f, [])
          (λ text.
            if is_off (codes text)
            then saved_cron s id none ps f
            else map_or (minutes_of text) (some invalid_minutes, f, [])
                (λ n. saved_cron s id (some text) ps f)))

unfoldable pub set_cron : Save → String → Option String → ProfilesFile → Changed
unfolding set_cron_in load_profiles
set_cron s id schedule f =
    map_or (load_profiles f) (some not_loaded, f, []) (set_cron_in s id schedule f)

-- The texts of the files, by their paths.
abbrev pub Texts : Type 0
Texts = String → Option (List ℕ)

abbrev pub put : String → Option (List ℕ) → Texts → Texts
put p o ts q = if str_eq p q then o else ts q

-- What is answered during an addition: the download, the new id and the path of its file.
pub record Addition : Type 0 where
  pub download : Option (List ℕ)
  pub id : String
  pub path : String
  pub dir_made : Bool
  pub written : Bool
  -- What a write that fails leaves of the file.
  pub left : Option (List ℕ)
  pub saved : Save
  pub now : ℕ

unfoldable pub new_profile : Addition → String → Option String → Profile
new_profile a url name = record {
  id = a.id;
  name = unwrap_or name "Unnamed Profile";
  url = some url;
  file = some a.path;
  active = false;
  updated_at = some a.now;
  cron = none;
}

abbrev pub added :
    Addition → List Profile → ProfilesFile → Texts → Option Failure × ProfilesFile × Texts
added a ps f ts =
    let r = save_profiles a.saved ps f in (if r.0 then none else some not_saved, r.1, ts)

-- A manifest that cannot be loaded is taken for an empty one.
unfoldable pub add_text :
    Addition
    → String
    → Option String
    → ProfilesFile
    → Texts
    → List ℕ
    → Option Failure × ProfilesFile × Texts
unfolding new_profile load_profiles save_profiles
add_text a url name f ts text =
    if a.dir_made
    then (if a.written
        then added a (unwrap_or (load_profiles f) [] ++ new_profile a url name ∷ []) f
            (put a.path (some text) ts)
        else (some not_written, f, put a.path a.left ts))
    else (some not_written, f, ts)

unfoldable pub add_profile :
    Addition → String → Option String → ProfilesFile → Texts → Option Failure × ProfilesFile × Texts
unfolding add_text
add_profile a url name f ts =
    map_or a.download (some not_downloaded, f, ts) (add_text a url name f ts)

-- What is answered during an update: the download and the write of the file, which leaves something
-- if it fails.
pub record Refresh : Type 0 where
  pub download : Option (List ℕ)
  pub written : Bool
  pub left : Option (List ℕ)
  pub saved : Save
  pub now : ℕ

abbrev pub Updated : Type 0
Updated = Option Failure × ProfilesFile × Texts

unfoldable pub stamped : Refresh → String → List Profile → ProfilesFile → Texts → Updated
unfolding change save_profiles
stamped r id ps f ts =
    let s = save_profiles r.saved (change id (λ p. record p { updated_at = some r.now }) ps) f in
    (if s.0 then none else some not_saved, s.1, ts)

unfoldable pub update_found :
    Refresh → String → List Profile → ProfilesFile → Texts → Profile → Updated
unfolding stamped
update_found r id ps f ts p =
    map_or p.url (some no_url, f, ts)
      (λ url.
        map_or r.download (some not_downloaded, f, ts)
          (λ text. map_or p.file (stamped r id ps f ts) (λ file.
            if r.written
            then stamped r id ps f (put file (some text) ts)
            else (some not_written, f, put file r.left ts))))

-- `update_profile`, of the active profile if no id is given.
unfoldable pub update_profile : Refresh → Option String → ProfilesFile → Texts → Updated
unfolding update_found load_profiles current_of find
update_profile r id f ts =
    map_or (load_profiles f) (some not_loaded, f, ts)
      (λ ps.
        map_or (or_else id (current_of ps)) (some no_active, f, ts)
          (λ id. map_or (find id ps) (some not_found, f, ts) (update_found r id ps f ts)))
