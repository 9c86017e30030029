-- ===== src/Settings/Sync.antt =====
-- What a save of the settings makes known to the daemon.
use control_tower.Prelude.{
  ◌*◌, List, [], ◌∷◌, ◌++◌, ◌&&◌, ◌||◌, is_some, Bool, true, false, Option, none, some, ◌≡◌, refl,
  ap, ◌∙◌, unwrap_or, map_or, if◌then◌else◌,
}
use control_tower.Settings.{SettingsData, AutoTestConfig, reread}
use control_tower.Settings.Store.{
  SettingsFile, StartSettings, starting_of, patch_of, Patch, AutoTestState, Runtime, complete,
  Saved, get_settings, load_settings, load_starting, load_auto_test, merge_settings, save_settings,
  write_settings, hot_patch_configs,
}

if_same {ℓ κ} :
    {A : Type ℓ} {B : Type κ} (f : A → B) (b : Bool) (x y : A)
    → f x ≡ f y
    → f (if b then x else y) ≡ f y
if_same f true x y e = e
if_same f false x y e = refl

-- A patch reaches none of the other fields.
patched {ℓ} :
    {A : Type ℓ} (f : Runtime → A) (client : Bool) (p : Patch) (rt : Runtime)
    → ((x : List Patch) → f (record rt { patches = x }) ≡ f rt)
    → f (hot_patch_configs client p rt) ≡ f rt
unfolding hot_patch_configs
patched f client p rt h =
    if_same f
      (client
        && (is_some p.log_level
            || is_some p.allow_lan
            || is_some p.ipv6
            || is_some p.tcp_concurrent))
      (record rt { patches = rt.patches ++ p ∷ [] }) rt (h _)

map_or_twice {ℓ} :
    {A : Type ℓ} {B : Type ℓ} (o : Option A) (b : B) (f : A → B → B)
    → ((a : A) (b : B) → f a (f a b) ≡ f a b)
    → map_or o (map_or o b (λ a. f a b)) (λ a. f a (map_or o b (λ a. f a b)))
      ≡ map_or o b (λ a. f a b)
map_or_twice none b f h = refl
map_or_twice (some a) b f h = h a b

unwrap_or_twice {ℓ} :
    {A : Type ℓ} (o : Option A) (b : A) → unwrap_or o (unwrap_or o b) ≡ unwrap_or o b
unwrap_or_twice none b = refl
unwrap_or_twice (some a) b = refl

load_twice :
    (s : StartSettings) (rt : Runtime) → load_starting s (load_starting s rt) ≡ load_starting s rt
unfolding load_starting load_auto_test
load_twice s rt = λ i. record rt {
  api_host = unwrap_or_twice s.api_host rt.api_host i;
  api_port = unwrap_or_twice s.api_port rt.api_port i;
  auto_test = map_or_twice s.auto_test rt.auto_test load_auto_test (λ a b. refl) i;
}

auto_test_of :
    (o : Option AutoTestConfig) (t : AutoTestState)
    → map_or
        (map_or o none (λ c.
          some (record { enabled = some c.enabled; interval_minutes = some c.interval_minutes })))
        t
        (λ c. load_auto_test c t)
      ≡ map_or o t (λ c. record t { enabled = c.enabled; interval_secs = c.interval_minutes * 60 })
unfolding load_auto_test
auto_test_of none t = refl
auto_test_of (some c) t = refl

-- After a save with a write that completes, the daemon's API address and automatic test are those
-- that are read from the file, where it has them, and otherwise those of before; loading the file
-- again changes nothing.
load_settings-save_settings :
    (client : Bool) (new : SettingsData) (file : SettingsFile) (rt : Runtime)
    → let saved : Saved =
        save_settings (record { client = client; write = complete }) new file rt in
      let s : SettingsData = get_settings saved.1 in
      (saved.2.api_host ≡ unwrap_or s.api_host rt.api_host)
      × (saved.2.api_port ≡ unwrap_or s.api_port rt.api_port)
      × (saved.2.auto_test
          ≡ map_or s.auto_test rt.auto_test (λ c. record (rt.auto_test) {
            enabled = c.enabled;
            interval_secs = c.interval_minutes * 60;
          }))
      × (load_settings saved.1 saved.2 ≡ saved.2)
unfolding save_settings write_settings load_settings load_starting get_settings reread
load_settings-save_settings client new file rt =
    let s : SettingsData = merge_settings new (get_settings file) in
    (
      ap (unwrap_or s.api_host) (patched (λ r. r.api_host) client (patch_of new) rt (λ x. refl)),
      ap (unwrap_or s.api_port) (patched (λ r. r.api_port) client (patch_of new) rt (λ x. refl)),
      ap (λ t. map_or (starting_of s).auto_test t (λ c. load_auto_test c t))
            (patched (λ r. r.auto_test) client (patch_of new) rt (λ x. refl))
          ∙ auto_test_of s.auto_test rt.auto_test,
      load_twice (starting_of s) (hot_patch_configs client (patch_of new) rt),
    )
