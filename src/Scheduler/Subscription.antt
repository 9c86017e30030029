-- ===== src/Scheduler/Subscription.antt =====
-- `update_profile_subscription` of scheduler.rs: one download of a subscription into its file.
use Prim.Native.String
use control_tower.Prelude.{
  ℕ, String, Bool, true, false, not, ◌||◌, ◌≡◌, ◌≢◌, refl, ◌⊎◌, Option, none, some, List, arith,
  if◌then◌else◌, unwrap_or, and_then, Bool-cases, Option-cases, inl, inr,
}
use control_tower.Files.{FilePath, Files, write, path_eq, path_eq_refl, path_eq→eq}
use control_tower.Text.{codes, trim_start, starts_with, contains}
use control_tower.Profiles.{ProfileDownloadOptions}

pub record Request : Type 0 where
  pub url : String
  pub user_agent : String
  pub timeout_secs : ℕ
  -- The local port of Mihomo's HTTP proxy, if the request goes through it.
  pub proxy : Option ℕ

-- How a request ends; the texts are those of the HTTP library's errors.
pub data Answer : Type 0 where
  no_proxy : String → Answer
  no_client : String → Answer
  unreachable : String → Answer
  unreadable : String → Answer
  bad_status : String → Answer
  body : List ℕ → Answer

pub record Internet : Type 0 where
  pub mihomo_port : ℕ
  pub ask : Request → Answer
  -- The error of a write to a file, if it fails, with what it leaves of the file: `fs::write`
  -- empties a file before it writes to it.
  pub write_error : FilePath → Option (String × Option (List ℕ))

pub data UpdateResult : Type 0 where
  ok : UpdateResult
  err : String → UpdateResult

abbrev option_field {ℓ} :
    {A : Type ℓ} → Option ProfileDownloadOptions → (ProfileDownloadOptions → Option A) → A → A
option_field o f d = unwrap_or (and_then o f) d

unfoldable pub request : Internet → String → Option ProfileDownloadOptions → Request
request net url options = record {
  url = url;
  user_agent = option_field options (λ o. o.user_agent) "clash-verge/v2.4.7";
  timeout_secs = option_field options (λ o. o.timeout_seconds) 60;
  proxy = if option_field options (λ o. o.with_proxy) false then some net.mihomo_port else none;
}

-- A block page, such as an error or a CAPTCHA.
unfoldable pub is_html : List ℕ → Bool
is_html text = let t = trim_start text in starts_with t (codes "<") || starts_with t (codes "<!")

unfoldable pub looks_like_clash : List ℕ → Bool
looks_like_clash text =
    contains text (codes "proxies:")
    || contains text (codes "proxy-providers:")
    || contains text (codes "mixed-port:")

-- The write of the text, or its error with what it leaves.
abbrev save : Option (String × Option (List ℕ)) → FilePath → List ℕ → Files → UpdateResult × Files
save (some (e, left)) file text fs = (
  err (String.◌++◌ "Failed to write profile file: " e),
  λ q. if path_eq file q then left else fs q,
)
save none file text fs = (ok, write fs file text)

receive : Internet → FilePath → Answer → Files → UpdateResult × Files
receive net file (no_proxy e) fs =
    (err (String.◌++◌ "Failed to create HTTP client with proxy: " e), fs)
receive net file (no_client e) fs = (err (String.◌++◌ "Failed to create HTTP client: " e), fs)
receive net file (unreachable e) fs = (err (String.◌++◌ "Failed to fetch subscription: " e), fs)
receive net file (bad_status e) fs = (err (String.◌++◌ "Subscription fetch failed: " e), fs)
receive net file (unreadable e) fs =
    (err (String.◌++◌ "Failed to read subscription content: " e), fs)
receive net file (body text) fs =
    if is_html text
    then (err "Subscription returned HTML — likely a block page", fs)
    else if not (looks_like_clash text)
    then (err "Subscription content does not look like a Clash config", fs)
    else save (net.write_error file) file text fs

unfoldable pub update_profile_subscription :
    Internet → String → Option ProfileDownloadOptions → FilePath → Files → UpdateResult × Files
unfolding receive
update_profile_subscription net url options file fs =
    receive net file (net.ask (request net url options)) fs

-- Which texts may become a profile file.
abbrev pub Accepted : List ℕ → Type 0
Accepted text = (is_html text ≡ false) × (looks_like_clash text ≡ true)

-- No other file is changed.
abbrev pub Keeps : FilePath → Files → Files → Type 0
Keeps file fs fs' = (q : FilePath) → q ≢ file → fs' q ≡ fs q

-- The write of an accepted text failed, and left this of the file.
abbrev pub Breaks : Internet → Request → FilePath → Files → Type 0
Breaks net r file fs' =
    (text : List ℕ) × (e : String) × (net.ask r ≡ body text)
    × Accepted text
    × (net.write_error file ≡ some (e, fs' file))

-- What an update promises for its result.
abbrev pub Updates : UpdateResult → Internet → Request → FilePath → Files → Files → Type 0
Updates (err e) net r file fs fs' = Keeps file fs fs' × ((fs' ≡ fs) ⊎ Breaks net r file fs')
Updates ok net r file fs fs' =
    (text : List ℕ) × (net.ask r ≡ body text)
    × Accepted text
    × (net.write_error file ≡ none)
    × (fs' file ≡ some text)
    × Keeps file fs fs'

receive-Updates :
    (net : Internet) (r : Request) (file : FilePath) (fs : Files) (a : Answer)
    → net.ask r ≡ a
    → Updates (receive net file a fs).0 net r file fs (receive net file a fs).1
unfolding receive
receive-Updates net r file fs (body text) e = elim (Bool-cases (is_html text)) [
  | inl h ↦ rw h (λ q other. refl, inl refl)
  | inr h ↦ elim (Bool-cases (looks_like_clash text)) [
    | inr k ↦ rw (h, k) (λ q other. refl, inl refl)
    | inl k ↦ elim (Option-cases (net.write_error file)) [
      | inl w ↦
          rw (h, k, w)
            (
              text,
              e,
              (h, k),
              w,
              rw path_eq_refl refl,
              λ q other. ground (arith, other, path_eq→eq file q),
            )
      | inr ((x, left), w) ↦
          rw (h, k, w)
            (
              λ q other. ground (arith, other, path_eq→eq file q),
              inr (text, x, e, (h, k), rw path_eq_refl w),
            )
    ]
  ]
]
receive-Updates net r file fs _ e = (λ q other. refl, inl refl)

receive_complete :
    (net : Internet) (file : FilePath) (fs : Files) (text : List ℕ)
    → Accepted text
    → net.write_error file ≡ none
    → (receive net file (body text) fs).0 ≡ ok
unfolding receive
receive_complete net file fs text a w = rw (a.0, a.1, w)

-- An update changes no file but the profile's. One that succeeds has written to it the very text
-- that the request returned, which is no HTML page and has one of the marks of a Clash config. One
-- that fails leaves this file as it was too, unless the request returned such a text and the write of
-- it failed: then the file is what the write has left. And whenever the request returns such a text
-- and the file can be written, the update succeeds.
pub update_profile_subscription-Updates :
    (net : Internet) (url : String) (options : Option ProfileDownloadOptions) (file : FilePath)
    (fs : Files)
    → Updates
        (update_profile_subscription net url options file fs).0
        net
        (request net url options)
        file
        fs
        (update_profile_subscription net url options file fs).1
      × ((text : List ℕ)
          → net.ask (request net url options) ≡ body text
          → Accepted text
          → net.write_error file ≡ none
          → (update_profile_subscription net url options file fs).0 ≡ ok)
unfolding update_profile_subscription
update_profile_subscription-Updates net url options file fs = (
  receive-Updates net (request net url options) file fs _ refl,
  λ text e a w. rw e (receive_complete net file fs text a w),
)

receive_same :
    (net : Internet) (file : FilePath) (fs fs' : Files) (a : Answer)
    → (receive net file a fs).0 ≡ (receive net file a fs').0
unfolding receive
receive_same net file fs fs' (body text) = ground arith
receive_same net file fs fs' _ = refl

-- The result of an update does not depend on the files that are there.
pub update_profile_subscription_same :
    (net : Internet) (url : String) (options : Option ProfileDownloadOptions) (file : FilePath)
    (fs fs' : Files)
    → (update_profile_subscription net url options file fs).0
      ≡ (update_profile_subscription net url options file fs').0
unfolding update_profile_subscription
update_profile_subscription_same net url options file fs fs' = receive_same net file fs fs' _
