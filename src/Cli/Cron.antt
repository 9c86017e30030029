-- ===== src/Cli/Cron.antt =====
-- The cron texts that the client stores are schedules of the daemon.
use control_tower.Prelude.{
  ℕ, ◌+◌, ◌*◌, ◌-◌, String, Bool, true, false, Option, none, some, List, [], ◌∷◌, ◌++◌, ◌≡◌, refl,
  sym, ap, ◌∙◌, if◌then◌else◌, str_eq, ◌==◌, map_or, map, All, reverse, reverse-append,
  reverse-reverse, is_empty, arith, Bool-cases, Option-cases, inl, inr, if_elim, map_or_elim,
}
use control_tower.Text.{
  codes, is_whitespace, is_digit, digits_u32, unsigned_u32, parse_u32, trim, trim_start,
}
use control_tower.Profiles.{ProfileItem, ProfilesYaml}
use control_tower.Catalog as Catalog
use control_tower.Scheduler.{parse}
use control_tower.Cli.{
  Profile, ProfilesFile, load_profiles, item_of, entry, find, change, Save, save_profiles,
  reload_cron, not_found, not_loaded, not_saved, invalid_minutes,
}
use control_tower.Cli.Edit.{saved_cron, set_cron, set_cron_in, minutes_of, is_off, Changed}
use control_tower.Cli.Shared.{daemon_of, seen, daemon_of-saved}

abbrev IsVisible : ℕ → Type 0
IsVisible c = is_whitespace c ≡ false

digit-IsVisible : (c : ℕ) → is_digit c ≡ true → IsVisible c
unfolding is_whitespace
digit-IsVisible c h = ground (arith, h)

digits-IsVisible : (acc n : ℕ) (s : List ℕ) → digits_u32 acc s ≡ some n → All IsVisible s
unfolding digits_u32
digits-IsVisible acc n [] h = tt
digits-IsVisible acc n (c ∷ s) h = elim (Bool-cases (is_digit c)) [
  | inl d ↦
      (digit-IsVisible c d, digits-IsVisible (acc * 10 + (c - b'0')) n s (ground (arith, h, d)))
  | inr d ↦ absurd (ground (arith, h, d))
]

unsigned-IsVisible : (n : ℕ) (s : List ℕ) → unsigned_u32 s ≡ some n → All IsVisible s
unfolding unsigned_u32
unsigned-IsVisible n [] h = tt
unsigned-IsVisible n (c ∷ s) h = digits-IsVisible 0 n (c ∷ s) h

parse_u32-IsVisible : (n : ℕ) (s : List ℕ) → parse_u32 s ≡ some n → All IsVisible s
unfolding parse_u32 is_whitespace
parse_u32-IsVisible n [] h = tt
parse_u32-IsVisible n (c ∷ s) h = elim (Bool-cases (c == b'+')) [
  | inl e ↦ (ground (arith, e), unsigned-IsVisible n s (ground (arith, h, e)))
  | inr e ↦ unsigned-IsVisible n (c ∷ s) (ground (arith, h, e))
]

All-append : (s t : List ℕ) → All IsVisible s → All IsVisible t → All IsVisible (s ++ t)
All-append [] t h k = k
All-append (c ∷ s) t h k = (h.0, All-append s t h.1 k)

All-reverse : (s : List ℕ) → All IsVisible s → All IsVisible (reverse s)
All-reverse [] h = tt
All-reverse (c ∷ s) h =
    rw (reverse-append (c ∷ []) s) (All-append (reverse s) (c ∷ []) (All-reverse s h.1) (h.0, tt))

trim_start_visible : (s : List ℕ) → All IsVisible s → trim_start s ≡ s
unfolding trim_start
trim_start_visible [] h = refl
trim_start_visible (c ∷ s) h = rw (h.0) refl

trim_visible : (s : List ℕ) → All IsVisible s → trim s ≡ s
unfolding trim
trim_visible s h =
    rw (trim_start_visible s h, trim_start_visible (reverse s) (All-reverse s h))
      (reverse-reverse s)

parse_u32-ne-nil : (n : ℕ) (s : List ℕ) → parse_u32 s ≡ some n → is_empty s ≡ false
unfolding parse_u32
parse_u32-ne-nil n [] h = ground (arith, h)
parse_u32-ne-nil n (c ∷ s) h = refl

-- The client's test of a text is the daemon's parser, on texts that the client takes.
minutes_of-parse :
    (text : String) (n : ℕ)
    → minutes_of text ≡ some n
    → parse (codes text) ≡ some (record { minutes = n })
unfolding minutes_of parse
minutes_of-parse text n h = elim (Option-cases (parse_u32 (codes text))) [
  | inl e ↦ absurd (ground (arith, h, e))
  | inr (k, e) ↦
      rw
        (
          trim_visible (codes text) (parse_u32-IsVisible k (codes text) e),
          parse_u32-ne-nil k (codes text) e,
          e,
        )
        (ground (arith, h, e))
]

find-change :
    (id : String) (f : Profile → Profile) (ps : List Profile) (p : Profile)
    → ((p : Profile) → (f p).id ≡ p.id)
    → find id ps ≡ some p
    → Catalog.find id (map item_of (map entry (change id f ps))) ≡ some (item_of (entry (f p)))
unfolding find change Catalog.find
find-change id f [] p k h = ground (arith, h)
find-change id f (q ∷ ps) p k h = elim (Bool-cases (str_eq q.id id)) [
  | inl e ↦
      let e' : str_eq (f q).id id ≡ true = ap (λ x. str_eq x id) (k q) ∙ e in
      let same : some q ≡ some p = sym (ap (λ b. if b then some q else find id ps) e) ∙ h in
      rw (e, e') (ap (λ o. map_or o none (λ q. some (item_of (entry (f q))))) same)
  | inr e ↦
      let later =
        find-change id f ps p k (sym (ap (λ b. if b then some q else find id ps) e) ∙ h) in
      rw (e, Catalog.find, e) later
]

saved_cron_lem :
    (s : Save) (id : String) (cron : Option String) (ps : List Profile) (f : ProfilesFile)
    → (saved_cron s id cron ps f).0 ≡ none
    → (daemon_of (saved_cron s id cron ps f).1
        ≡ some (seen (change id (λ p. record p { cron = cron }) ps)))
      × ((saved_cron s id cron ps f).2 ≡ reload_cron ∷ [])
unfolding saved_cron
saved_cron_lem s id cron ps f =
    let new : List Profile = change id (λ p. record p { cron = cron }) ps in
    let r : Bool × ProfilesFile = save_profiles s new f in
    if_elim
      (λ (c : Changed). c.0 ≡ none → (daemon_of c.1 ≡ some (seen new)) × (c.2 ≡ reload_cron ∷ []))
      r.0 (none, r.1, reload_cron ∷ []) (some not_saved, r.1, [])
      (λ e h. (daemon_of-saved s new f e, refl)) (λ e h. ground (arith, h))

-- The daemon reads a profile of the id with this cron text, which is a schedule, and is asked to
-- load the jobs again.
unfoldable pub IsScheduled : String → String → Changed → Type 0
IsScheduled id text r =
    (yaml : ProfilesYaml) × (item : ProfileItem) × (n : ℕ) × (daemon_of r.1 ≡ some yaml)
    × (Catalog.find id yaml.items ≡ some item)
    × (item.cron ≡ some text)
    × (parse (codes text) ≡ some (record { minutes = n }))
    × (r.2 ≡ reload_cron ∷ [])

-- Whenever the client sets a cron text, other than `off`, and succeeds, the manifest that it leaves
-- has for the daemon a profile of the id with this text, the daemon's parser takes the text for a
-- schedule, and the daemon is asked to load its jobs again.
pub set_cron-IsScheduled :
    (s : Save) (id text : String) (f : ProfilesFile)
    → is_off (codes text) ≡ false
    → (set_cron s id (some text) f).0 ≡ none
    → IsScheduled id text (set_cron s id (some text) f)
unfolding set_cron set_cron_in IsScheduled
set_cron-IsScheduled s id text f o =
    let P : Changed → Type 0 = λ r. r.0 ≡ none → IsScheduled id text r in
    map_or_elim P (load_profiles f) (some not_loaded, f, []) (set_cron_in s id (some text) f)
      (λ e h. ground (arith, h))
      (λ ps l.
        map_or_elim P (find id ps) (some not_found, f, []) _ (λ e h. ground (arith, h))
          (λ p e.
            if_elim P (is_off (codes text)) (saved_cron s id none ps f) _
              (λ k. ground (arith, o, k))
              (λ k.
                map_or_elim P (minutes_of text) (some invalid_minutes, f, [])
                  (λ n. saved_cron s id (some text) ps f) (λ m h. ground (arith, h))
                  (λ n m h.
                    let set : Profile → Profile = λ p. record p { cron = some text } in
                    let (read, asked) = saved_cron_lem s id (some text) ps f h in
                    (
                      seen (change id set ps),
                      item_of (entry (set p)),
                      n,
                      read,
                      find-change id set ps p (λ p. refl) e,
                      refl,
                      minutes_of-parse text n m,
                      asked,
                    )))))
