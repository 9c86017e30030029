-- ===== src/Catalog/Stamp.antt =====
-- What the stamp of an item, its URL and the time of its update, leaves of the other items.
use control_tower.Prelude.{
  ℕ, String, false, some, List, [], ◌∷◌, ◌++◌, any, str_eq, ◌≡◌, refl, ap, ◌∙◌, arith, Bool-cases,
  inl, inr,
}
use control_tower.Profiles.{ProfileItem, ProfilesYaml, Manifest, manifest}
use control_tower.Catalog.{find}
use control_tower.Catalog.Item.{stamp, change_first}

-- The first item of the uid, with the items before and behind it, and what a change makes of them.
abbrev Splits : String → (ProfileItem → ProfileItem) → List ProfileItem → ProfileItem → Type 0
Splits uid f items old =
    (before after : List ProfileItem) × (items ≡ before ++ old ∷ after)
    × (any (λ i. str_eq i.uid uid) before ≡ false)
    × (change_first uid f items ≡ before ++ f old ∷ after)

change_first-find :
    (uid : String) (f : ProfileItem → ProfileItem) (items : List ProfileItem) (old : ProfileItem)
    → find uid items ≡ some old
    → Splits uid f items old
unfolding change_first find
change_first-find uid f [] old h = ground (arith, h)
change_first-find uid f (item ∷ items) old h = elim (Bool-cases (str_eq item.uid uid)) [
  | inl t ↦
      let e : item ≡ old = ground (arith, h, t) in
      ([], items, ap (λ i. i ∷ items) e, refl, rw t (ap (λ i. f i ∷ items) e))
  | inr t ↦
      let k : find uid items ≡ some old = ground (arith, h, t) in
      let (before, after, split, others, changed) = change_first-find uid f items old k in
      (
        item ∷ before,
        after,
        ap (λ is. item ∷ is) split,
        rw t others,
        rw t (ap (λ is. item ∷ is) changed),
      )
]

-- The manifest is the old one but for the URL and the time of the first item of the uid.
unfoldable pub IsStamped : String → ℕ → String → ProfilesYaml → ProfileItem → Manifest → Type 0
IsStamped uid now url yaml old m =
    (before after : List ProfileItem) × (yaml.items ≡ before ++ old ∷ after)
    × (any (λ i. str_eq i.uid uid) before ≡ false)
    × (m
        ≡ manifest (record yaml {
          items = before ++ record old { updated_at = some now; url = some url } ∷ after;
        }))

pub stamp-IsStamped :
    (uid : String) (now : ℕ) (url : String) (yaml : ProfilesYaml) (old : ProfileItem) (m : Manifest)
    → find uid yaml.items ≡ some old
    → m ≡ manifest (stamp uid now (some url) yaml)
    → IsStamped uid now url yaml old m
unfolding stamp IsStamped
stamp-IsStamped uid now url yaml old m h e =
    let f : ProfileItem → ProfileItem =
      λ item. record item { updated_at = some now; url = some url } in
    let (before, after, split, others, changed) = change_first-find uid f yaml.items old h in
    (before, after, split, others, e ∙ ap (λ is. manifest (record yaml { items = is })) changed)
