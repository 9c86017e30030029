-- ===== src/Cli/Proxies/Named.antt =====
-- Which proxy the client takes for a text.
use control_tower.Prelude.{
  ℕ, zero, suc, ◌-◌, ◌≡◌, refl, sym, ap, ◌∙◌, inl, inr, String, Bool, true, false, ◌||◌, some, List,
  [], ◌∷◌, ◌==◌, ltb, str_eq, map_or, unwrap_or, retain, length, get_elem?, arith, eq_iff,
  Bool-cases, Option-cases, if_elim, map_or_elim,
}
use mathlib.Core.List.{Memᴰ}
use control_tower.Text.{parse_usize, all_digits, codes, starts_with, contains}
use control_tower.Cli.Proxies.{
  Resolved, invalid_index, no_match, out_of_range, chosen, at_index, by_index, matches, exact, pick,
  by_name, resolve, resolve_proxy_name,
}

-- One of the names, or none.
abbrev pub IsKnown : List String → Resolved → Type 0
IsKnown names (chosen n) = Memᴰ n names
IsKnown names _ = Unit

get_elem?-known :
    (names : List String) (i : ℕ) (n : String) → get_elem? names i ≡ some n → Memᴰ n names
get_elem?-known [] i n e = absurd (ground (arith, e))
get_elem?-known (m ∷ names) zero n e = Memᴰ.head (ground (arith, e))
get_elem?-known (m ∷ names) (suc i) n e = Memᴰ.tail (get_elem?-known names i n e)

by_index-IsKnown : (names : List String) (text : List ℕ) → IsKnown names (by_index names text)
unfolding by_index at_index
by_index-IsKnown names text =
    map_or_elim (IsKnown names) (parse_usize text) invalid_index (at_index names) (λ e. tt)
      (λ i e.
        if_elim (IsKnown names) (i == 0 || ltb (length names) i) (out_of_range i)
          (map_or (get_elem? names (i - 1)) (out_of_range i) chosen) (λ b. tt)
          (λ b.
            map_or_elim (IsKnown names) (get_elem? names (i - 1)) (out_of_range i) chosen (λ e. tt)
              (λ n e. get_elem?-known names (i - 1) n e)))

-- A member of the list that goes on as it is or without its first element.
Memᴰ-cons :
    (m n : String) (xs ys : List String)
    → (Memᴰ n xs → Memᴰ n ys)
    → Memᴰ n (m ∷ xs)
    → Memᴰ n (m ∷ ys)
Memᴰ-cons m n xs ys f (Memᴰ.head e) = Memᴰ.head e
Memᴰ-cons m n xs ys f (Memᴰ.tail k) = Memᴰ.tail (f k)

retain-known :
    (p : String → Bool) (names : List String) (n : String) → Memᴰ n (retain p names) → Memᴰ n names
retain-known p [] n k = elim k [ ]
retain-known p (m ∷ names) n k =
    if_elim (λ xs. Memᴰ n xs → Memᴰ n (m ∷ names)) (p m) (m ∷ retain p names) (retain p names)
      (λ e. Memᴰ-cons m n (retain p names) names (retain-known p names n))
      (λ e k. Memᴰ.tail (retain-known p names n k)) k

module _ (to_lowercase : String → String) where
  exact-known :
      (lower : String) (names : List String) (n : String)
      → exact to_lowercase lower names ≡ some n
      → Memᴰ n names × (to_lowercase n ≡ lower)
  unfolding exact
  exact-known lower [] n e = absurd (ground (arith, e))
  exact-known lower (m ∷ names) n e = elim (Bool-cases (str_eq (to_lowercase m) lower)) [
    | inl b ↦
        let same : m ≡ n = ground (arith, e, b) in
        (
          Memᴰ.head (sym same),
          ap to_lowercase (sym same) ∙ ground (arith, b, eq_iff (to_lowercase m) lower),
        )
    | inr b ↦ let k = exact-known lower names n (ground (arith, e, b)) in (Memᴰ.tail k.0, k.1)
  ]

  pick-IsKnown :
      (lower : String) (names : List String) → IsKnown names (pick to_lowercase lower names)
  unfolding pick
  pick-IsKnown lower [] = tt
  pick-IsKnown lower (n ∷ []) = Memᴰ.head refl
  pick-IsKnown lower (n ∷ m ∷ ns) = elim (Option-cases (exact to_lowercase lower (n ∷ m ∷ ns))) [
    | inl e ↦ rw e (Memᴰ.head refl)
    | inr (k, e) ↦ rw e (exact-known lower (n ∷ m ∷ ns) k e).0
  ]

  IsKnown-retain :
      (p : String → Bool) (names : List String) (r : Resolved)
      → IsKnown (retain p names) r
      → IsKnown names r
  IsKnown-retain p names (chosen n) k = retain-known p names n k
  IsKnown-retain p names invalid_index k = tt
  IsKnown-retain p names no_match k = tt
  IsKnown-retain p names (out_of_range i) k = tt

  by_name-IsKnown :
      (names : List String) (selector : String)
      → IsKnown names (by_name to_lowercase names selector)
  by_name-IsKnown names selector =
      let lower = to_lowercase selector in
      IsKnown-retain (λ n. contains (codes (to_lowercase n)) (codes lower)) names
        (pick to_lowercase lower (matches to_lowercase lower names))
        (pick-IsKnown lower (matches to_lowercase lower names))

  resolve-IsKnown :
      (names : List String) (selector : String) (s : List ℕ)
      → IsKnown names (resolve to_lowercase names selector s)
  unfolding resolve
  resolve-IsKnown names selector [] = by_index-IsKnown names []
  resolve-IsKnown names selector (c ∷ s) =
      if_elim (IsKnown names) (c == b'#') (by_index names s) _ (λ e. by_index-IsKnown names s)
        (λ e.
          if_elim (IsKnown names) (all_digits (c ∷ s)) (by_index names (c ∷ s)) _
            (λ d. by_index-IsKnown names (c ∷ s)) (λ d. by_name-IsKnown names selector))

  starts_with_self : (s : List ℕ) → starts_with s s ≡ true
  unfolding starts_with
  starts_with_self [] = refl
  starts_with_self (c ∷ s) = ground (arith, starts_with_self s)

  contains_self : (s : List ℕ) → contains s s ≡ true
  unfolding contains
  contains_self [] = starts_with_self []
  contains_self (c ∷ s) = rw (starts_with_self (c ∷ s)) refl

  retain-keeps :
      (p : String → Bool) (names : List String) (n : String)
      → p n ≡ true
      → Memᴰ n names
      → Memᴰ n (retain p names)
  retain-keeps p [] n h k = elim k [ ]
  retain-keeps p (m ∷ names) n h (Memᴰ.head e) = rw (ap p (sym e) ∙ h) (Memᴰ.head e)
  retain-keeps p (m ∷ names) n h (Memᴰ.tail k) =
      if_elim (Memᴰ n) (p m) (m ∷ retain p names) (retain p names)
        (λ e. Memᴰ.tail (retain-keeps p names n h k)) (λ e. retain-keeps p names n h k)

  exact-found :
      (lower n : String) (names : List String)
      → to_lowercase n ≡ lower
      → Memᴰ n names
      → (m : String) × (exact to_lowercase lower names ≡ some m)
  unfolding exact
  exact-found lower n [] e k = elim k [ ]
  exact-found lower n (m ∷ names) e (Memᴰ.head k) =
      (m, ground (arith, eq_iff (to_lowercase m) lower, ap to_lowercase (sym k) ∙ e))
  exact-found lower n (m ∷ names) e (Memᴰ.tail k) =
      elim (Bool-cases (str_eq (to_lowercase m) lower)) [
        | inl b ↦ (m, rw b refl)
        | inr b ↦ let f = exact-found lower n names e k in (f.0, rw b f.1)
      ]

  -- The proxy that is chosen is one of the names, with this text up to case.
  unfoldable pub Picks : List String → String → Resolved → Type 0
  Picks names lower r = (m : String) × (r ≡ chosen m) × Memᴰ m names × (to_lowercase m ≡ lower)

  pick-exact :
      (lower n : String) (names : List String)
      → to_lowercase n ≡ lower
      → Memᴰ n names
      → Picks names lower (pick to_lowercase lower names)
  unfolding pick Picks
  pick-exact lower n [] e k = elim k [ ]
  pick-exact lower n (m ∷ []) e (Memᴰ.head k) =
      (m, refl, Memᴰ.head refl, ap to_lowercase (sym k) ∙ e)
  pick-exact lower n (m ∷ []) e (Memᴰ.tail k) = elim k [ ]
  pick-exact lower n (m ∷ l ∷ ns) e k =
      let (j, f) = exact-found lower n (m ∷ l ∷ ns) e k in
      let (known, same) = exact-known lower (m ∷ l ∷ ns) j f in
      (j, ap (λ o. chosen (unwrap_or o m)) f, known, same)

  resolve-name :
      (names : List String) (selector : String) (s : List ℕ)
      → starts_with s (b'#' ∷ []) ≡ false
      → all_digits s ≡ false
      → resolve to_lowercase names selector s ≡ by_name to_lowercase names selector
  unfolding resolve starts_with
  resolve-name names selector [] h d = ground (arith, h)
  resolve-name names selector (c ∷ s) h d = rw d (ground (arith, h))

  -- Whatever the client is given, a proxy that it then selects or tests is one of the names that
  -- Mihomo lists.
  pub resolve_proxy_name-IsKnown :
      (names : List String) (selector : String)
      → IsKnown names (resolve_proxy_name to_lowercase names selector)
  unfolding resolve_proxy_name
  resolve_proxy_name-IsKnown names selector = resolve-IsKnown names selector (codes selector)

  -- The full name of a listed proxy, which is not only digits and has no `#` in front, is never
  -- refused, and stands for a listed proxy of this name up to case, even if it is also a part of the
  -- names of others.
  pub resolve_proxy_name-Picks :
      (names : List String) (name : String)
      → Memᴰ name names
      → starts_with (codes name) (b'#' ∷ []) ≡ false
      → all_digits (codes name) ≡ false
      → Picks names (to_lowercase name) (resolve_proxy_name to_lowercase names name)
  unfolding resolve_proxy_name Picks
  resolve_proxy_name-Picks names name k h d =
      let lower = to_lowercase name in
      let p : String → Bool = λ n. contains (codes (to_lowercase n)) (codes lower) in
      let kept = retain-keeps p names name (contains_self (codes lower)) k in
      let (m, e, known, same) = pick-exact lower name (retain p names) refl kept in
      (m, resolve-name names name (codes name) h d ∙ e, retain-known p names m known, same)
