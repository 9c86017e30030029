-- ===== src/Text/Trim.antt =====
-- White space around a text does not matter to `trim`.
use control_tower.Prelude.{
  ℕ, ◌≡◌, refl, ap, ◌∙◌, true, List, [], ◌∷◌, ◌++◌, reverse, reverse-append, All, arith,
}
use control_tower.Text.{is_whitespace, trim_start, trim_end, trim}

abbrev pub IsBlank : List ℕ → Type 0
IsBlank = All (λ c. is_whitespace c ≡ true)

pub trim_start-append : (ws s : List ℕ) → IsBlank ws → trim_start (ws ++ s) ≡ trim_start s
unfolding trim_start
trim_start-append [] s h = refl
trim_start-append (c ∷ ws) s h = ground (arith, trim_start-append ws s h.1)

IsBlank-append : (xs ys : List ℕ) → IsBlank xs → IsBlank ys → IsBlank (xs ++ ys)
IsBlank-append [] ys h k = k
IsBlank-append (x ∷ xs) ys h k = (h.0, IsBlank-append xs ys h.1 k)

IsBlank-reverse : (ws : List ℕ) → IsBlank ws → IsBlank (reverse ws)
IsBlank-reverse [] h = tt
IsBlank-reverse (c ∷ ws) h =
    rw (reverse-append (c ∷ []) ws)
      (IsBlank-append (reverse ws) (c ∷ []) (IsBlank-reverse ws h.1) (h.0, tt))

trim_end-append : (s ws : List ℕ) → IsBlank ws → trim_end (s ++ ws) ≡ trim_end s
unfolding trim_end
trim_end-append s ws h =
    rw (reverse-append s ws)
      (ap reverse (trim_start-append (reverse ws) (reverse s) (IsBlank-reverse ws h)))

trim_start_blank : (ws : List ℕ) → IsBlank ws → trim_start ws ≡ []
unfolding trim_start
trim_start_blank [] h = refl
trim_start_blank (c ∷ ws) h = ground (arith, trim_start_blank ws h.1)

trim-append_right : (s ws : List ℕ) → IsBlank ws → trim (s ++ ws) ≡ trim s
unfolding trim trim_start
trim-append_right [] ws h = ap trim_end (trim_start_blank ws h)
trim-append_right (c ∷ s) ws h =
    ground (arith, trim-append_right s ws h, trim_end-append (c ∷ s) ws h)

pub trim-append :
    (before s after : List ℕ)
    → IsBlank before
    → IsBlank after
    → trim (before ++ s ++ after) ≡ trim s
unfolding trim
trim-append before s after h k =
    trim-append_right (before ++ s) after k ∙ ap trim_end (trim_start-append before s h)
