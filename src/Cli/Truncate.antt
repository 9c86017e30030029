-- ===== src/Cli/Truncate.antt =====
-- `truncate_str`, which crates/control-tower-cli/src/rule.rs, profile.rs, proxy.rs and connections.rs
-- each have, over the characters of a text.
use control_tower.Prelude.{
  ℕ, ◌+◌, ◌-◌, ◌/◌, ◌≤◌, ◌≡◌, List, ◌∷◌, ◌++◌, ltb, leb, if◌then◌else◌, length, take, drop, min,
  arith, length-append, length-take, length-drop, Bool-cases, inl, inr,
}

unfoldable pub truncate_str : List ℕ → ℕ → List ℕ
truncate_str s max_width =
    let remaining : ℕ = max_width - 3 in
    let start_len : ℕ = remaining / 2 in
    let end_len : ℕ = remaining - start_len in
    if leb (length s) max_width
    then s
    else if ltb max_width 5
    then take max_width s
    else take start_len s ++ b'.' ∷ b'.' ∷ b'.' ∷ drop (length s - end_len) s

length-middle :
    (a b : ℕ) (s : List ℕ)
    → a ≤ length s
    → b ≤ length s
    → length (take a s ++ b'.' ∷ b'.' ∷ b'.' ∷ drop (length s - b) s) ≡ a + b + 3
length-middle a b s h k = omega (
  arith,
  length-append (take a s) (b'.' ∷ b'.' ∷ b'.' ∷ drop (length s - b) s),
  length-take a s,
  length-drop (length s - b) s,
)

-- Whatever the text and the width, what is shown has the smaller of the text's length and the width
-- as its number of characters: the dots and the two parts never exceed the column, and fill it.
length-truncate_str :
    (s : List ℕ) (max_width : ℕ) → length (truncate_str s max_width) ≡ min (length s) max_width
unfolding truncate_str
length-truncate_str s w = elim (Bool-cases (leb (length s) w)) [
  | inl e ↦ rw e (ground arith)
  | inr e ↦ rw e (elim (Bool-cases (ltb w 5)) [
    | inl f ↦ rw f (ground (arith, length-take w s, e))
    | inr f ↦
        let long : w ≤ length s = ground (arith, e) in
        let wide : 5 ≤ w = ground (arith, f) in
        rw f (
          omega (
            arith,
            length-middle ((w - 3) / 2) (w - 3 - (w - 3) / 2) s (omega arith) (omega arith),
          ))
  ])
]
