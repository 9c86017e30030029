-- ===== src/Text/Numeral.antt =====
-- The parser of `u32` against the value that a numeral has.
use control_tower.Prelude.{
  ℕ, ◌+◌, ◌-◌, ◌*◌, ◌^◌, ◌≤◌, ◌<◌, ◌≡◌, refl, Option, none, some, List, [], ◌∷◌, ltb, ◌==◌,
  if◌then◌else◌, arith, Option-cases, inl, inr,
}
use control_tower.Text.{is_digit, digits_u32, parse_u32}

-- The value of the digits, if all are digits; no bound.
pub value : ℕ → List ℕ → Option ℕ
value acc [] = some acc
value acc (c ∷ s) = let rest = value (acc * 10 + (c - b'0')) s in if is_digit c then rest else none

unsigned : List ℕ → Option ℕ
unfolding value
unsigned [] = none
unsigned (c ∷ s) = value 0 (c ∷ s)

-- A numeral: digits, at least one, with at most one `+` in front.
pub numeral : List ℕ → Option ℕ
unfolding unsigned
numeral [] = none
numeral (c ∷ s) = if c == b'+' then unsigned s else unsigned (c ∷ s)

abbrev pub below : ℕ → Option ℕ → Option ℕ
below n none = none
below n (some v) = if ltb v n then some v else none

value-le : (acc v : ℕ) (s : List ℕ) → value acc s ≡ some v → acc ≤ v
unfolding value
value-le acc v [] h = ground arith
value-le acc v (c ∷ s) h = ground (arith, value-le (acc * 10 + (c - b'0')) v s)

-- Overflow at any digit is overflow of the whole.
digits_u32-value :
    (acc : ℕ) (s : List ℕ) → acc < 2 ^ 32 → digits_u32 acc s ≡ below (2 ^ 32) (value acc s)
unfolding digits_u32 value
digits_u32-value acc [] h = ground arith
digits_u32-value acc (c ∷ s) h = elim (Option-cases (value (acc * 10 + (c - b'0')) s)) [
  | inl e ↦ ground (arith, digits_u32-value (acc * 10 + (c - b'0')) s)
  | inr (v, e) ↦
      ground
        (arith, digits_u32-value (acc * 10 + (c - b'0')) s, value-le (acc * 10 + (c - b'0')) v s)
]

pub parse_u32-numeral : (s : List ℕ) → parse_u32 s ≡ below (2 ^ 32) (numeral s)
unfolding parse_u32 numeral
parse_u32-numeral [] = refl
parse_u32-numeral (c ∷ []) = ground (arith, digits_u32-value 0 (c ∷ []))
parse_u32-numeral (c ∷ d ∷ s) =
    ground (arith, digits_u32-value 0 (d ∷ s), digits_u32-value 0 (c ∷ d ∷ s))

pub numeral-nil : numeral [] ≡ none
unfolding numeral
numeral-nil = refl
