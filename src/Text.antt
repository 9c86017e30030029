-- ===== src/Text.antt =====
-- The functions of Rust's `str` that the program calls, on the code points of a text: `trim`,
-- `trim_start`, `starts_with`, `contains` and the parsers of `u32` and `usize`.
pub mod Numeral
pub mod Trim
use Prim.Native.Char.{code}
use control_tower.Prelude.{
  ℕ, zero, suc, ◌+◌, ◌-◌, ◌*◌, ◌^◌, String, Bool, true, false, not, ◌&&◌, ◌||◌, Option, none, some,
  List, [], ◌∷◌, reverse, ltb, leb, ◌==◌, if◌then◌else◌, and_then, any,
}

abbrev pub codes : String → List ℕ
codes String.[] = []
codes (String.◌∷◌ c s) = code c ∷ codes s

-- `char::is_whitespace`: Unicode's White_Space.
unfoldable pub is_whitespace : ℕ → Bool
is_whitespace c =
    leb 9 c && leb c 13
    || c == 32
    || c == 0x85
    || c == 0xa0
    || c == 0x1680
    || leb 0x2000 c && leb c 0x200a
    || c == 0x2028
    || c == 0x2029
    || c == 0x202f
    || c == 0x205f
    || c == 0x3000

unfoldable pub trim_start : List ℕ → List ℕ
trim_start [] = []
trim_start (c ∷ s) = let rest = trim_start s in if is_whitespace c then rest else c ∷ s

unfoldable pub trim_end : List ℕ → List ℕ
unfolding trim_start
trim_end s = reverse (trim_start (reverse s))

unfoldable pub trim : List ℕ → List ℕ
unfolding trim_end
trim s = trim_end (trim_start s)

unfoldable pub starts_with : List ℕ → List ℕ → Bool
starts_with s [] = true
starts_with [] (p ∷ ps) = false
starts_with (c ∷ s) (p ∷ ps) = if c == p then starts_with s ps else false

-- `s.contains(p)`, for a text `p` that is not empty.
unfoldable pub contains : List ℕ → List ℕ → Bool
unfolding starts_with
contains [] p = starts_with [] p
contains (c ∷ s) p = starts_with (c ∷ s) p || contains s p

abbrev pub is_digit : ℕ → Bool
is_digit c = leb b'0' c && leb c b'9'

-- `u32::from_str_radix` digit by digit, with its checks for overflow.
unfoldable pub digits_u32 : ℕ → List ℕ → Option ℕ
digits_u32 acc [] = some acc
digits_u32 acc (c ∷ s) =
    let next : ℕ = acc * 10 + (c - b'0') in
    let rest = digits_u32 next s in if is_digit c && ltb next (2 ^ 32) then rest else none

unfoldable pub unsigned_u32 : List ℕ → Option ℕ
unfolding digits_u32
unsigned_u32 [] = none
unsigned_u32 (c ∷ s) = digits_u32 0 (c ∷ s)

-- `s.parse::<u32>()`: one sign `+` may stand in front.
unfoldable pub parse_u32 : List ℕ → Option ℕ
unfolding unsigned_u32
parse_u32 [] = none
parse_u32 (c ∷ s) = if c == b'+' then unsigned_u32 s else unsigned_u32 (c ∷ s)

-- `s.parse::<usize>()` of 64 bits, digit by digit, with its checks for overflow.
unfoldable pub digits_usize : ℕ → List ℕ → Option ℕ
digits_usize acc [] = some acc
digits_usize acc (c ∷ s) =
    let next : ℕ = acc * 10 + (c - b'0') in
    let rest = digits_usize next s in if is_digit c && ltb next (2 ^ 64) then rest else none

unfoldable pub unsigned_usize : List ℕ → Option ℕ
unfolding digits_usize
unsigned_usize [] = none
unsigned_usize (c ∷ s) = digits_usize 0 (c ∷ s)

unfoldable pub parse_usize : List ℕ → Option ℕ
unfolding unsigned_usize
parse_usize [] = none
parse_usize (c ∷ s) = if c == b'+' then unsigned_usize s else unsigned_usize (c ∷ s)

-- `s.chars().all(|c| c.is_ascii_digit())`
abbrev pub all_digits : List ℕ → Bool
all_digits s = not (any (λ c. not (is_digit c)) s)
