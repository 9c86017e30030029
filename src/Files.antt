-- ===== src/Files.antt =====
-- Paths of files, and the names of the profile files. A path is the list of its components, and
-- `join` appends a name.
use Prim.Native.String
use control_tower.Prelude.{
  ℕ, String, Bool, true, false, Option, some, List, [], ◌∷◌, ◌++◌, ◌≡◌, refl, arith, eq_iff, ltb,
  str_eq, is_some, if◌then◌else◌,
}

abbrev pub FilePath : Type 0
FilePath = List String

unfoldable pub join : FilePath → String → FilePath
join dir name = dir ++ name ∷ []

-- `format!("{}.yaml", name)`
unfoldable pub yaml_file : String → String
yaml_file name = String.◌++◌ name ".yaml"

-- `uid.len() > 8`, in bytes.
unfoldable pub is_long : String → Bool
is_long uid = ltb 8 (String.len uid)

-- `format!("{}.yaml", &uid[..8])`
unfoldable pub short_file : String → String
short_file uid = yaml_file (String.slice uid 0 8)

abbrev pub path_eq : FilePath → FilePath → Bool
path_eq [] [] = true
path_eq [] (y ∷ ys) = false
path_eq (x ∷ xs) [] = false
path_eq (x ∷ xs) (y ∷ ys) = let rest = path_eq xs ys in if str_eq x y then rest else false

pub path_eq_refl : (p : FilePath) → path_eq p p ≡ true
path_eq_refl [] = refl
path_eq_refl (x ∷ xs) = ground (arith, eq_iff x x, path_eq_refl xs)

pub path_eq→eq : (p q : FilePath) → path_eq p q ≡ true → p ≡ q
path_eq→eq [] [] h = refl
path_eq→eq [] (y ∷ ys) h = cc
path_eq→eq (x ∷ xs) [] h = cc
path_eq→eq (x ∷ xs) (y ∷ ys) h = ground (arith, eq_iff x y, path_eq→eq xs ys)

-- The texts of the files that are there, by code points.
abbrev pub Files : Type 0
Files = FilePath → Option (List ℕ)

abbrev pub write : Files → FilePath → List ℕ → Files
write fs p text q = if path_eq p q then some text else fs q

abbrev pub exists : Files → FilePath → Bool
exists fs p = is_some (fs p)
