-- ===== src/Yaml/Tables.antt =====
-- Mappings that are made by the insertion of one entry after the other, as they are read.
use control_tower.Prelude.{
  ◌≡◌, refl, String, Option, none, some, List, [], ◌∷◌, if◌then◌else◌, or_else, str_eq, Bool-cases,
  inl, inr,
}
use control_tower.Yaml.{Yaml}

-- The value of the last entry of the name.
abbrev pub last_value : {A V : Type 0} → (A → String) → (A → V) → String → List A → Option V
last_value name value k [] = none
last_value name value k (a ∷ rest) =
    or_else (last_value name value k rest) (if str_eq (name a) k then some (value a) else none)

-- An insertion in front of others.
pub last_more :
    {V : Type 0} (o rest : Option V) (k j : String) (v : V)
    → or_else o (if str_eq k j then some v else rest)
      ≡ or_else (or_else o (if str_eq k j then some v else none)) rest
last_more (some x) rest k j v = refl
last_more none rest k j v = elim (Bool-cases (str_eq k j)) [ inl e ↦ rw e refl | inr e ↦ rw e refl ]

module _ (y : Yaml) where
  open y use {Value, new, get, get-new}

  pub at_new : (o : Option Value) (j : String) → or_else o (get j new) ≡ o
  at_new none j = get-new j
  at_new (some v) j = refl
