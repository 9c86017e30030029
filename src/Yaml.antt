-- ===== src/Yaml.antt =====
-- What the program uses of serde_yaml_ng, which is not part of the repository: values, mappings in
-- insertion order, the parser and the printer, with their documented laws. `put_mapping` and
-- `put_sequence` are writes through `as_mapping_mut` and `as_sequence_mut`. A `Content` is the text
-- of a file.
pub mod Instance
pub mod Tables
use control_tower.Prelude.{
  ℕ, String, ◌≡◌, Option, none, some, List, [], ◌∷◌, ◌++◌, str_eq, if◌then◌else◌, and_then,
}

pub record Yaml : Type 1 where
  pub Content : Type 0
  pub Value : Type 0
  pub Mapping : Type 0
  -- A literal text, the parser and the printer, with none for an error.
  pub text : String → Content
  pub from_str : Content → Option Value
  pub to_string : Value → Option Content
  pub string : String → Value
  pub number : ℕ → Value
  pub sequence : List Value → Value
  pub mapping : Mapping → Value
  pub as_str : Value → Option String
  -- `format!("{:?}", v)`
  pub debug : Value → String
  pub as_sequence : Value → Option (List Value)
  pub as_mapping : Value → Option Mapping
  pub put_sequence : Value → List Value → Value
  pub put_mapping : Value → Mapping → Value
  pub new : Mapping
  pub get : String → Mapping → Option Value
  pub insert : String → Value → Mapping → Mapping
  pub remove : String → Mapping → Mapping
  pub entries : Mapping → List (String × Value)
  pub as_str-string : (s : String) → as_str (string s) ≡ some s
  pub as_sequence-sequence : (xs : List Value) → as_sequence (sequence xs) ≡ some xs
  pub as_mapping-mapping : (m : Mapping) → as_mapping (mapping m) ≡ some m
  pub as_sequence-put :
      (v : Value) (xs ys : List Value)
      → as_sequence v ≡ some xs
      → as_sequence (put_sequence v ys) ≡ some ys
  pub as_mapping-put :
      (v : Value) (m n : Mapping) → as_mapping v ≡ some m → as_mapping (put_mapping v n) ≡ some n
  pub get-new : (k : String) → get k new ≡ none
  pub get-insert :
      (k j : String) (v : Value) (m : Mapping)
      → get j (insert k v m) ≡ (if str_eq k j then some v else get j m)
  pub get-remove :
      (k j : String) (m : Mapping) → get j (remove k m) ≡ (if str_eq k j then none else get j m)
  pub entries-new : entries new ≡ []
  pub entries-insert :
      (k : String) (v : Value) (m : Mapping)
      → get k m ≡ none
      → entries (insert k v m) ≡ entries m ++ (k, v) ∷ []
  pub read_back : (v : Value) (c : Content) → to_string v ≡ some c → from_str c ≡ some v
