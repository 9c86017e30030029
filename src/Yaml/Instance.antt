-- ===== src/Yaml/Instance.antt =====
-- A concrete `Yaml`, which shows that its laws can be met: values as a data type, mappings as
-- association lists, and contents as the values that they parse to.
use control_tower.Prelude.{
  ℕ, String, ◌≡◌, refl, Option, none, some, List, [], ◌∷◌, ◌++◌, str_eq, if◌then◌else◌, arith,
  eq_iff, ap,
}
use control_tower.Yaml.{Yaml}

mutual
  pub data Node : Type 0 where
    str : String → Node
    num : ℕ → Node
    seq : Nodes → Node
    map_of : Fields → Node

  pub data Nodes : Type 0 where
    nil : Nodes
    cons : Node → Nodes → Nodes

  pub data Fields : Type 0 where
    end : Fields
    field : String → Node → Fields → Fields

abbrev pub to_nodes : List Node → Nodes
to_nodes [] = nil
to_nodes (x ∷ xs) = cons x (to_nodes xs)

abbrev pub of_nodes : Nodes → List Node
of_nodes nil = []
of_nodes (cons x xs) = x ∷ of_nodes xs

pub of_nodes-to_nodes : (xs : List Node) → of_nodes (to_nodes xs) ≡ xs
of_nodes-to_nodes [] = refl
of_nodes-to_nodes (x ∷ xs) = ap (◌∷◌ x) (of_nodes-to_nodes xs)

abbrev pub node_str : Node → Option String
node_str (str s) = some s
node_str _ = none

abbrev pub node_seq : Node → Option (List Node)
node_seq (seq xs) = some (of_nodes xs)
node_seq _ = none

abbrev pub node_map : Node → Option Fields
node_map (map_of m) = some m
node_map _ = none

abbrev pub lookup : String → Fields → Option Node
lookup k end = none
lookup k (field j v m) = if str_eq j k then some v else lookup k m

abbrev pub put : String → Node → Fields → Fields
put k v end = field k v end
put k v (field j w m) = let rest = put k v m in if str_eq j k then field j v m else field j w rest

abbrev pub delete : String → Fields → Fields
delete k end = end
delete k (field j v m) = let rest = delete k m in if str_eq j k then rest else field j v rest

abbrev pub listed : Fields → List (String × Node)
listed end = []
listed (field k v m) = (k, v) ∷ listed m

pub lookup-put :
    (k j : String) (v : Node) (m : Fields)
    → lookup j (put k v m) ≡ (if str_eq k j then some v else lookup j m)
lookup-put k j v end = refl
lookup-put k j v (field i w m) =
    ground (arith, eq_iff k j, eq_iff i k, eq_iff i j, lookup-put k j v m)

pub lookup-delete :
    (k j : String) (m : Fields) → lookup j (delete k m) ≡ (if str_eq k j then none else lookup j m)
lookup-delete k j end = ground arith
lookup-delete k j (field i w m) =
    ground (arith, eq_iff k j, eq_iff i k, eq_iff i j, lookup-delete k j m)

pub listed-put :
    (k : String) (v : Node) (m : Fields)
    → lookup k m ≡ none
    → listed (put k v m) ≡ listed m ++ (k, v) ∷ []
listed-put k v end h = refl
listed-put k v (field i w m) h = ground (arith, listed-put k v m)

pub as_seq-put :
    (v : Node) (xs ys : List Node) → node_seq v ≡ some xs → node_seq (seq (to_nodes ys)) ≡ some ys
as_seq-put v xs ys h = ap some (of_nodes-to_nodes ys)

pub plain_back : (v : Node) (c : Option Node) → some (some v) ≡ some c → c ≡ some v
plain_back v c h = cc

abbrev pub plain : Yaml
plain = record {
  Content = Option Node;
  Value = Node;
  Mapping = Fields;
  text = λ s. some (map_of (field "mode" (str "rule") end));
  from_str = λ c. c;
  to_string = λ v. some (some v);
  string = str;
  number = num;
  sequence = λ xs. seq (to_nodes xs);
  mapping = map_of;
  as_str = node_str;
  debug = λ v. "value";
  as_sequence = node_seq;
  as_mapping = node_map;
  put_sequence = λ v xs. seq (to_nodes xs);
  put_mapping = λ v m. map_of m;
  new = end;
  get = lookup;
  insert = put;
  remove = delete;
  entries = listed;
  as_str-string = λ s. refl;
  as_sequence-sequence = λ xs. ap some (of_nodes-to_nodes xs);
  as_mapping-mapping = λ m. refl;
  as_sequence-put = as_seq-put;
  as_mapping-put = λ v m n h. refl;
  get-new = λ k. refl;
  get-insert = lookup-put;
  get-remove = lookup-delete;
  entries-new = refl;
  entries-insert = listed-put;
  read_back = plain_back;
}
