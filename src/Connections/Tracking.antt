-- ===== src/Connections/Tracking.antt =====
-- Which connections are active after `track_connections` of clash_api.rs.
use control_tower.Prelude.{
  ℕ, String, ◌≡◌, refl, ap, ◌∙◌, false, Option, none, some, List, [], ◌∷◌, or_else, if◌then◌else◌,
  arith, eq_iff, Bool-cases, retain, any, inl, inr, is_some,
}
use control_tower.Connections.{
  ConnectionMetadata, HistoryFile, MaxCount, Write, has_id, lists, insert, insert_all,
  track_connections,
}

-- The active connection with an id.
pub find : String → List ConnectionMetadata → Option ConnectionMetadata
find id [] = none
find id (a ∷ active) = let rest = find id active in if has_id id a then some a else rest

-- The last connection with an id that a report lists.
pub last_listed : String → List ConnectionMetadata → Option ConnectionMetadata
last_listed id [] = none
last_listed id (c ∷ conns) =
    let rest = last_listed id conns in or_else rest (if has_id id c then some c else none)

find-insert :
    (id : String) (c : ConnectionMetadata) (active : List ConnectionMetadata)
    → find id (insert c active) ≡ (if has_id id c then some c else find id active)
unfolding find insert
find-insert id c [] = refl
find-insert id c (a ∷ active) =
    ground (arith, eq_iff a.id c.id, eq_iff c.id id, eq_iff a.id id, find-insert id c active)

find-insert_all :
    (id : String) (conns active : List ConnectionMetadata)
    → find id (insert_all conns active) ≡ or_else (last_listed id conns) (find id active)
unfolding insert_all last_listed
find-insert_all id [] active = refl
find-insert_all id (c ∷ conns) active =
    ground (arith, find-insert_all id conns (insert c active), find-insert id c active)

last_listed-lists :
    (id : String) (conns : List ConnectionMetadata)
    → is_some (last_listed id conns) ≡ any (has_id id) conns
unfolding last_listed
last_listed-lists id [] = refl
last_listed-lists id (c ∷ conns) = ground (arith, last_listed-lists id conns)

find-retain :
    (id : String) (conns active : List ConnectionMetadata)
    → any (has_id id) conns ≡ false
    → find id (retain (lists conns) active) ≡ none
unfolding find
find-retain id conns [] h = refl
find-retain id conns (a ∷ active) h = elim (Bool-cases (has_id id a)) [
  | inl k ↦
      let same : a.id ≡ id = ground (arith, eq_iff a.id id) in
      let unlisted : lists conns a ≡ false = ap (λ i. any (has_id i) conns) same ∙ h in
      rw unlisted (find-retain id conns active h)
  | inr k ↦ ground (arith, find-retain id conns active h)
]

-- After a report the active connections are those that it lists, each as it was listed last.
find-track_connections :
    (configured : MaxCount) (writes : ℕ → Write) (clock : ℕ → String) (id : String)
    (conns active : List ConnectionMetadata) (file : HistoryFile)
    → find id (track_connections configured writes clock conns (active, file)).0
      ≡ last_listed id conns
unfolding track_connections
find-track_connections configured writes clock id conns active file = ground (
  arith,
  find-insert_all id conns (retain (lists conns) active),
  last_listed-lists id conns,
  find-retain id conns active,
)
