-- ===== src/Connections.antt =====
-- The connection history: `record_closed_connection`, `get_connection_history` and
-- `clear_connection_history_file` of crates/control-tower-service/src/service/settings_ops.rs,
-- `track_connections` of service/clash_api.rs, and the records that they keep. A file is what it
-- parses to. The active connections stand in the order in which the hash map lists them.
pub mod Recording
pub mod Tracking
use control_tower.Prelude.{
  ℕ, suc, ◌-◌, String, Bool, true, false, not, Option, none, some, List, [], ◌∷◌, ◌++◌, map, map_or,
  unwrap_or, if◌then◌else◌, ltb, length, take, retain, any, str_eq, and_then,
}
use mathlib.Core.Option

pub record ConnectionMetadata : Type 0 where
  pub id : String
  pub source_ip : String
  pub destination : String
  pub chains : List String
  pub upload : ℕ
  pub download : ℕ

pub record ClosedConnection : Type 0 where
  pub id : String
  pub source_ip : String
  pub destination : String
  pub chains : List String
  pub upload : ℕ
  pub download : ℕ
  pub closed_at : String

-- connection_history.yaml: missing, there with its connections, or there and not readable as such.
pub data HistoryFile : Type 0 where
  missing malformed : HistoryFile
  holding : List ClosedConnection → HistoryFile

unfoldable pub get_connection_history : HistoryFile → List ClosedConnection
get_connection_history missing = []
get_connection_history malformed = []
get_connection_history (holding cs) = cs

-- `connection_history` in what settings.yaml parses to, with none for a missing file, a file that
-- does not parse, or a missing entry.
abbrev pub MaxCount : Type 0
MaxCount = Option ℕ

-- How the write of the file ends: complete, or failed with something left of it.
pub data Write : Type 0 where
  complete : Write
  failed : HistoryFile → Write

abbrev pub write : Write → List ClosedConnection → Bool × HistoryFile
write complete cs = (true, holding cs)
write (failed left) cs = (false, left)

unfoldable pub trim : ℕ → List ClosedConnection → List ClosedConnection
trim max_count cs = if ltb max_count (length cs) then take max_count cs else cs

unfoldable pub record_closed_connection :
    MaxCount → Write → ClosedConnection → HistoryFile → Bool × HistoryFile
unfolding get_connection_history trim
record_closed_connection configured w closed file =
    let max_count = unwrap_or configured 500 in
    write w (trim max_count (closed ∷ get_connection_history file))

-- The file is removed, or cannot be and stays.
unfoldable pub clear_connection_history_file : Bool → HistoryFile → Bool × HistoryFile
clear_connection_history_file removable missing = (true, missing)
clear_connection_history_file true _ = (true, missing)
clear_connection_history_file false file = (false, file)

abbrev pub closed_record : String → ConnectionMetadata → ClosedConnection
closed_record now meta = record {
  id = meta.id;
  source_ip = meta.source_ip;
  destination = meta.destination;
  chains = meta.chains;
  upload = meta.upload;
  download = meta.download;
  closed_at = now;
}

-- Whether a connection has an id, and whether one with this id is in a list.
abbrev pub has_id : String → ConnectionMetadata → Bool
has_id id meta = str_eq meta.id id

abbrev pub lists : List ConnectionMetadata → ConnectionMetadata → Bool
lists conns meta = any (has_id meta.id) conns

-- `HashMap::insert`
unfoldable pub insert : ConnectionMetadata → List ConnectionMetadata → List ConnectionMetadata
insert meta [] = meta ∷ []
insert meta (a ∷ active) =
    let rest = insert meta active in if has_id meta.id a then meta ∷ active else a ∷ rest

unfoldable pub insert_all :
    List ConnectionMetadata → List ConnectionMetadata → List ConnectionMetadata
unfolding insert
insert_all [] active = active
insert_all (c ∷ conns) active = insert_all conns (insert c active)

-- The closed connections are recorded one after the other; an error is only logged.
unfoldable pub record_all :
    MaxCount → (ℕ → Write) → (ℕ → String) → ℕ → List ConnectionMetadata → HistoryFile → HistoryFile
unfolding record_closed_connection
record_all configured writes clock i [] file = file
record_all configured writes clock i (meta ∷ closed) file =
    record_all configured writes clock (suc i) closed
      (record_closed_connection configured (writes i) (closed_record (clock i) meta) file).1

-- `conns` are the connections of the report that have an id. The active connections that it does
-- not list are recorded and removed, then those that it lists are inserted.
unfoldable pub track_connections :
    MaxCount
    → (ℕ → Write)
    → (ℕ → String)
    → List ConnectionMetadata
    → List ConnectionMetadata × HistoryFile
    → List ConnectionMetadata × HistoryFile
unfolding insert_all record_all
track_connections configured writes clock conns (active, file) = (
  insert_all conns (retain (lists conns) active),
  record_all configured writes clock 0 (retain (λ meta. not (lists conns meta)) active) file,
)
