-- ===== src/LogBuffer.antt =====
-- The ring buffer of log lines: `append_log` and `get_logs` of
-- crates/control-tower-service/src/service/logging.rs, whose text state.rs of
-- control-tower-service-core repeats. The front of the deque is the head of the list.
pub mod Window
use control_tower.Prelude.{
  ℕ, Option, none, some, List, [], ◌∷◌, ◌++◌, min, leb, length, take, drop, reverse, unwrap_or,
  if◌then◌else◌,
}

abbrev pub log_lines : ℕ
log_lines = 100

module _ {ℓ} {A : Type ℓ} where
  unfoldable pub append_log : List A → A → List A
  append_log buffer line =
      let room : List A = if leb log_lines (length buffer) then drop 1 buffer else buffer in
      room ++ line ∷ []

  unfoldable pub get_logs : List A → Option ℕ → List A
  get_logs buffer lines =
      let n : ℕ = min (unwrap_or lines (length buffer)) (length buffer) in
      reverse (take n (reverse buffer))

  -- Lines appended one after another.
  unfoldable pub append_all : List A → List A → List A
  append_all buffer [] = buffer
  append_all buffer (l ∷ ls) = append_all (append_log buffer l) ls
