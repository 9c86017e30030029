-- ===== src/Session.antt =====
-- crates/control-tower-service/src/session.rs: the sessions of the HTTP API, and `Session`
-- of main.rs. A call takes the clock's answer in seconds, and a new token is what the random
-- generator returned.
pub mod History
use control_tower.Prelude.{
  ℕ, ◌+◌, ◌-◌, ◌^◌, ◌%◌, String, Bool, true, false, Option, none, some, str_eq, ltb, map_or,
  if◌then◌else◌,
}

pub record Session : Type 0 where
  pub token : String
  pub created_at : ℕ

-- The map behind the lock.
abbrev pub Sessions : Type 0
Sessions = String → Option Session

abbrev pub insert : String → Session → Sessions → Sessions
insert k s m j = if str_eq k j then some s else m j

abbrev pub remove : String → Sessions → Sessions
remove k m j = if str_eq k j then none else m j

unfoldable pub create_session : String → ℕ → Sessions → String × Sessions
create_session token now m = (token, insert token (record { token = token; created_at = now }) m)

-- A subtraction of `u64`, which wraps around.
unfoldable pub wrapping_sub : ℕ → ℕ → ℕ
wrapping_sub a b = ((a + 2 ^ 64) - b) % 2 ^ 64

verify_found : String → ℕ → Sessions → Session → Bool × Sessions
unfolding wrapping_sub
verify_found token now m session =
    if ltb (wrapping_sub now session.created_at) 86400 then (true, m) else (false, remove token m)

unfoldable pub verify_session : String → ℕ → Sessions → Bool × Sessions
unfolding verify_found
verify_session token now m = map_or (m token) (false, m) (verify_found token now m)

unfoldable pub remove_session : String → Sessions → Sessions
remove_session token m = remove token m
