-- ===== src/Scheduler/Parse.antt =====
-- Which texts `Schedule::parse` of scheduler.rs accepts.
use control_tower.Prelude.{
  ℕ, ◌^◌, ◌≡◌, refl, ◌&&◌, Option, none, some, List, [], ◌∷◌, ◌++◌, leb, arith, if◌then◌else◌,
  and_then, is_empty,
}
use control_tower.Text.{trim, parse_u32}
use control_tower.Text.Numeral.{numeral, numeral-nil, below, parse_u32-numeral}
use control_tower.Text.Trim.{IsBlank, trim-append}
use control_tower.Scheduler.{Schedule, parse, in_range, max_cron_interval_mins}

-- A number of minutes from 1 to seven days.
abbrev pub accept : Option ℕ → Option Schedule
accept none = none
accept (some n) =
    if leb 1 n && leb n max_cron_interval_mins then some (record { minutes = n }) else none

in_range-accept : (o : Option ℕ) → and_then (below (2 ^ 32) o) in_range ≡ accept o
unfolding in_range
in_range-accept none = refl
in_range-accept (some n) = ground arith

trimmed-accept :
    (t : List ℕ)
    → (if is_empty t then none else and_then (parse_u32 t) in_range) ≡ accept (numeral t)
trimmed-accept [] = rw numeral-nil
trimmed-accept (c ∷ t) = rw (parse_u32-numeral (c ∷ t)) (in_range-accept (numeral (c ∷ t)))

-- A text is a schedule exactly if what stands between its white space is a decimal numeral, with
-- or without a sign `+`, of a value from 1 to 10080, and the schedule has that many minutes; white
-- space around the text changes nothing.
pub parse-numeral :
    (before s after : List ℕ)
    → IsBlank before
    → IsBlank after
    → parse (before ++ s ++ after) ≡ accept (numeral (trim s))
unfolding parse
parse-numeral before s after h k = rw (trim-append before s after h k) (trimmed-accept (trim s))
