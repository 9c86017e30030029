-- ===== src/Session/History.antt =====
-- When `verify_session` of session.rs accepts a token, from the history of the calls.
use control_tower.Prelude.{
  ℕ, ◌+◌, ◌-◌, ◌^◌, ◌≤◌, ◌<◌, String, ◌≡◌, refl, ap, Bool, true, false, Option, none, some, List,
  [], ◌∷◌, inl, inr, eq_refl, str_eq, ltb, map_or, if◌then◌else◌, arith, eq_iff, Bool-cases, subst,
}
use control_tower.Session.{
  Session, Sessions, create_session, verify_session, verify_found, remove_session, wrapping_sub,
}

-- A call with its token and the second at which it is made.
pub data Event : Type 0 where
  created verified removed : String → ℕ → Event

unfoldable pub time : Event → ℕ
time (created token t) = t
time (verified token t) = t
time (removed token t) = t

-- The sessions after one call.
abbrev pub after : Event → Sessions → Sessions
after (created token t) m = (create_session token t m).1
after (verified token t) m = (verify_session token t m).1
after (removed token t) m = remove_session token m

-- The sessions after a history, which stands with its latest call first.
pub run : List Event → Sessions
run [] = λ token. none
run (e ∷ es) = after e (run es)

-- The calls stand in the order of the clock, which has not passed `now`.
unfoldable pub IsOrdered : ℕ → List Event → Type 0
IsOrdered now [] = Unit {0}
IsOrdered now (e ∷ es) = (time e ≤ now) × IsOrdered (time e) es

-- When the token was created, if it has not been removed since.
pub login_time : String → List Event → Option ℕ
login_time token [] = none
login_time token (created t now ∷ es) = if str_eq t token then some now else login_time token es
login_time token (verified t now ∷ es) = login_time token es
login_time token (removed t now ∷ es) = if str_eq t token then none else login_time token es

-- A login lasts for less than a day.
abbrev pub is_alive : ℕ → Option ℕ → Bool
is_alive now o = map_or o false (λ since. ltb (now - since) 86400)

-- The session of a token is that of its login, or is gone because the login has expired.
Agrees : ℕ → Option Session → Option ℕ → Type 0
Agrees now none none = Unit {0}
Agrees now (some s) none = ⊥
Agrees now none (some since) = since + 86400 ≤ now
Agrees now (some s) (some since) = (s.created_at ≡ since) × (since ≤ now)

Agrees-later :
    (t now : ℕ) (s : Option Session) (o : Option ℕ) → t ≤ now → Agrees t s o → Agrees now s o
unfolding Agrees
Agrees-later t now none none h a = tt
Agrees-later t now (some s) none h a = a
Agrees-later t now none (some since) h a = ground arith
Agrees-later t now (some s) (some since) h a = (a.0, ground arith)

wrapping_sub_lem : (a b : ℕ) → b ≤ a → a < 2 ^ 64 → wrapping_sub a b ≡ a - b
unfolding wrapping_sub
wrapping_sub_lem a b h k = omega arith

-- A new session is accepted for a day.
pub verify_session-create_session :
    (token : String) (t now : ℕ) (m : Sessions)
    → t ≤ now
    → now < t + 86400
    → now < 2 ^ 64
    → (verify_session token now (create_session token t m).1).0 ≡ true
unfolding verify_session create_session verify_found
verify_session-create_session token t now m h before small =
    let s : Session = record { token = token; created_at = t } in
    let e : ltb (wrapping_sub now t) 86400 ≡ true =
      ground (arith, wrapping_sub_lem now t h small) in
    rw (eq_refl token) (rw e refl)

-- `verify_session` once the session of its token is looked up.
abbrev verify_option : String → ℕ → Sessions → Option Session → Bool × Sessions
verify_option token now m s = map_or s (false, m) (verify_found token now m)

verify_option-is_alive :
    (token : String) (now : ℕ) (m : Sessions) (s : Option Session) (o : Option ℕ)
    → now < 2 ^ 64
    → Agrees now s o
    → (verify_option token now m s).0 ≡ is_alive now o
unfolding Agrees verify_found
verify_option-is_alive token now m none none v a = refl
verify_option-is_alive token now m (some s) none v a = ground arith
verify_option-is_alive token now m none (some since) v a = ground arith
verify_option-is_alive token now m (some s) (some since) v a =
    ground (arith, wrapping_sub_lem now s.created_at, a.0, a.1)

expired_lem :
    (now : ℕ) (s : Session) (since : ℕ)
    → now < 2 ^ 64
    → Agrees now (some s) (some since)
    → ltb (wrapping_sub now s.created_at) 86400 ≡ false
    → Agrees now none (some since)
unfolding Agrees
expired_lem now s since v a h = ground (arith, wrapping_sub_lem now s.created_at, a.0, a.1)

verify_option-Agrees :
    (token j : String) (now : ℕ) (m : Sessions) (s : Option Session) (o p : Option ℕ)
    → now < 2 ^ 64
    → Agrees now s o
    → (str_eq token j ≡ true → o ≡ p)
    → Agrees now (m j) p
    → Agrees now ((verify_option token now m s).1 j) p
unfolding verify_found Agrees
verify_option-Agrees token j now m none o p v a q b = b
verify_option-Agrees token j now m (some s) none p v a q b = elim a [ ]
verify_option-Agrees token j now m (some s) (some since) p v a q b =
    elim (Bool-cases (ltb (wrapping_sub now s.created_at) 86400)) [
      | inl h ↦ rw h b
      | inr h ↦ elim (Bool-cases (str_eq token j)) [
        | inl k ↦ rw (h, k) (subst (Agrees now none) (q k) (expired_lem now s since v a h))
        | inr k ↦ rw (h, k) b
      ]
    ]

Agrees-run :
    (token : String) (now : ℕ) (es : List Event)
    → now < 2 ^ 64
    → IsOrdered now es
    → Agrees now (run es token) (login_time token es)
unfolding Agrees run IsOrdered login_time time create_session verify_session remove_session
Agrees-run token now [] v o = tt
Agrees-run token now (created t at ∷ es) v o = elim (Bool-cases (str_eq t token)) [
  | inl k ↦ rw k (refl, o.0)
  | inr k ↦ rw k (
      Agrees-later at now (run es token) (login_time token es) o.0
        (Agrees-run token at es (ground arith) o.1))
]
Agrees-run token now (removed t at ∷ es) v o = elim (Bool-cases (str_eq t token)) [
  | inl k ↦ rw k tt
  | inr k ↦ rw k (
      Agrees-later at now (run es token) (login_time token es) o.0
        (Agrees-run token at es (ground arith) o.1))
]
Agrees-run token now (verified t at ∷ es) v o =
    Agrees-later at now ((verify_session t at (run es)).1 token) (login_time token es) o.0 (
      verify_option-Agrees t token at (run es) (run es t) (login_time t es) (login_time token es)
        (ground arith) (Agrees-run t at es (ground arith) o.1)
        (λ k. ap (λ s. login_time s es) (ground (arith, eq_iff t token)))
        (Agrees-run token at es (ground arith) o.1))

-- After any history of calls in the order of the clock, a token is accepted when it was created
-- less than a day ago and has not been removed since, and only then.
pub verify_session-run :
    (token : String) (now : ℕ) (es : List Event)
    → now < 2 ^ 64
    → IsOrdered now es
    → (verify_session token now (run es)).0 ≡ is_alive now (login_time token es)
unfolding verify_session
verify_session-run token now es v o =
    verify_option-is_alive token now (run es) (run es token) (login_time token es) v
      (Agrees-run token now es v o)
