-- ===== src/Connections/Recording.antt =====
-- What a run of `record_closed_connection` leaves in the history.
use control_tower.Prelude.{
  ℕ, zero, suc, inl, inr, Bool-cases, length-take, ◌≤◌, String, ◌≡◌, refl, sym, ap, ◌∙◌, List, [],
  ◌∷◌, ◌++◌, unwrap_or, length, take, arith, reverse, append_assoc, reverse-append, ltb,
}
use control_tower.Connections.{
  ConnectionMetadata, ClosedConnection, HistoryFile, holding, get_connection_history, MaxCount,
  complete, record_closed_connection, closed_record, record_all, trim,
}

take_long : (n : ℕ) (cs : List ClosedConnection) → length cs ≤ n → take n cs ≡ cs
take_long zero [] h = refl
take_long zero (c ∷ cs) h = ground arith
take_long (suc n) [] h = refl
take_long (suc n) (c ∷ cs) h = ap (◌∷◌ c) (take_long n cs (omega arith))

trim-take : (n : ℕ) (cs : List ClosedConnection) → trim n cs ≡ take n cs
unfolding trim
trim-take n cs = elim (Bool-cases (ltb n (length cs))) [
  | inl h ↦ rw h refl
  | inr h ↦ rw h (sym (take_long n cs (ground arith)))
]

take-append-take :
    (n m : ℕ) (xs ys : List ClosedConnection) → n ≤ m → take n (xs ++ take m ys) ≡ take n (xs ++ ys)
take-append-take zero m xs ys h = refl
take-append-take (suc n) m (x ∷ xs) ys h = ap (◌∷◌ x) (take-append-take n m xs ys (omega arith))
take-append-take (suc n) zero [] ys h = ground arith
take-append-take (suc n) (suc m) [] [] h = refl
take-append-take (suc n) (suc m) [] (y ∷ ys) h =
    ap (◌∷◌ y) (take-append-take n m [] ys (omega arith))

-- The records of closed connections, the first at the i-th answer of the clock.
pub records : (ℕ → String) → ℕ → List ConnectionMetadata → List ClosedConnection
records clock i [] = []
records clock i (meta ∷ closed) = closed_record (clock i) meta ∷ records clock (suc i) closed

history_of : (cs : List ClosedConnection) → get_connection_history (holding cs) ≡ cs
unfolding get_connection_history
history_of cs = refl

trimmed :
    (n : ℕ) (cs : List ClosedConnection) → length (get_connection_history (holding (trim n cs))) ≤ n
trimmed n cs =
    let e : length (get_connection_history (holding (trim n cs))) ≡ length (take n cs) =
      ap length (history_of (trim n cs) ∙ trim-take n cs) in
    omega (arith, length-take n cs)

-- When every write completes, the history holds the newest records first, those of this run before
-- the ones that were there, and of these as many as the limit allows; it was within the limit.
pub get_connection_history-record_all :
    (configured : MaxCount) (clock : ℕ → String) (i : ℕ) (closed : List ConnectionMetadata)
    (file : HistoryFile)
    → length (get_connection_history file) ≤ unwrap_or configured 500
    → get_connection_history (record_all configured (λ j. complete) clock i closed file)
      ≡ take
          (unwrap_or configured 500)
          (reverse (records clock i closed) ++ get_connection_history file)
unfolding records record_all record_closed_connection
get_connection_history-record_all configured clock i [] file h =
    sym (take_long (unwrap_or configured 500) (get_connection_history file) h)
get_connection_history-record_all configured clock i (meta ∷ closed) file h =
    let n : ℕ = unwrap_or configured 500 in
    let c : ClosedConnection = closed_record (clock i) meta in
    let old : List ClosedConnection = get_connection_history file in
    let new : List ClosedConnection = reverse (records clock (suc i) closed) in
    get_connection_history-record_all configured clock (suc i) closed (holding (trim n (c ∷ old)))
      (trimmed n (c ∷ old))
    ∙ (ap (λ cs. take n (new ++ cs)) (history_of (trim n (c ∷ old)) ∙ trim-take n (c ∷ old))
        ∙ (take-append-take n n new (c ∷ old) (omega arith)
            ∙ ap (take n) (
                sym (
                  ap (λ cs. cs ++ old) (reverse-append (c ∷ []) (records clock (suc i) closed))
                  ∙ append_assoc new (c ∷ []) old))))
