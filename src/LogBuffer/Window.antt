-- ===== src/LogBuffer/Window.antt =====
-- The log buffer of logging.rs is a window on the whole history of appended lines.
use control_tower.Prelude.{
  ℕ, suc, ◌-◌, ◌≤◌, ◌<◌, ◌≡◌, sym, ap, ◌∙◌, Option, some, List, [], ◌∷◌, ◌++◌, arith, min, leb,
  length, take, drop, reverse, reverse-append, reverse-reverse, length-append, length-drop,
  length-reverse, drop-append_le, drop-drop, take_all, take-append-drop, append-nil, append_assoc,
  unwrap_or, Bool-cases, inl, inr, leb→le,
}
use control_tower.LogBuffer.{append_log, get_logs, append_all, log_lines}

module _ {ℓ} {A : Type ℓ} where
  -- The last `n` elements.
  abbrev pub last : ℕ → List A → List A
  last n xs = drop (length xs - n) xs

  reverse-take-reverse :
      (n : ℕ) (xs : List A) → n ≤ length xs → reverse (take n (reverse xs)) ≡ last n xs
  reverse-take-reverse n xs h =
      ap (λ l. reverse (take n (reverse l))) (sym (take-append-drop (length xs - n) xs))
      ∙ ap (λ l. reverse (take n l)) (reverse-append front back)
      ∙ ap (λ m. reverse (take m (reverse back ++ reverse front))) enough
      ∙ ap reverse (take_all (reverse back) (reverse front))
      ∙ reverse-reverse back
    where
      front : List A
      front = take (length xs - n) xs

      back : List A
      back = drop (length xs - n) xs

      enough : n ≡ length (reverse back)
      enough = omega (arith, length-reverse back, length-drop (length xs - n) xs)

  last-append :
      (n : ℕ) (xs : List A) (x : A)
      → n ≤ length xs
      → last n xs ++ x ∷ [] ≡ last (suc n) (xs ++ x ∷ [])
  last-append n xs x h =
      sym (drop-append_le (length xs - n) xs (x ∷ []) (omega arith))
      ∙ ap (λ k. drop k (xs ++ x ∷ [])) same
    where
      same : length xs - n ≡ length (xs ++ x ∷ []) - suc n
      same = omega (arith, length-append xs (x ∷ []))

  drop-last : (xs : List A) → log_lines ≤ length xs → drop 1 (last log_lines xs) ≡ last 99 xs
  drop-last xs h = drop-drop 1 (length xs - log_lines) xs ∙ ap (λ k. drop k xs) (omega arith)

  last_short : (n : ℕ) (xs : List A) → length xs ≤ n → last n xs ≡ xs
  last_short n xs h = ap (λ k. drop k xs) gone
    where
      gone : length xs - n ≡ 0
      gone = omega arith

  length-last : (n : ℕ) (xs : List A) → length (last n xs) ≡ min n (length xs)
  length-last n xs = omega (arith, length-drop (length xs - n) xs)

  append_log-last :
      (xs : List A) (x : A) → append_log (last log_lines xs) x ≡ last log_lines (xs ++ x ∷ [])
  unfolding append_log
  append_log-last xs x = elim (Bool-cases (leb log_lines (length xs))) [
    | inl full ↦
        let h : log_lines ≤ length xs = leb→le _ _ full in
        let e : length (last log_lines xs) ≡ log_lines = omega (arith, length-last log_lines xs) in
        rw e (rw (drop-last xs h) (last-append 99 xs x (omega arith)))
    | inr room ↦
        let h : length xs < log_lines = ground arith in
        rw (last_short log_lines xs (omega arith), room)
          (sym (last_short log_lines (xs ++ x ∷ []) (omega (arith, length-append xs (x ∷ [])))))
  ]

  append_all-last :
      (seen ls : List A) → append_all (last log_lines seen) ls ≡ last log_lines (seen ++ ls)
  unfolding append_all
  append_all-last seen [] = ap (last log_lines) (sym (append-nil seen))
  append_all-last seen (l ∷ ls) =
      ap (λ b. append_all b ls) (append_log-last seen l)
      ∙ append_all-last (seen ++ l ∷ []) ls
      ∙ ap (last log_lines) (append_assoc seen (l ∷ []) ls)

  get_logs-last :
      (buffer : List A) (lines : Option ℕ)
      → get_logs buffer lines ≡ last (min (unwrap_or lines (length buffer)) (length buffer)) buffer
  unfolding get_logs
  get_logs-last buffer lines = reverse-take-reverse _ buffer (omega arith)

  -- Whatever lines were appended to an empty buffer, `get_logs` with a number returns exactly the
  -- last lines of that whole history, in the order in which they were appended: as many as were
  -- asked for, and at most one hundred.
  pub get_logs-append_all :
      (ls : List A) (n : ℕ) → get_logs (append_all [] ls) (some n) ≡ last (min n log_lines) ls
  get_logs-append_all ls n = rw (append_all-last [] ls) (
      get_logs-last (last log_lines ls) (some n)
      ∙ drop-drop _ (length ls - log_lines) ls
      ∙ ap (λ k. drop k ls) (omega (arith, length-last log_lines ls)))
