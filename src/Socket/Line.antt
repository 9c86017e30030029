-- ===== src/Socket/Line.antt =====
-- The loop that reads a message: when it ends, and what it has read.
use control_tower.Prelude.{
  ℕ, zero, suc, ◌+◌, ◌≡◌, refl, sym, ap, ◌∙◌, ◌⊎◌, inl, inr, ◌↔◌, true, false, List, [], ◌∷◌, ◌++◌,
  append_assoc, is_empty, arith, Bool-cases,
}
use control_tower.Socket.{
  Read, bytes, would_block, broken, Reads, later, Received, waiting, received, newline, has_newline,
  read_message, after_read, strip_newlines,
}

-- A read after which the loop goes on: no bytes yet, or bytes without a newline.
abbrev pub GoesOn : Read → Type 0
GoesOn (bytes b) = (is_empty b ≡ false) × (has_newline b ≡ false)
GoesOn would_block = Unit
GoesOn broken = ⊥

-- So do the first n reads.
abbrev pub AllGoOn : ℕ → Reads → Type 0
AllGoOn zero reads = Unit
AllGoOn (suc n) reads = GoesOn (reads 0) × AllGoOn n (later reads)

has_newline-append : (s t : List ℕ) → has_newline s ≡ false → has_newline (s ++ t) ≡ has_newline t
has_newline-append [] t h = refl
has_newline-append (c ∷ s) t h = ground (arith, has_newline-append s t)

after_read-waiting :
    (r : Read) (buffer : List ℕ) (more : List ℕ → Received) (P : Type 0)
    → has_newline buffer ≡ false
    → ((b : List ℕ) → has_newline b ≡ false → (more b ≡ waiting) ↔ P)
    → (after_read r buffer more ≡ waiting) ↔ (GoesOn r × P)
unfolding after_read
after_read-waiting (bytes b) buffer more P h f = elim (Bool-cases (is_empty b)) [
  | inl e ↦ rw e (λ (w : received buffer ≡ waiting). cc, λ g. cc)
  | inr e ↦ rw e (
      let new : has_newline (buffer ++ b) ≡ has_newline b = has_newline-append buffer b h in
      elim (Bool-cases (has_newline b)) [
        | inl k ↦ rw (new, k) (λ (w : received (buffer ++ b) ≡ waiting). cc, λ g. cc)
        | inr k ↦
            let i = f (buffer ++ b) (new ∙ k) in
            rw (new, k) (λ w. ((refl, refl), i.0 w), λ g. i.1 g.1)
      ])
]
after_read-waiting would_block buffer more P h f =
    (λ w. (tt, (f buffer h).0 w), λ g. (f buffer h).1 g.1)
after_read-waiting broken buffer more P h f = (λ w. cc, λ g. elim g.0 [ ])

-- The loop still waits after n rounds exactly if each of the first n reads gave nothing yet, or
-- bytes without a newline: it ends with the first read that gives a newline, the end of the stream
-- or an error, however the rest is cut up.
pub read_message-waiting :
    (n : ℕ) (reads : Reads) (buffer : List ℕ)
    → has_newline buffer ≡ false
    → (read_message n reads buffer ≡ waiting) ↔ AllGoOn n reads
unfolding read_message
read_message-waiting zero reads buffer h = (λ w. tt, λ g. refl)
read_message-waiting (suc n) reads buffer h =
    after_read-waiting (reads 0) buffer (read_message n (later reads)) (AllGoOn n (later reads)) h
      (read_message-waiting n (later reads))

-- The reads give these bytes, in k reads and in whatever pieces.
pub data Delivers : Reads → List ℕ → ℕ → Type 0 where
  all : {r : Reads} → Delivers r [] 0
  pause :
      {r : Reads} {s : List ℕ} (k : ℕ)
      → r 0 ≡ would_block
      → Delivers (later r) s k
      → Delivers r s (suc k)
  piece :
      {r : Reads} {t : List ℕ} (k : ℕ) (b s : List ℕ)
      → r 0 ≡ bytes b
      → is_empty b ≡ false
      → t ≡ b ++ s
      → Delivers (later r) s k
      → Delivers r t (suc k)

has_newline-line : (m : List ℕ) → has_newline (m ++ newline ∷ []) ≡ true
has_newline-line [] = refl
has_newline-line (c ∷ m) = ground (arith, has_newline-line m)

no_newline-front : (b m : List ℕ) → has_newline (b ++ m) ≡ false → has_newline b ≡ false
no_newline-front [] m h = refl
no_newline-front (c ∷ b) m h = ground (arith, no_newline-front b m)

line-ne-nil : (m : List ℕ) → ◌≡◌ {A = List ℕ} [] (m ++ newline ∷ []) → ⊥
line-ne-nil [] e = cc
line-ne-nil (c ∷ m) e = cc

tail_eq : (c d : ℕ) (s t : List ℕ) → c ∷ s ≡ d ∷ t → (c ≡ d) × (s ≡ t)
tail_eq c d s t e = (cc, cc)

-- A part at the front of a line is the whole line, or has no newline.
abbrev Part : List ℕ → List ℕ → List ℕ → Type 0
Part b s m =
    ((s ≡ []) × (b ≡ m ++ newline ∷ []))
    ⊎ (m' : List ℕ) × (m ≡ b ++ m') × (s ≡ m' ++ newline ∷ []) × (has_newline m' ≡ false)

split_line : (b s m : List ℕ) → has_newline m ≡ false → m ++ newline ∷ [] ≡ b ++ s → Part b s m
split_line [] s m h e = inr (m, refl, sym e, h)
split_line (c ∷ []) s [] h e =
    let f = tail_eq newline c [] s e in inl (sym f.1, ap (λ x. x ∷ []) (sym f.0))
split_line (c ∷ d ∷ b) s [] h e = absurd (let f = tail_eq newline c [] (d ∷ (b ++ s)) e in cc)
split_line (c ∷ b) s (d ∷ m) h e =
    let f = tail_eq d c (m ++ newline ∷ []) (b ++ s) e in
    elim (split_line b s m (ground arith) f.1) [
      | inl (n, g) ↦ inl (n, cc)
      | inr (m', g, k, l) ↦ inr (m', cc, k, l)
    ]

after_last :
    (b buffer : List ℕ) (more : List ℕ → Received)
    → is_empty b ≡ false
    → has_newline (buffer ++ b) ≡ true
    → after_read (bytes b) buffer more ≡ received (buffer ++ b)
unfolding after_read
after_last b buffer more h k = rw (h, k) refl

after_piece :
    (b buffer : List ℕ) (more : List ℕ → Received)
    → is_empty b ≡ false
    → has_newline (buffer ++ b) ≡ false
    → after_read (bytes b) buffer more ≡ more (buffer ++ b)
unfolding after_read
after_piece b buffer more h k = rw (h, k) refl

suc_add : (k n : ℕ) → suc k + n ≡ suc (k + n)
suc_add k n = omega arith

-- Of a message without a newline and the newline behind it, delivered in k reads, the loop has just
-- these bytes after k rounds.
pub read_message-line :
    (k n : ℕ) (reads : Reads) (buffer m s : List ℕ)
    → has_newline buffer ≡ false
    → has_newline m ≡ false
    → s ≡ m ++ newline ∷ []
    → Delivers reads s k
    → read_message (k + n) reads buffer ≡ received (buffer ++ s)
unfolding read_message
read_message-line k n reads buffer m s h g e all = absurd (line-ne-nil m e)
read_message-line k n reads buffer m s h g e (pause j r d) =
    rw (suc_add j n, r)
      (unfold after_read in read_message-line j n (later reads) buffer m s h g e d)
read_message-line k n reads buffer m s h g e (piece j b s' r i t d) =
    rw (suc_add j n, r)
      (elim (split_line b s' m g (sym e ∙ t)) [
        | inl (none_left, whole) ↦
            after_last b buffer (read_message (j + n) (later reads)) i
              (has_newline-append buffer b h ∙ (ap has_newline whole ∙ has_newline-line m))
            ∙ ap (λ x. received (buffer ++ x)) (whole ∙ sym e)
        | inr (m', front, rest, clear) ↦
            let no_b : has_newline b ≡ false =
              no_newline-front b m' (ap has_newline (sym front) ∙ g) in
            let no_buffer = has_newline-append buffer b h ∙ no_b in
            after_piece b buffer (read_message (j + n) (later reads)) i no_buffer
            ∙ (read_message-line j n (later reads) (buffer ++ b) m' s' no_buffer clear rest d
                ∙ ap received (append_assoc buffer b s' ∙ ap (λ x. buffer ++ x) (sym t)))
      ])

pub strip_newlines-line :
    (m : List ℕ) → has_newline m ≡ false → strip_newlines (m ++ newline ∷ []) ≡ m
unfolding strip_newlines
strip_newlines-line [] h = refl
strip_newlines-line (c ∷ []) h = ground arith
strip_newlines-line (c ∷ d ∷ m) h = ground (arith, strip_newlines-line (d ∷ m))
