-- ===== src/Prelude/Members.antt =====
-- Members of a list, under a permutation and under `map`.
use mathlib.Core.Path.{◌≡◌, refl, ◌∙◌, subst}
use mathlib.Core.List.{List, [], ◌∷◌, map, Permᴰ, Memᴰ}
use control_tower.Prelude.Lists.{All}

pub Memᴰ-Permᴰ {ℓ} : {A : Type ℓ} {a : A} {xs ys : List A} → Permᴰ xs ys → Memᴰ a xs → Memᴰ a ys
Memᴰ-Permᴰ Permᴰ.nil m = elim m [ ]
Memᴰ-Permᴰ (Permᴰ.cons e d) (Memᴰ.head k) = Memᴰ.head (k ∙ e)
Memᴰ-Permᴰ (Permᴰ.cons e d) (Memᴰ.tail m) = Memᴰ.tail (Memᴰ-Permᴰ d m)
Memᴰ-Permᴰ (Permᴰ.swap e k) (Memᴰ.head h) = Memᴰ.tail (Memᴰ.head (h ∙ e))
Memᴰ-Permᴰ (Permᴰ.swap e k) (Memᴰ.tail (Memᴰ.head h)) = Memᴰ.head (h ∙ k)
Memᴰ-Permᴰ (Permᴰ.swap e k) (Memᴰ.tail (Memᴰ.tail m)) = Memᴰ.tail (Memᴰ.tail m)
Memᴰ-Permᴰ (Permᴰ.trans d k) m = Memᴰ-Permᴰ k (Memᴰ-Permᴰ d m)

pub All-Permᴰ {ℓ κ} :
    {A : Type ℓ} (P : A → Type κ) {xs ys : List A} → Permᴰ xs ys → All P xs → All P ys
All-Permᴰ P Permᴰ.nil a = tt
All-Permᴰ P (Permᴰ.cons e d) a = (subst P e a.0, All-Permᴰ P d a.1)
All-Permᴰ P (Permᴰ.swap e k) a = (subst P k a.1.0, (subst P e a.0, a.1.1))
All-Permᴰ P (Permᴰ.trans d k) a = All-Permᴰ P k (All-Permᴰ P d a)

pub Memᴰ-map {ℓ κ} :
    {A : Type ℓ} {B : Type κ} (f : A → B) (xs : List A) (b : B)
    → Memᴰ b (map f xs)
    → (a : A) × Memᴰ a xs × (b ≡ f a)
Memᴰ-map f [] b m = elim m [ ]
Memᴰ-map f (x ∷ xs) b (Memᴰ.head e) = (x, Memᴰ.head refl, e)
Memᴰ-map f (x ∷ xs) b (Memᴰ.tail m) = let h = Memᴰ-map f xs b m in (h.0, Memᴰ.tail h.1, h.2)

pub All-map {ℓ κ μ} :
    {A : Type ℓ} {B : Type κ} (P : B → Type μ) (f : A → B) (xs : List A)
    → All P (map f xs)
    → All (λ a. P (f a)) xs
All-map P f [] a = tt
All-map P f (x ∷ xs) a = (a.0, All-map P f xs a.1)
