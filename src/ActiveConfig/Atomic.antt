-- ===== src/ActiveConfig/Atomic.antt =====
-- `ActiveConfigStore::write_atomically` below the public methods: what a finished method leaves on
-- the disk.
use control_tower.Prelude.{
  ◌≡◌, refl, Bool, true, false, none, some, sym, ◌∙◌, arith, Option-cases, ap, ◌⊎◌, inl, inr,
}
use control_tower.Profiles.{RuleProviderConfig}
use control_tower.Yaml.{Yaml}
use control_tower.ActiveConfig.{
  Result, ok, err, Disk, Io, Written, complete, failed, write_atomically, write_temp, rename_temp,
}
use control_tower.ActiveConfig.Edit.{Edit, is_noop, target, perform, store, after_write}

module _ (y : Yaml) where
  open y use {Content, Value, from_str, to_string, read_back}

  write_temp_lem :
      (written : Written y) (renamed : Bool) (d : Disk y) (c : Content)
      → ((write_temp y written renamed d c).0 ≡ true
          → (write_temp y written renamed d c).1 ≡ record { active = some c; temp = none })
        × ((write_temp y written renamed d c).0 ≡ false
            → (write_temp y written renamed d c).1.active ≡ d.active)
  unfolding write_temp rename_temp
  write_temp_lem complete true d c = (λ h. refl, λ h. ground arith)
  write_temp_lem complete false d c = (λ h. ground arith, λ h. refl)
  write_temp_lem (failed left) renamed d c = (λ h. ground arith, λ h. refl)

  -- The disk after a call that stored v: the file parses to v and no temporary file is left.
  unfoldable pub Holds : Value → Disk y → Type 0
  Holds v d = (c : Content) × (d.active ≡ some c) × (from_str c ≡ some v) × (d.temp ≡ none)

  -- Whether the file system does what the write and the rename ask for.
  abbrev pub completes : Io y → Bool
  completes io = elim io.written [ complete ↦ io.renamed | failed left ↦ false ]

  -- How a call may end that set out to store the value of r: with this value in the file, or with
  -- an error and the file as it was. An error is that of r, or comes from the printer or the disk.
  unfoldable pub Ends :
      {A : Type 0} → Io y → Result (A × Value) → Disk y → Result A → Disk y → Type 0
  Ends io (err x) d (err e) d' = (d'.active ≡ d.active) × (x ≡ e)
  Ends io (ok (a, v)) d (err e) d' =
      (d'.active ≡ d.active) × ((to_string v ≡ none) ⊎ (completes io ≡ false))
  Ends io (ok (a, v)) d (ok b) d' = (b ≡ a) × Holds v d'
  Ends io (err e) d (ok b) d' = ⊥

  write_temp_completes :
      (written : Written y) (renamed : Bool) (d : Disk y) (c : Content)
      → (write_temp y written renamed d c).0
        ≡ elim written [ complete ↦ renamed | failed left ↦ false ]
  unfolding write_temp rename_temp
  write_temp_completes complete true d c = refl
  write_temp_completes complete false d c = refl
  write_temp_completes (failed left) renamed d c = refl

  after_write-Ends :
      {A : Type 0} (io : Io y) (a : A) (v : Value) (c : Content) (d : Disk y) (w : Bool × Disk y)
      → from_str c ≡ some v
      → w.0 ≡ completes io
      → (w.0 ≡ true → w.1 ≡ record { active = some c; temp = none })
      → (w.0 ≡ false → w.1.active ≡ d.active)
      → Ends io (ok (a, v)) d (after_write y a w).0 (after_write y a w).1
  unfolding after_write Ends Holds
  after_write-Ends io a v c d (true, d') h i t f =
      (refl, (c, ap (λ x. x.active) (t refl), h, ap (λ x. x.temp) (t refl)))
  after_write-Ends io a v c d (false, d') h i t f = (f refl, inr (sym i))

  pub store-Ends :
      {A : Type 0} (io : Io y) (d : Disk y) (r : Result (A × Value))
      → Ends io r d (store y io d r).0 (store y io d r).1
  unfolding store Ends write_atomically
  store-Ends io d (err e) = (refl, refl)
  store-Ends io d (ok (a, v)) = elim (Option-cases (to_string v)) [
    | inl h ↦ rw h (refl, inl h)
    | inr (c, h) ↦ rw h (
        after_write-Ends io a v c d (write_temp y io.written io.renamed d c) (read_back v c h)
          (write_temp_completes io.written io.renamed d c)
          (write_temp_lem io.written io.renamed d c).0 (write_temp_lem io.written io.renamed d c).1)
  ]

  pub ok-injective : {A : Type 0} (a b : A) → ok a ≡ ok b → a ≡ b
  ok-injective a b h = cc

  pub Ends-ok :
      {A : Type 0} (io : Io y) (r : Result (A × Value)) (d d' : Disk y) (b : A) (res : Result A)
      → Ends io r d res d'
      → res ≡ ok b
      → (v : Value) × (r ≡ ok (b, v)) × Holds v d'
  unfolding Ends
  Ends-ok io (ok (a, v)) d d' b (ok a') p k =
      (v, ap (λ x. ok (x, v)) (sym p.0 ∙ ok-injective a' b k), p.1)
  Ends-ok io (ok (a, v)) d d' b (err x) e k = ground arith
  Ends-ok io (err x) d d' b (err z) e k = ground arith
  Ends-ok io (err x) d d' b (ok z) e k = ground arith

  -- A method that has work to do leaves either its new configuration in the file and no temporary
  -- file, with Ok, or the file as it was, with the error of the read or of the change, or with one
  -- that the printer or the disk caused.
  pub perform-Ends :
      (to_value : RuleProviderConfig → Value) (e : Edit) (io : Io y) (d : Disk y)
      → is_noop y e ≡ false
      → Ends io
          (target y to_value e io d)
          d
          (perform y to_value e io d).0
          (perform y to_value e io d).1
  unfolding perform
  perform-Ends to_value e io d h = rw h (store-Ends io d (target y to_value e io d))
