-- ===== src/Storage/Runs.antt =====
-- Results of the storage, and Go's `for` loops on fuel.
use pocketkafka.Prelude.{ℕ, zero, suc, ◌<◌, ◌≡◌, ◌≢◌, ◌⊎◌, inl, inr, refl, arith}

-- The errors of the storage, one for each message; `eof` is io.EOF, a read past the end of a file,
-- `nil_pointer` a panic, and `invalid_file` a write to a file that has been closed.
pub data StorageError : Type 0 where
  batch_too_short unsupported_magic segment_overflow eof nil_pointer : StorageError
  segment_remote no_fetcher fetch_failed invalid_file : StorageError

-- The result of code with loops: a value, an error, or no result yet when the fuel is used up.
pub data Run {ℓ} (A : Type ℓ) : Type ℓ where
  done : A → Run A
  failed : StorageError → Run A
  running : Run A

infixl 5 ◌>>=◌
abbrev pub ◌>>=◌ {ℓ κ} : {A : Type ℓ} {B : Type κ} → Run A → (A → Run B) → Run B
done a >>= f = f a
failed e >>= f = failed e
running >>= f = running

-- One round of a loop: another round follows, or the loop ends, or its function returns an error.
pub data Turn {ℓ} (S : Type ℓ) : Type ℓ where
  next : S → Turn S
  leave : S → Turn S
  abort : StorageError → Turn S

module _ {ℓ} {S : Type ℓ} where
  unfoldable pub repeat : ℕ → (S → Turn S) → S → Run S
  repeat zero body s = running
  repeat (suc fuel) body s = elim (body s) [
    | next s' ↦ repeat fuel body s'
    | leave s' ↦ done s'
    | abort e ↦ failed e
  ]

  pub Turn-cases :
      (t : Turn S)
      → ((s : S) × (t ≡ next s)) ⊎ ((s : S) × (t ≡ leave s)) ⊎ ((e : StorageError) × (t ≡ abort e))
  Turn-cases (next s) = inl (s, refl)
  Turn-cases (leave s) = inr (inl (s, refl))
  Turn-cases (abort e) = inr (inr (e, refl))

  module _ (fuel : ℕ) (body : S → Turn S) (s : S) where
    pub repeat-next : (s' : S) → body s ≡ next s' → repeat (suc fuel) body s ≡ repeat fuel body s'
    unfolding repeat
    repeat-next s' e = rw (e, repeat) refl

    pub repeat-leave : (s' : S) → body s ≡ leave s' → repeat (suc fuel) body s ≡ done s'
    unfolding repeat
    repeat-leave s' e = rw (e, repeat) refl

    pub repeat-abort : (e : StorageError) → body s ≡ abort e → repeat (suc fuel) body s ≡ failed e
    unfolding repeat
    repeat-abort x e = rw (e, repeat) refl

  -- A loop whose rounds lower a measure ends within as many rounds.
  pub repeat-ends :
      (measure : S → ℕ) (body : S → Turn S)
      → ((s s' : S) → body s ≡ next s' → measure s' < measure s)
      → (fuel : ℕ) (s : S) → measure s < fuel
      → repeat fuel body s ≢ running
  repeat-ends measure body lower zero s m = absurd (omega arith)
  repeat-ends measure body lower (suc fuel) s m = elim (Turn-cases (body s)) [
    | inl (s', e) ↦
        rw (repeat-next fuel body s s' e)
          (repeat-ends measure body lower fuel s' (omega (arith, lower s s' e)))
    | inr (inl (s', e)) ↦ rw (repeat-leave fuel body s s' e) (λ p. cc)
    | inr (inr (x, e)) ↦ rw (repeat-abort fuel body s x e) (λ p. cc)
  ]

  -- What every round keeps holds where the loop ends.
  pub repeat-keeps {κ} :
      (P : S → Type κ) (body : S → Turn S)
      → ((s s' : S) → P s → (body s ≡ next s') ⊎ (body s ≡ leave s') → P s')
      → (fuel : ℕ) (s s' : S) → P s
      → repeat fuel body s ≡ done s'
      → P s'
  unfolding repeat
  repeat-keeps P body keep zero s t h e = let e' : running ≡ done t = e in absurd (cc e')
  repeat-keeps P body keep (suc fuel) s t h e = elim (Turn-cases (body s)) [
    | inl (s', b) ↦
        repeat-keeps P body keep fuel s' t (keep s s' h (inl b))
          (rw (repeat-next fuel body s s' b) at e)
    | inr (inl (s', b)) ↦
        let q : done s' ≡ done t = rw (repeat-leave fuel body s s' b) at e in
        let r : s' ≡ t = cc in rw (← r) (keep s s' h (inr b))
    | inr (inr (x, b)) ↦
        let q : failed x ≡ done t = rw (repeat-abort fuel body s x b) at e in absurd (cc q)
  ]

-- A run that is neither an error nor running has a result.
pub Run-bind {ℓ κ} :
    {A : Type ℓ} {B : Type κ} (x : Run A) (f : A → Run B)
    → x ≢ running
    → ((a : A) → f a ≢ running)
    → (x >>= f) ≢ running
Run-bind (done a) f h k = k a
Run-bind (failed e) f h k = λ p. cc
Run-bind running f h k = absurd (h refl)
