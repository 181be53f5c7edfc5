-- ===== src/Storage/Segment/Scan.antt =====
-- The loops of internal/storage/segment.go over a log: what holds behind each batch that is passed
-- holds behind all of them.
use pocketkafka.Prelude.{
  ℕ, suc, ◌+◌, ◌≡◌, refl, sym, ap, ◌∙◌, arith, Bytes, length, List, [], ◌∷◌, ◌++◌, All,
  append_assoc, append-nil,
}
use pocketkafka.Storage.Runs.{Turn, next, repeat, repeat-next}
use pocketkafka.Storage.Segment.Log.{IsBatch, Chain, bytes_of, end_of, bytes_of-snoc, end_of-snoc}

module _ {S : Type 0} {T : Type 0} (base : ℕ) (log : Bytes) (body : T → Turn T) (state : ℕ → S → T)
    (R : List Bytes → S → Type 0) (Passed : Bytes → Type 0) where
  -- One round goes past a batch, and keeps what holds of the state.
  abbrev pub Passes : Type 0
  Passes =
      (xs : List Bytes) (raw after : Bytes) (s : S)
      → log ≡ bytes_of xs ++ (raw ++ after)
      → IsBatch (end_of base xs) raw
      → Passed raw
      → R xs s
      → (s' : S) × (body (state (length (bytes_of xs)) s)
          ≡ next (state (length (bytes_of xs ++ raw)) s'))
        × R (xs ++ raw ∷ []) s'

  pub through :
      Passes
      → (fuel : ℕ) (xs bs : List Bytes) (tail : Bytes) (s : S)
      → log ≡ bytes_of xs ++ (bytes_of bs ++ tail)
      → Chain (end_of base xs) bs
      → All Passed bs
      → R xs s
      → (s' : S) × (repeat (length bs + fuel) body (state (length (bytes_of xs)) s)
          ≡ repeat fuel body (state (length (bytes_of (xs ++ bs))) s'))
        × R (xs ++ bs) s'
  unfolding bytes_of
  through pass fuel xs [] tail s e h p r =
      let q : 0 + fuel ≡ fuel = omega arith in (s, rw (q, append-nil xs) refl, rw (append-nil xs) r)
  through pass fuel xs (raw ∷ bs) tail s e h p r =
      let e' : log ≡ bytes_of xs ++ (raw ++ (bytes_of bs ++ tail)) =
        e ∙ ap (λ (t : Bytes). bytes_of xs ++ t) (append_assoc raw (bytes_of bs) tail) in
      let (s1, step, r1) = pass xs raw (bytes_of bs ++ tail) s e' h.0 p.0 r in
      let e1 : log ≡ bytes_of (xs ++ raw ∷ []) ++ (bytes_of bs ++ tail) =
        e'
        ∙ sym (append_assoc (bytes_of xs) raw (bytes_of bs ++ tail))
        ∙ ap (λ (t : Bytes). t ++ (bytes_of bs ++ tail)) (sym (bytes_of-snoc xs raw)) in
      let h1 : Chain (end_of base (xs ++ raw ∷ [])) bs = rw (end_of-snoc base xs raw) h.1 in
      let (s2, rest, r2) = through pass fuel (xs ++ raw ∷ []) bs tail s1 e1 h1 p.1 r1 in
      let a : (xs ++ raw ∷ []) ++ bs ≡ xs ++ raw ∷ bs = append_assoc xs (raw ∷ []) bs in
      let c : suc (length bs) + fuel ≡ suc (length bs + fuel) = omega arith in
      (
        s2,
        ap (λ k. repeat k body (state (length (bytes_of xs)) s)) c
            ∙ repeat-next (length bs + fuel) body _ _ step
            ∙ ap (λ (b : Bytes). repeat (length bs + fuel) body (state (length b) s1))
                (sym (bytes_of-snoc xs raw))
            ∙ rest
            ∙ ap (λ (t : List Bytes). repeat fuel body (state (length (bytes_of t)) s2)) a,
        rw (← a) r2,
      )
