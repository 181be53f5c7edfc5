-- ===== src/Prelude/Dict.antt =====
-- Go's `map[K]V`: entries with distinct keys. Go ranges over a map in no fixed order; here the order
-- is that of insertion, and only statements that do not depend on it are made about such loops.
-- A `map[K]bool` that holds only `true` is the list of its keys.
use Prim.Native.Nat.{suc, ◌≤◌}
use mathlib.Core.Path.{◌≡◌, refl, ap, sym, fun_ext, ◌∙◌}
use mathlib.Core.Bool.{Bool, true, false, not, ◌||◌, ◌&&◌}
use mathlib.Core.Option
use mathlib.Core.Option.{Option, none, some}
use mathlib.Core.List.{List, [], ◌∷◌, ◌++◌}
use native.Mathlib.Omega.{arith}
use mathlib.Core.Logic.{inl, inr}
use pocketkafka.Prelude.Tests.{if◌then◌else◌, Key, ◌==◌, beq_refl, beq→eq, Bool-cases}
use pocketkafka.Prelude.Lists.{length, keep}

abbrev pub Dict {ℓ κ} : Type ℓ → Type κ → Type (ℓ ⊔ κ)
Dict K V = List (K × V)

abbrev pub is_some {ℓ} : {A : Type ℓ} → Option A → Bool
is_some none = false
is_some (some a) = true

module _ {ℓ} {K : Type ℓ} ⦃e : Key K⦄ where
  unfoldable pub elem : K → List K → Bool
  elem k [] = false
  elem k (j ∷ js) = (j == k) || elem k js

  -- No entry of the list occurs twice.
  abbrev pub IsUnique : List K → Type 0
  IsUnique [] = Unit {0}
  IsUnique (k ∷ ks) = (elem k ks ≡ false) × IsUnique ks

  pub elem-append : (k : K) (xs ys : List K) → elem k (xs ++ ys) ≡ (elem k xs || elem k ys)
  unfolding elem
  elem-append k [] ys = refl
  elem-append k (x ∷ xs) ys = ground (arith, elem-append k xs ys)

  pub elem-keep : (p : K → Bool) (k : K) (xs : List K) → elem k (keep p xs) ≡ (elem k xs && p k)
  unfolding elem keep
  elem-keep p k [] = refl
  elem-keep p k (x ∷ xs) = ground (arith, elem-keep p k xs, beq→eq x k, ap p)

  pub keep-IsUnique : (p : K → Bool) (xs : List K) → IsUnique xs → IsUnique (keep p xs)
  unfolding keep
  keep-IsUnique p [] h = tt
  keep-IsUnique p (x ∷ xs) h = ground (arith, elem-keep p x xs, keep-IsUnique p xs)

  pub IsUnique-append_one :
      (k : K) (xs : List K) → elem k xs ≡ false → IsUnique xs → IsUnique (xs ++ k ∷ [])
  unfolding elem
  IsUnique-append_one k [] h u = (refl, tt)
  IsUnique-append_one k (x ∷ xs) h u =
      ground (arith, elem-append x xs (k ∷ []), IsUnique-append_one k xs, beq→eq k x, beq_refl x)

module _ {ℓ κ} {K : Type ℓ} {V : Type κ} ⦃e : Key K⦄ where
  -- m[k], with the second result of the two-valued form
  unfoldable pub get : Dict K V → K → Option V
  get [] k = none
  get ((j, v) ∷ d) k = if j == k then some v else get d k

  unfoldable pub has : Dict K V → K → Bool
  has [] k = false
  has ((j, v) ∷ d) k = (j == k) || has d k

  -- m[k] = v
  unfoldable pub put : Dict K V → K → V → Dict K V
  put [] k v = (k, v) ∷ []
  put ((j, w) ∷ d) k v = if j == k then (k, v) ∷ d else (j, w) ∷ put d k v

  -- delete(m, k)
  unfoldable pub remove : Dict K V → K → Dict K V
  remove [] k = []
  remove ((j, v) ∷ d) k = if j == k then remove d k else (j, v) ∷ remove d k

  -- The values through a function, as a copy of the map has them.
  unfoldable pub map_values {ν} : {W : Type ν} → (V → W) → Dict K V → Dict K W
  map_values f [] = []
  map_values f ((j, v) ∷ d) = (j, f v) ∷ map_values f d

  unfoldable pub keys : Dict K V → List K
  keys [] = []
  keys ((j, v) ∷ d) = j ∷ keys d

  -- for _, k := range ks { delete(m, k) }
  unfoldable pub remove_all : Dict K V → List K → Dict K V
  remove_all d [] = d
  remove_all d (k ∷ ks) = remove_all (remove d k) ks

module _ {ℓ κ ν} {K : Type ℓ} {V : Type κ} {W : Type ν} ⦃e : Key K⦄ where
  pub get-map_values :
      (f : V → W) (d : Dict K V) (k : K) → get (map_values f d) k ≡ Option.map f (get d k)
  unfolding get map_values
  get-map_values f [] k = refl
  get-map_values f ((j, v) ∷ d) k = elim (Bool-cases (j == k)) [
    | inl b ↦ rw b refl
    | inr b ↦ rw b (get-map_values f d k)
  ]

module _ {ℓ} {K : Type ℓ} ⦃e : Key K⦄ where
  -- m[k] = true, where m is a `map[K]bool`
  unfoldable pub add : List K → K → List K
  add ks k = if elem k ks then ks else ks ++ k ∷ []

  pub elem-add : (j k : K) (ks : List K) → elem j (add ks k) ≡ (elem j ks || k == j)
  unfolding add elem
  elem-add j k ks = ground (arith, elem-append j ks (k ∷ []), beq→eq k j)

  pub add-IsUnique : (k : K) (ks : List K) → IsUnique ks → IsUnique (add ks k)
  unfolding add
  add-IsUnique k ks u = ground (arith, IsUnique-append_one k ks)

  -- The entries of the first list that the second does not hold.
  unfoldable pub without : List K → List K → List K
  without ks dead = keep (λ k. not (elem k dead)) ks

  pub elem-without :
      (k : K) (ks dead : List K) → elem k (without ks dead) ≡ (elem k ks && not (elem k dead))
  unfolding without
  elem-without k ks dead = elem-keep (λ j. not (elem j dead)) k ks

  pub without-IsUnique : (ks dead : List K) → IsUnique ks → IsUnique (without ks dead)
  unfolding without
  without-IsUnique ks dead u = keep-IsUnique (λ j. not (elem j dead)) ks u

  pub keep-keep : (p q : K → Bool) (ks : List K) → keep q (keep p ks) ≡ keep (λ k. p k && q k) ks
  unfolding keep
  keep-keep p q [] = refl
  keep-keep p q (k ∷ ks) = ground (arith, keep-keep p q ks)

  pub keep_all : (p : K → Bool) (ks : List K) → ((k : K) → p k ≡ true) → keep p ks ≡ ks
  unfolding keep
  keep_all p [] h = refl
  keep_all p (k ∷ ks) h = ground (arith, h k, keep_all p ks h)

module _ {ℓ κ} {K : Type ℓ} {V : Type κ} ⦃e : Key K⦄ where
  pub get-put :
      (d : Dict K V) (k other : K) (new : V)
      → get (put d k new) other ≡ (if k == other then some new else get d other)
  unfolding get put
  get-put [] k j v = refl
  get-put ((i, w) ∷ d) k j v =
      ground (arith, get-put d k j v, beq→eq i k, beq→eq i j, beq→eq k j, beq_refl k)

  pub get-remove :
      (d : Dict K V) (k other : K)
      → get (remove d k) other ≡ (if k == other then none else get d other)
  unfolding get remove
  get-remove [] k j = ground arith
  get-remove ((i, w) ∷ d) k j =
      ground (arith, get-remove d k j, beq→eq i k, beq→eq i j, beq→eq k j, beq_refl k)

  pub has-get : (d : Dict K V) (k : K) → has d k ≡ is_some (get d k)
  unfolding get has
  has-get [] k = refl
  has-get ((j, v) ∷ d) k = ground (arith, has-get d k)

  pub has-keys : (d : Dict K V) (k : K) → has d k ≡ elem k (keys d)
  unfolding has keys elem
  has-keys [] k = refl
  has-keys ((j, v) ∷ d) k = ground (arith, has-keys d k)

  pub length-keys : (d : Dict K V) → length (keys d) ≡ length d
  unfolding keys
  length-keys [] = refl
  length-keys ((j, v) ∷ d) = ap suc (length-keys d)

  pub keys-put :
      (d : Dict K V) (k : K) (v : V)
      → keys (put d k v) ≡ (if has d k then keys d else keys d ++ k ∷ [])
  unfolding keys put has
  keys-put [] k v = refl
  keys-put ((j, w) ∷ d) k v = ground (arith, keys-put d k v, beq→eq j k)

  pub keys-remove : (d : Dict K V) (k : K) → keys (remove d k) ≡ keep (λ j. not (j == k)) (keys d)
  unfolding keys remove keep
  keys-remove [] k = refl
  keys-remove ((j, w) ∷ d) k = ground (arith, keys-remove d k)

  pub keys-remove_all : (d : Dict K V) (ks : List K) → keys (remove_all d ks) ≡ without (keys d) ks
  unfolding remove_all without elem
  keys-remove_all d [] = sym (keep_all (λ j. true) (keys d) (λ j. refl))
  keys-remove_all d (k ∷ ks) =
      keys-remove_all (remove d k) ks
      ∙ ap (keep (λ j. not (elem j ks))) (keys-remove d k)
      ∙ keep-keep (λ j. not (j == k)) (λ j. not (elem j ks)) (keys d)
      ∙ ap (λ p. keep p (keys d))
          (fun_ext (λ j. ground (arith, beq→eq j k, beq→eq k j, beq_refl k)))

  pub get-remove_all :
      (d : Dict K V) (ks : List K) (j : K)
      → get (remove_all d ks) j ≡ (if elem j ks then none else get d j)
  unfolding remove_all elem
  get-remove_all d [] j = refl
  get-remove_all d (k ∷ ks) j = ground (arith, get-remove_all (remove d k) ks j, get-remove d k j)

  pub length-put :
      (d : Dict K V) (k : K) (v : V)
      → length (put d k v) ≡ (if has d k then length d else suc (length d))
  unfolding put has
  length-put [] k v = refl
  length-put ((j, w) ∷ d) k v = ground (arith, length-put d k v)

  pub has-put : (d : Dict K V) (k j : K) (v : V) → has (put d k v) j ≡ (k == j || has d j)
  has-put d k j v = ground (arith, has-get (put d k v) j, has-get d j, get-put d k j v)

  pub has-remove_all :
      (d : Dict K V) (ks : List K) (j : K) → has (remove_all d ks) j ≡ (has d j && not (elem j ks))
  has-remove_all d ks j =
      ground (arith, has-get (remove_all d ks) j, has-get d j, get-remove_all d ks j)

  pub remove_absent : (d : Dict K V) (k : K) → has d k ≡ false → remove d k ≡ d
  unfolding remove has
  remove_absent [] k h = refl
  remove_absent ((j, v) ∷ d) k h = ground (arith, remove_absent d k)

module _ {ℓ} {K : Type ℓ} ⦃e : Key K⦄ where
  pub without-nil : (ks : List K) → without ks [] ≡ ks
  unfolding without elem
  without-nil ks = keep_all (λ k. true) ks (λ k. refl)

  pub without-cons :
      (k : K) (ks dead : List K) → without ks (k ∷ dead) ≡ without (without ks (k ∷ [])) dead
  unfolding without elem keep
  without-cons k [] dead = refl
  without-cons k (j ∷ ks) dead = ground (arith, without-cons k ks dead)

  pub without_absent : (k : K) (ks : List K) → elem k ks ≡ false → without ks (k ∷ []) ≡ ks
  unfolding without elem keep
  without_absent k [] h = refl
  without_absent k (j ∷ ks) h = ground (arith, without_absent k ks, beq→eq k j, beq_refl k)

module _ {ℓ κ} {K : Type ℓ} {V : Type κ} ⦃e : Key K⦄ where
  pub has_none : (d : Dict K V) → ((k : K) → has d k ≡ false) → d ≡ []
  unfolding has
  has_none [] h = refl
  has_none ((j, v) ∷ d) h = ground (arith, h j, beq_refl j)

  pub has→pos : (d : Dict K V) (k : K) → has d k ≡ true → 1 ≤ length d
  unfolding has
  has→pos [] k h = cc
  has→pos ((j, v) ∷ d) k h = omega arith
