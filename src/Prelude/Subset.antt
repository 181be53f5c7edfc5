-- ===== src/Prelude/Subset.antt =====
-- Sets of keys as lists: inclusion, and the pigeonhole principle.
use Prim.Native.Nat.{◌≤◌, ◌+◌}
use mathlib.Core.Path.{◌≡◌}
use mathlib.Core.Bool.{true, false, not}
use mathlib.Core.List.{List, [], ◌∷◌}
use native.Mathlib.Omega.{arith}
use pocketkafka.Prelude.Tests.{Key, ◌==◌, beq_refl, beq→eq}
use pocketkafka.Prelude.Lists.{length, keep, length-keep-le}
use pocketkafka.Prelude.Dict.{elem, IsUnique, elem-keep}

module _ {ℓ} {K : Type ℓ} ⦃e : Key K⦄ where
  -- Every entry of the first list stands in the second.
  pub record IsSubset (xs ys : List K) : Type ℓ where
    pub at : (k : K) → elem k xs ≡ true → elem k ys ≡ true

  erase_shorter :
      (x : K) (ys : List K)
      → elem x ys ≡ true
      → length (keep (λ j. not (x == j)) ys) + 1 ≤ length ys
  unfolding elem keep
  erase_shorter x [] h = ground arith
  erase_shorter x (y ∷ ys) h =
      ground
        (arith, erase_shorter x ys, length-keep-le (λ j. not (x == j)) ys, beq→eq y x, beq_refl x)

  pub elem→pos : (k : K) (ys : List K) → elem k ys ≡ true → 1 ≤ length ys
  unfolding elem
  elem→pos k [] h = ground arith
  elem→pos k (y ∷ ys) h = omega arith

  IsSubset-erase :
      (x : K) (xs ys : List K)
      → elem x xs ≡ false
      → IsSubset (x ∷ xs) ys
      → IsSubset xs (keep (λ j. not (x == j)) ys)
  unfolding elem
  IsSubset-erase x xs ys h s = record {
    at = λ k m. ground (arith, elem-keep (λ j. not (x == j)) k ys, s.at k, beq→eq x k);
  }

  -- A list without repetition is no longer than one that holds all its entries, and if it is as
  -- long it holds all of theirs.
  pub pigeonhole :
      (xs ys : List K)
      → IsUnique xs
      → IsSubset xs ys
      → (length xs ≤ length ys) × (length ys ≤ length xs → IsSubset ys xs)
  unfolding elem
  pigeonhole [] ys u s =
      (omega arith, λ h. record { at = λ k m. absurd (omega (arith, elem→pos k ys m)) })
  pigeonhole (x ∷ xs) ys u s =
      let rest : List K = keep (λ j. not (x == j)) ys in
      let shorter : length rest + 1 ≤ length ys =
        erase_shorter x ys (s.at x (ground (arith, beq_refl x))) in
      let (le, back) = pigeonhole xs rest u.1 (IsSubset-erase x xs ys u.0 s) in
      (
        omega arith,
        λ h. record {
          at = λ k m.
              ground (arith, (back (omega arith)).at k, elem-keep (λ j. not (x == j)) k ys, m);
        },
      )
