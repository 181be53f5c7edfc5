-- ===== src/Prelude/Tests.antt =====
-- Boolean tests on the native numbers and on byte strings, and the conditional.
use Prim.Native.Nat.{ℕ, ◌≤◌, ◌<◌, compare, Ordering}
use mathlib.Core.Path.{◌≡◌, refl}
use mathlib.Core.Logic.{◌↔◌, ◌≢◌, ◌⊎◌, inl, inr}
use mathlib.Core.Bool.{Bool, true, false, ◌&&◌}
use mathlib.Core.Option.{Option, none, some}
use mathlib.Core.List.{List, [], ◌∷◌}
use native.Mathlib.Omega.{arith}

abbrev pub ltb : ℕ → ℕ → Bool
ltb a b = elim (compare a b) [ Ordering.lt ↦ true | _ ↦ false ]

abbrev pub leb : ℕ → ℕ → Bool
leb a b = elim (compare a b) [ Ordering.gt ↦ false | _ ↦ true ]

abbrev pub eqb : ℕ → ℕ → Bool
eqb a b = elim (compare a b) [ Ordering.eq ↦ true | _ ↦ false ]

infix 1 if◌then◌else◌
abbrev pub if◌then◌else◌ {ℓ} : {A : Type ℓ} → Bool → A → A → A
if true then x else y = x
if false then x else y = y

pub leb→le : (a b : ℕ) → leb a b ≡ true → a ≤ b
leb→le a b h = ground arith

pub ltb→lt : (a b : ℕ) → ltb a b ≡ true → a < b
ltb→lt a b h = ground arith

pub eqb_iff : (a b : ℕ) → (eqb a b ≡ true) ↔ (a ≡ b)
eqb_iff a b = ground arith

-- To split on a computed value and keep the equation.
pub Bool-cases : (b : Bool) → (b ≡ true) ⊎ (b ≡ false)
Bool-cases true = inl refl
Bool-cases false = inr refl

pub Option-cases {ℓ} : {A : Type ℓ} (o : Option A) → (o ≡ none) ⊎ ((a : A) × (o ≡ some a))
Option-cases none = inl refl
Option-cases (some a) = inr (a, refl)

-- A type whose elements Go compares with `==`, as the keys of a map.
pub record Key {ℓ} (K : Type ℓ) : Type ℓ where
  pub same : K → K → Bool
  pub same_sound : {x y : K} → same x y ≡ true → x ≡ y
  pub same_refl : (x : K) → same x x ≡ true

abbrev pub ◌==◌ {ℓ} : {K : Type ℓ} ⦃key : Key K⦄ (x y : K) → Bool
◌==◌ ⦃key⦄ x y = key.same x y

infix 50 ◌==◌
instance abbrev pub nat_eq : Key ℕ
nat_eq = record {
  same = eqb;
  same_sound = λ {x} {y}. (eqb_iff x y).0;
  same_refl = λ x. (eqb_iff x x).1 refl;
}

-- A Go string, or a slice of bytes: the list of its bytes.
abbrev pub Bytes : Type 0
Bytes = List ℕ

unfoldable pub bytes_beq : Bytes → Bytes → Bool
bytes_beq [] [] = true
bytes_beq [] (y ∷ ys) = false
bytes_beq (x ∷ xs) [] = false
bytes_beq (x ∷ xs) (y ∷ ys) = eqb x y && bytes_beq xs ys

pub bytes_beq_sound : (xs ys : Bytes) → bytes_beq xs ys ≡ true → xs ≡ ys
unfolding bytes_beq
bytes_beq_sound [] [] h = refl
bytes_beq_sound [] (y ∷ ys) h = cc
bytes_beq_sound (x ∷ xs) [] h = cc
bytes_beq_sound (x ∷ xs) (y ∷ ys) h = ground (arith, bytes_beq_sound xs ys)

pub bytes_beq_refl : (xs : Bytes) → bytes_beq xs xs ≡ true
unfolding bytes_beq
bytes_beq_refl [] = refl
bytes_beq_refl (x ∷ xs) = ground (arith, bytes_beq_refl xs)

instance abbrev pub bytes_eq : Key Bytes
bytes_eq = record {
  same = bytes_beq;
  same_sound = λ {x} {y}. bytes_beq_sound x y;
  same_refl = bytes_beq_refl;
}

module _ {ℓ} {K : Type ℓ} ⦃key : Key K⦄ where
  pub beq→eq : (x y : K) → (x == y) ≡ true → x ≡ y
  beq→eq x y h = key.same_sound h

  pub beq_refl : (x : K) → (x == x) ≡ true
  beq_refl = key.same_refl

-- The result is there, and has the property.
abbrev pub Ensures {ℓ} : {A : Type ℓ} → (A → Type 0) → Option A → Type 0
Ensures P none = ⊥
Ensures P (some a) = P a

-- What holds of both branches, given the outcome of the test, holds of the conditional.
pub if_rule {ℓ κ} :
    {A : Type ℓ} {x y : A} (P : A → Type κ) (b : Bool)
    → (b ≡ true → P x)
    → (b ≡ false → P y)
    → P (if b then x else y)
if_rule P true f g = f refl
if_rule P false f g = g refl

-- A result that is ensured is there.
pub some_of {ℓ} :
    {A : Type ℓ} (P : A → Type 0) (o : Option A) → Ensures P o → (a : A) × (o ≡ some a) × P a
some_of P none h = absurd h
some_of P (some a) h = (a, refl, h)

pub ensured-ne-none {ℓ} : {A : Type ℓ} (P : A → Type 0) (o : Option A) → Ensures P o → o ≢ none
ensured-ne-none P none h = absurd h
ensured-ne-none P (some a) h = λ e. cc
