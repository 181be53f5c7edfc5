-- ===== src/Prelude/Slices.antt =====
-- Parts of a byte string: Go's `b[i:i+k]` within its bounds, and File.ReadAt.
use Prim.Native.Nat.{ℕ, zero, suc, ◌+◌, ◌-◌, ◌≤◌, ◌<◌}
use mathlib.Core.Path.{◌≡◌, refl, ap, ◌∙◌, sym}
use mathlib.Core.Option.{Option, none, some}
use mathlib.Core.List.{List, [], ◌∷◌, ◌++◌, append-nil}
use native.Mathlib.Omega.{arith}
use pocketkafka.Prelude.Tests.{Bytes, leb, if◌then◌else◌}
use pocketkafka.Prelude.Lists.{
  length, take, drop, length-append, length-take, length-drop, take-append_within, take-append_left,
}

-- The `k` bytes from the `i`th on.
unfoldable pub slice : ℕ → ℕ → Bytes → Bytes
slice i k bs = take k (drop i bs)

-- File.ReadAt of `k` bytes: none is io.EOF, where the file ends before.
unfoldable pub read_at : ℕ → ℕ → Bytes → Option Bytes
read_at k i bs = if leb (i + k) (length bs) then some (slice i k bs) else none

unfoldable pub zeros : ℕ → Bytes
zeros zero = []
zeros (suc n) = 0 ∷ zeros n

-- File.Truncate, which fills a shorter file up with zeros.
unfoldable pub resize : ℕ → Bytes → Bytes
resize k bs = take k bs ++ zeros (k - length bs)

module _ {ℓ} {A : Type ℓ} where
  drop-nil : (n : ℕ) → drop {A = A} n [] ≡ []
  drop-nil zero = refl
  drop-nil (suc n) = refl

  pub drop-drop : (i j : ℕ) (xs : List A) → drop i (drop j xs) ≡ drop (j + i) xs
  drop-drop i zero xs = let e : i ≡ 0 + i = omega arith in ap (λ k. drop k xs) e
  drop-drop i (suc j) [] = drop-nil i ∙ sym (drop-nil (suc j + i))
  drop-drop i (suc j) (x ∷ xs) =
      let e : suc (j + i) ≡ suc j + i = omega arith in
      drop-drop i j xs ∙ ap (λ k. drop k (x ∷ xs)) e

  take-drop-take :
      (i k n : ℕ) (xs : List A) → i + k ≤ n → take k (drop i (take n xs)) ≡ take k (drop i xs)
  take-drop-take i zero n xs h = refl
  take-drop-take i (suc k) zero xs h = absurd (omega arith)
  take-drop-take zero (suc k) (suc n) [] h = refl
  take-drop-take (suc i) (suc k) (suc n) [] h = refl
  take-drop-take zero (suc k) (suc n) (x ∷ xs) h =
      ap (λ t. x ∷ t) (take-drop-take zero k n xs (omega arith))
  take-drop-take (suc i) (suc k) (suc n) (x ∷ xs) h = take-drop-take i (suc k) n xs (omega arith)

  drop-append_past : (i : ℕ) (xs ys : List A) → drop (length xs + i) (xs ++ ys) ≡ drop i ys
  drop-append_past i [] ys = let e : 0 + i ≡ i = omega arith in ap (λ k. drop k ys) e
  drop-append_past i (x ∷ xs) ys =
      let e : suc (length xs) + i ≡ suc (length xs + i) = omega arith in
      ap (λ k. drop k (x ∷ xs ++ ys)) e ∙ drop-append_past i xs ys

  drop-append_within :
      (i : ℕ) (xs ys : List A) → i ≤ length xs → drop i (xs ++ ys) ≡ drop i xs ++ ys
  drop-append_within zero xs ys h = refl
  drop-append_within (suc i) [] ys h = absurd (omega arith)
  drop-append_within (suc i) (x ∷ xs) ys h = drop-append_within i xs ys (omega arith)

pub slice-slice :
    (i k j n : ℕ) (bs : Bytes) → i + k ≤ n → slice i k (slice j n bs) ≡ slice (j + i) k bs
unfolding slice
slice-slice i k j n bs h =
    take-drop-take i k n (drop j bs) h ∙ ap (λ (t : Bytes). take k t) (drop-drop i j bs)

pub slice-drop : (i j k : ℕ) (bs : Bytes) → slice i k (drop j bs) ≡ slice (j + i) k bs
unfolding slice
slice-drop i j k bs = ap (λ (t : Bytes). take k t) (drop-drop i j bs)

pub slice-append_past :
    (i k : ℕ) (xs ys : Bytes) → slice (length xs + i) k (xs ++ ys) ≡ slice i k ys
unfolding slice
slice-append_past i k xs ys = ap (λ (t : Bytes). take k t) (drop-append_past i xs ys)

pub slice-append_within :
    (i k : ℕ) (xs ys : Bytes) → i + k ≤ length xs → slice i k (xs ++ ys) ≡ slice i k xs
unfolding slice
slice-append_within i k xs ys h =
    ap (λ (t : Bytes). take k t) (drop-append_within i xs ys (omega arith))
    ∙ take-append_within k (drop i xs) ys (omega (arith, length-drop i xs))

pub length-slice : (i k : ℕ) (bs : Bytes) → i + k ≤ length bs → length (slice i k bs) ≡ k
unfolding slice
length-slice i k bs h = omega (arith, length-take k (drop i bs), length-drop i bs)

pub slice_all : (bs : Bytes) → slice 0 (length bs) bs ≡ bs
unfolding slice
slice_all [] = refl
slice_all (b ∷ bs) = ap (λ t. b ∷ t) (slice_all bs)

-- A read within the middle one of three parts of a file.
pub read_at-middle :
    (k i : ℕ) (xs ys zs : Bytes)
    → i + k ≤ length ys
    → read_at k (length xs + i) (xs ++ (ys ++ zs)) ≡ some (slice i k ys)
unfolding read_at
read_at-middle k i xs ys zs h = ground (
  arith,
  length-append xs (ys ++ zs),
  length-append ys zs,
  slice-append_past i k xs (ys ++ zs),
  slice-append_within i k ys zs,
)

pub read_at-short : (k i : ℕ) (bs : Bytes) → length bs < i + k → read_at k i bs ≡ none
unfolding read_at
read_at-short k i bs h = ground arith

pub resize-append : (xs ys : Bytes) → resize (length xs) (xs ++ ys) ≡ xs
unfolding resize zeros
resize-append xs ys =
    let e : length xs - length (xs ++ ys) ≡ 0 = omega (arith, length-append xs ys) in
    rw (e, take-append_left xs ys) (append-nil xs)

pub length-resize : (k : ℕ) (bs : Bytes) → k ≤ length bs → length (resize k bs) ≡ k
unfolding resize zeros
length-resize k bs h =
    let e : k - length bs ≡ 0 = omega arith in
    rw e (omega (arith, length-append (take k bs) [], length-take k bs))
