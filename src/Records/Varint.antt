-- ===== src/Records/Varint.antt =====
-- Varints (encoding/binary: PutUvarint, Uvarint, PutVarint, Varint), as pkg/protocol/writer.go and
-- reader.go use them, and their round trip.
use pocketkafka.Prelude.{
  ℕ, zero, suc, ◌+◌, ◌*◌, ◌/◌, ◌%◌, ◌^◌, ◌≤◌, ◌<◌, ◌≡◌, refl, ap, ◌∙◌, arith, true, false, ◌&&◌,
  Bytes, [], ◌∷◌, ◌++◌, ltb, eqb, if◌then◌else◌, Bool-cases, inl, inr,
}
use pocketkafka.Prelude.Ints.{ℤ, pos, negsuc}
use native.Mathlib.Nat.{div-add-mod, pow-suc}

-- What decoding comes to: a value, an error, or a panic.
pub data Decoded {ℓ} (A : Type ℓ) : Type ℓ where
  ok : A → Decoded A
  invalid : Decoded A
  panics : Decoded A

infixl 5 ◌>>=◌
abbrev pub ◌>>=◌ {ℓ κ} : {A : Type ℓ} {B : Type κ} → Decoded A → (A → Decoded B) → Decoded B
ok a >>= f = f a
invalid >>= f = invalid
panics >>= f = panics

-- PutUvarint, whose buffer has ten bytes.
unfoldable pub uvarint_loop : ℕ → ℕ → Bytes
uvarint_loop zero v = []
uvarint_loop (suc left) v =
    let more = uvarint_loop left (v / 128) in if ltb v 128 then v ∷ [] else (v % 128 + 128) ∷ more

unfoldable pub append_uvarint : ℕ → Bytes
append_uvarint v = uvarint_loop 10 v

-- Uvarint: the index of the byte, the weight of its group, and the value so far.
unfoldable pub read_loop : ℕ → ℕ → ℕ → Bytes → Decoded (ℕ × Bytes)
read_loop i weight x [] = invalid
read_loop i weight x (b ∷ bs) =
    let more = read_loop (suc i) (weight * 128) (x + b % 128 * weight) bs in
    if eqb i 10
    then invalid
    else if ltb b 128
    then if eqb i 9 && ltb 1 b then invalid else ok (x + b * weight, bs)
    else more

unfoldable pub read_uvarint : Bytes → Decoded (ℕ × Bytes)
read_uvarint bs = read_loop 0 1 0 bs

-- The zig-zag code of an int64.
unfoldable pub zigzag : ℤ → ℕ
zigzag (pos n) = 2 * n
zigzag (negsuc n) = 2 * n + 1

unfoldable pub unzigzag : ℕ → ℤ
unzigzag u = if eqb (u % 2) 0 then pos (u / 2) else negsuc (u / 2)

unfoldable pub append_varint : ℤ → Bytes
append_varint z = append_uvarint (zigzag z)

unfoldable pub read_varint : Bytes → Decoded (ℤ × Bytes)
read_varint bs = do (u, rest) ← read_uvarint bs; ok (unzigzag u, rest)

last_group :
    (i weight x v : ℕ) (rest : Bytes)
    → i ≤ 9
    → v < 128
    → (i ≡ 9 → v < 2)
    → read_loop i weight x (v ∷ rest) ≡ ok (x + v * weight, rest)
unfolding read_loop
last_group i weight x v rest h l t = ground (arith, t)

more_groups :
    (i weight x g : ℕ) (rest : Bytes)
    → i ≤ 9
    → g < 128
    → read_loop i weight x ((g + 128) ∷ rest)
      ≡ read_loop (suc i) (weight * 128) (x + g * weight) rest
unfolding read_loop
more_groups i weight x g rest h l =
    let a : eqb i 10 ≡ false = ground arith in
    let b : ltb (g + 128) 128 ≡ false = ground arith in
    let c : (g + 128) % 128 ≡ g = omega arith in rw (a, b, c) refl

regrouped : (x v weight : ℕ) → x + v % 128 * weight + v / 128 * (weight * 128) ≡ x + v * weight
regrouped x v weight = omega (arith, ap (λ (t : ℕ). t * weight) (div-add-mod v 128))

-- The groups of `v`, of which `left` are still to come behind this one, and at most ten in all.
read_loop-uvarint_loop :
    (left i weight x v : ℕ) (rest : Bytes)
    → i + left ≡ 9
    → v < 2 * 128 ^ left
    → read_loop i weight x (uvarint_loop (suc left) v ++ rest) ≡ ok (x + v * weight, rest)
unfolding uvarint_loop
read_loop-uvarint_loop zero i weight x v rest e h =
    let b : ltb v 128 ≡ true = ground arith in
    rw b (last_group i weight x v rest (omega arith) (omega arith) (λ q. omega arith))
read_loop-uvarint_loop (suc left) i weight x v rest e h = elim (Bool-cases (ltb v 128)) [
  | inl b ↦
      rw b (last_group i weight x v rest (omega arith) (ground arith) (λ q. absurd (omega arith)))
  | inr b ↦ rw b (
      more_groups i weight x (v % 128) (uvarint_loop (suc left) (v / 128) ++ rest) (omega arith)
        (omega arith)
      ∙ read_loop-uvarint_loop left (suc i) (weight * 128) (x + v % 128 * weight) (v / 128) rest
          (omega arith) (omega (arith, pow-suc 128 left))
      ∙ ap (λ k. ok (k, rest)) (regrouped x v weight))
]

pub read_uvarint-append_uvarint :
    (v : ℕ) (rest : Bytes) → v < 2 ^ 64 → read_uvarint (append_uvarint v ++ rest) ≡ ok (v, rest)
unfolding read_uvarint append_uvarint
read_uvarint-append_uvarint v rest h =
    read_loop-uvarint_loop 9 0 1 0 v rest refl (omega arith) ∙ ap (λ k. ok (k, rest)) (omega arith)

unzigzag-zigzag : (z : ℤ) → unzigzag (zigzag z) ≡ z
unfolding unzigzag zigzag
unzigzag-zigzag (pos n) =
    let b : eqb (2 * n % 2) 0 ≡ true = ground arith in rw b (ap pos (omega arith))
unzigzag-zigzag (negsuc n) =
    let b : eqb ((2 * n + 1) % 2) 0 ≡ false = ground arith in rw b (ap negsuc (omega arith))

-- An int64 is read back as it was written.
pub read_varint-append_varint :
    (z : ℤ) (rest : Bytes)
    → zigzag z < 2 ^ 64
    → read_varint (append_varint z ++ rest) ≡ ok (z, rest)
unfolding read_varint append_varint
read_varint-append_varint z rest h =
    rw (read_uvarint-append_uvarint (zigzag z) rest h)
      (ap (λ (t : ℤ). ok (t, rest)) (unzigzag-zigzag z))
