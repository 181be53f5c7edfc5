-- ===== src/Prelude/Ints.antt =====
-- Go's signed integers, as numbers with a sign.
use Prim.Native.Nat.{ℕ, zero, suc, ◌+◌, ◌-◌, ◌*◌, ◌%◌, ◌^◌, ◌<◌, ◌≤◌}
use mathlib.Core.Path.{◌≡◌, refl, ap}
use mathlib.Core.Bool.{Bool, true, false}
use mathlib.Core.Logic.{◌↔◌, ◌≢◌}
use native.Mathlib.Omega.{arith}
use pocketkafka.Prelude.Tests.{ltb, leb, eqb, if◌then◌else◌, Key}

-- `negsuc n` is -(n + 1).
pub data ℤ : Type 0 where
  pos : ℕ → ℤ
  negsuc : ℕ → ℤ

abbrev pub pos_part : ℤ → ℕ
pos_part (pos n) = n
pos_part (negsuc n) = 0

abbrev pub neg_part : ℤ → ℕ
neg_part (pos n) = 0
neg_part (negsuc n) = suc n

abbrev pub ltb_ℤ : ℤ → ℤ → Bool
ltb_ℤ a b = ltb (pos_part a + neg_part b) (pos_part b + neg_part a)

abbrev pub leb_ℤ : ℤ → ℤ → Bool
leb_ℤ a b = leb (pos_part a + neg_part b) (pos_part b + neg_part a)

abbrev pub eqb_ℤ : ℤ → ℤ → Bool
eqb_ℤ (pos a) (pos b) = eqb a b
eqb_ℤ (pos a) (negsuc b) = false
eqb_ℤ (negsuc a) (pos b) = false
eqb_ℤ (negsuc a) (negsuc b) = eqb a b

pub eqb_ℤ_iff : (a b : ℤ) → (eqb_ℤ a b ≡ true) ↔ (a ≡ b)
eqb_ℤ_iff (pos a) (pos b) = ground arith
eqb_ℤ_iff (pos a) (negsuc b) = ground arith
eqb_ℤ_iff (negsuc a) (pos b) = ground arith
eqb_ℤ_iff (negsuc a) (negsuc b) = ground arith

instance abbrev pub int_eq : Key ℤ
int_eq = record {
  same = eqb_ℤ;
  same_sound = λ {x} {y}. (eqb_ℤ_iff x y).0;
  same_refl = λ x. (eqb_ℤ_iff x x).1 refl;
}

-- `x++` on an intN whose greatest value is `top`: it wraps to the least one.
unfoldable pub inc_wrapping : ℕ → ℤ → ℤ
inc_wrapping top (pos n) = if eqb n top then negsuc top else pos (suc n)
inc_wrapping top (negsuc zero) = pos 0
inc_wrapping top (negsuc (suc n)) = negsuc n

abbrev pub max_int32 : ℕ
max_int32 = 2147483647

abbrev pub max_int16 : ℕ
max_int16 = 32767

-- `time.Duration(ms) * time.Millisecond`, in nanoseconds; it fits an int64 for every int32.
unfoldable pub milliseconds : ℤ → ℤ
milliseconds (pos n) = pos (n * 1000000)
milliseconds (negsuc n) = negsuc (suc n * 1000000 - 1)

pub inc_wrapping-ne : (top : ℕ) (g : ℤ) → inc_wrapping top g ≢ g
unfolding inc_wrapping
inc_wrapping-ne top (pos n) = λ e. ground arith
inc_wrapping-ne top (negsuc zero) = λ e. ground arith
inc_wrapping-ne top (negsuc (suc n)) = λ e. ground arith

-- The difference of two numbers.
unfoldable pub diff : ℕ → ℕ → ℤ
diff a b = if leb b a then pos (a - b) else negsuc (b - a - 1)

infixl 65 ◌+ℤ◌
abbrev pub ◌+ℤ◌ : ℤ → ℤ → ℤ
pos a +ℤ pos b = pos (a + b)
pos a +ℤ negsuc b = diff a (suc b)
negsuc a +ℤ pos b = diff b (suc a)
negsuc a +ℤ negsuc b = negsuc (suc (a + b))

infixl 65 ◌-ℤ◌
abbrev pub ◌-ℤ◌ : ℤ → ℤ → ℤ
pos a -ℤ pos b = diff a b
pos a -ℤ negsuc b = pos (a + suc b)
negsuc a -ℤ pos b = negsuc (a + b)
negsuc a -ℤ negsuc b = diff b a

-- A word of `w` bits as the signed number that it encodes in two's complement, and back.
unfoldable pub signed : ℕ → ℕ → ℤ
signed w v =
    if ltb (v % 2 ^ w) (2 ^ (w - 1)) then pos (v % 2 ^ w) else negsuc (2 ^ w - 1 - v % 2 ^ w)

unfoldable pub unsigned : ℕ → ℤ → ℕ
unsigned w (pos n) = n % 2 ^ w
unsigned w (negsuc n) = 2 ^ w - 1 - n % 2 ^ w

pub diff-le : (a b : ℕ) → b ≤ a → diff a b ≡ pos (a - b)
unfolding diff
diff-le a b h = ground arith

pub signed_32-lt : (v : ℕ) → v < 2 ^ 31 → signed 32 v ≡ pos v
unfolding signed
signed_32-lt v h = ground (arith, ap pos)

pub signed_64-lt : (v : ℕ) → v < 2 ^ 63 → signed 64 v ≡ pos v
unfolding signed
signed_64-lt v h = ground (arith, ap pos)

pub unsigned_32-lt : (v : ℕ) → v < 2 ^ 32 → unsigned 32 (pos v) ≡ v
unfolding unsigned
unsigned_32-lt v h = omega arith

pub unsigned_64-lt : (v : ℕ) → v < 2 ^ 64 → unsigned 64 (pos v) ≡ v
unfolding unsigned
unsigned_64-lt v h = omega arith
