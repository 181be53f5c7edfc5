-- ===== src/Prelude/Decimal.antt =====
-- `fmt.Sprintf("%d", n)` for a natural number, and that it is injective.
use Prim.Native.Nat.{ℕ, zero, suc, ◌+◌, ◌*◌, ◌/◌, ◌%◌, ◌<◌, ◌-◌}
use mathlib.Core.Path.{◌≡◌, refl, ap, sym, ◌∙◌}
use mathlib.Core.List.{[], ◌∷◌, ◌++◌}
use native.Mathlib.Omega.{arith}
use pocketkafka.Prelude.Tests.{ltb, if◌then◌else◌, Bytes}

-- The decimal digits of `n` in ASCII, on fuel.
decimal_loop : ℕ → ℕ → Bytes
decimal_loop zero n = []
decimal_loop (suc f) n =
    let rest = decimal_loop f (n / 10) in
    if ltb n 10 then (48 + n) ∷ [] else rest ++ (48 + n % 10) ∷ []

-- A number has no more digits than its own successor counts.
unfoldable pub decimal : ℕ → Bytes
unfolding decimal_loop
decimal n = decimal_loop (suc n) n

value_from : ℕ → Bytes → ℕ
value_from acc [] = acc
value_from acc (d ∷ ds) = value_from (acc * 10 + (d - 48)) ds

value_from-append :
    (acc d : ℕ) (ds : Bytes) → value_from acc (ds ++ d ∷ []) ≡ value_from acc ds * 10 + (d - 48)
unfolding value_from
value_from-append acc d [] = refl
value_from-append acc d (x ∷ ds) = value_from-append (acc * 10 + (x - 48)) d ds

value_from-decimal_loop : (f n : ℕ) → n < f → value_from 0 (decimal_loop f n) ≡ n
unfolding value_from decimal_loop
value_from-decimal_loop zero n h = absurd (omega arith)
value_from-decimal_loop (suc f) n h = ground (
  arith,
  value_from-append 0 (48 + n % 10) (decimal_loop f (n / 10)),
  value_from-decimal_loop f (n / 10),
)

pub decimal-injective : (m n : ℕ) → decimal m ≡ decimal n → m ≡ n
unfolding decimal
decimal-injective m n h =
    sym (value_from-decimal_loop (suc m) m (omega arith))
    ∙ ap (value_from 0) h
    ∙ value_from-decimal_loop (suc n) n (omega arith)
