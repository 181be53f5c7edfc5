-- ===== src/Limits/Bounds.antt =====
-- The delay after failed attempts (internal/ratelimit/ratelimit.go).
use pocketkafka.Prelude.{
  ℕ, zero, suc, ◌+◌, ◌-◌, ◌*◌, ◌^◌, ◌≤◌, ◌≡◌, refl, ap, sym, ◌∙◌, false, some, [], ◌∷◌, leb, Bytes,
  bytes_eq, ◌==◌, min, arith, if_rule, beq_refl,
}
use native.Mathlib.Nat.{pow-succ', mul_assoc}
use pocketkafka.Prelude.Dict.{Dict, get, get-put}
use pocketkafka.Limits.{
  Entry, Limiter, prune_loop, prune, wait_of, allow_attempt, delay_loop, delay_of, entry_or_new,
  fail_entry, fail,
}

double-pow : (n d : ℕ) → d * 2 * 2 ^ n ≡ d * 2 ^ suc n
double-pow n d = mul_assoc d 2 (2 ^ n) ∙ ap (λ p. d * p) (sym (pow-succ' 2 n))

le-pow : (n d : ℕ) → d ≤ d * 2 ^ n
le-pow zero d = omega arith
le-pow (suc n) d = omega (arith, le-pow n (d * 2), double-pow n d)

delay_loop-min : (max n delay : ℕ) → min max (delay_loop max n delay) ≡ min max (delay * 2 ^ n)
unfolding delay_loop
delay_loop-min max zero delay = omega arith
delay_loop-min max (suc n) delay =
    if_rule (λ d. min max d ≡ min max (delay * 2 ^ suc n)) (leb max (delay * 2))
      (λ e. ground (arith, le-pow n (delay * 2), double-pow n delay))
      (λ e. delay_loop-min max n (delay * 2) ∙ ap (min max) (double-pow n delay))

-- The delay after a failure: the base doubled for each failure beyond the first that is not free, and
-- the greatest delay at most.
pub delay_of-min :
    (l : Limiter) (failures : ℕ)
    → delay_of l failures ≡ min l.max (l.base * 2 ^ (failures - (l.free_attempts + 1)))
unfolding delay_of
delay_of-min l failures =
    ground (arith, delay_loop-min l.max (failures - (l.free_attempts + 1)) l.base)

get-prune_loop :
    (now ttl : ℕ) (d : Dict Bytes Entry) (k : Bytes) (e : Entry)
    → get d k ≡ some e
    → now ≤ e.next
    → get (prune_loop now ttl d) k ≡ some e
unfolding get prune_loop
get-prune_loop now ttl [] k e g h = g
get-prune_loop now ttl ((j, f) ∷ d) k e g h = ground (arith, get-prune_loop now ttl d k e)

get-prune :
    (now : ℕ) (l : Limiter) (k : Bytes) (e : Entry)
    → get l.entries k ≡ some e
    → now ≤ e.next
    → get (prune now l).entries k ≡ some e
unfolding prune
get-prune now l k e g h = ground (arith, get-prune_loop now l.ttl l.entries k e g h)

fail_entry-next :
    (now : ℕ) (key : Bytes) (e : Entry) (l : Limiter)
    → 1 ≤ (fail_entry now key e l).1
    → (f : Entry) × (get (fail_entry now key e l).0.entries key ≡ some f)
      × (f.next ≡ now + (fail_entry now key e l).1)
unfolding fail_entry
fail_entry-next now key e l =
    if_rule
      (λ (x : Limiter × ℕ).
        1 ≤ x.1 → (f : Entry) × (get x.0.entries key ≡ some f) × (f.next ≡ now + x.1))
      (leb (suc e.failures) l.free_attempts) (λ b h. absurd (omega arith))
      (λ b h.
        let f : Entry = record {
          failures = suc e.failures;
          next = now + delay_of l (suc e.failures);
          seen = now;
        } in
        (f, get-put l.entries key key f ∙ rw (beq_refl key) refl, refl))

fail-next :
    (now : ℕ) (key : Bytes) (l : Limiter)
    → (key == []) ≡ false
    → 1 ≤ (fail now key l).1
    → (f : Entry) × (get (fail now key l).0.entries key ≡ some f)
      × (f.next ≡ now + (fail now key l).1)
unfolding fail
fail-next now key l k =
    if_rule
      (λ (x : Limiter × ℕ).
        1 ≤ x.1 → (f : Entry) × (get x.0.entries key ≡ some f) × (f.next ≡ now + x.1))
      (key == []) (λ b h. absurd (cc (b, k)))
      (λ b h.
        fail_entry-next now key (entry_or_new (get (prune now l).entries key)) (prune now l) h)

allow_attempt-held :
    (later : ℕ) (key : Bytes) (l : Limiter) (f : Entry)
    → (key == []) ≡ false
    → get l.entries key ≡ some f
    → later ≤ f.next
    → (allow_attempt later key l).1 ≡ some (f.next - later)
unfolding allow_attempt wait_of
allow_attempt-held later key l f k g h = rw k (rw (get-prune later l key f g h) (ground arith))

-- A failure that answers with a delay holds the key back: until the delay is over, an attempt is
-- refused and told the time that is left.
pub allow_attempt-fail :
    (now later : ℕ) (key : Bytes) (l : Limiter)
    → (key == []) ≡ false
    → 1 ≤ (fail now key l).1
    → later ≤ now + (fail now key l).1
    → (allow_attempt later key (fail now key l).0).1 ≡ some (now + (fail now key l).1 - later)
allow_attempt-fail now later key l k h t =
    let (f, g, n) = fail-next now key l k h in
    allow_attempt-held later key (fail now key l).0 f k g (omega (arith, n, t))
    ∙ ap (λ x. some (x - later)) n
