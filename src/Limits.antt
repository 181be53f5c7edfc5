-- ===== src/Limits.antt =====
-- The two rate limiters: a window of requests (internal/fleet/ratelimit.go), and the delay after
-- failed attempts (internal/ratelimit/ratelimit.go). Times and durations are nanoseconds; a call reads
-- the clock once, and a duration that has overflowed an int64 is not modelled.
pub mod Bounds
pub mod Window
use pocketkafka.Prelude.{
  ℕ, zero, suc, ◌+◌, ◌-◌, ◌*◌, Bool, true, false, ◌&&◌, Option, none, some, List, [], ◌∷◌, ◌++◌,
  ltb, leb, Bytes, bytes_eq, ◌==◌, if◌then◌else◌, length, keep,
}
use pocketkafka.Prelude.Ints.{ℤ, pos, pos_part, leb_ℤ, ltb_ℤ}
use pocketkafka.Prelude.Dict.{Dict, get, put, remove}
use pocketkafka.Offsets.{or_new}

pub record RateLimiter : Type 0 where
  pub limit : ℕ
  pub window : ℕ
  pub clients : Dict Bytes (List ℕ)

unfoldable pub new_rate_limiter : ℤ → ℤ → RateLimiter
new_rate_limiter limit window = record {
  limit = if leb_ℤ limit (pos 0) then 100 else pos_part limit;
  window = if leb_ℤ window (pos 0) then 60000000000 else pos_part window;
  clients = [];
}

-- The requests after `now - window`.
unfoldable pub valid_of : ℕ → ℕ → List ℕ → List ℕ
valid_of now window times = keep (λ t. ltb now (t + window)) times

-- Whether a client has no request, or its last one is before `now - window`.
unfoldable pub is_idle : ℕ → ℕ → List ℕ → Bool
is_idle now window [] = true
is_idle now window (t ∷ []) = ltb (t + window) now
is_idle now window (t ∷ (u ∷ ts)) = is_idle now window (u ∷ ts)

unfoldable pub sweep : ℕ → ℕ → Dict Bytes (List ℕ) → Dict Bytes (List ℕ)
unfolding is_idle
sweep now window [] = []
sweep now window ((k, ts) ∷ d) =
    let rest = sweep now window d in if is_idle now window ts then rest else (k, ts) ∷ rest

unfoldable pub admit : ℕ → Bytes → List ℕ → RateLimiter → RateLimiter × Bool
admit now key valid rl =
    let clients = put rl.clients key (valid ++ now ∷ []) in
    if leb rl.limit (length valid)
    then (record rl { clients = put rl.clients key valid }, false)
    else (
      record rl {
        clients = if ltb 1024 (length clients) then sweep now rl.window clients else clients;
      },
      true,
    )

-- RateLimiter.Allow
unfoldable pub allow_request : ℕ → Bytes → RateLimiter → RateLimiter × Bool
allow_request now key rl = admit now key (valid_of now rl.window (or_new (get rl.clients key))) rl

pub record Entry : Type 0 where
  pub failures : ℕ
  pub next : ℕ
  pub seen : ℕ

pub record Limiter : Type 0 where
  pub entries : Dict Bytes Entry
  pub free_attempts : ℕ
  pub base : ℕ
  pub max : ℕ
  pub ttl : ℕ

unfoldable pub new_limiter : ℤ → ℤ → ℤ → Limiter
new_limiter free_attempts base max = record {
  entries = [];
  free_attempts = if ltb_ℤ free_attempts (pos 0) then 3 else pos_part free_attempts;
  base = if leb_ℤ base (pos 0) then 1000000000 else pos_part base;
  max = if leb_ℤ max (pos 0) then 30000000000 else pos_part max;
  ttl = 900000000000;
}

unfoldable pub prune_loop : ℕ → ℕ → Dict Bytes Entry → Dict Bytes Entry
prune_loop now ttl [] = []
prune_loop now ttl ((k, e) ∷ d) =
    let rest = prune_loop now ttl d in
    if ltb (e.seen + ttl) now && ltb e.next now then rest else (k, e) ∷ rest

-- pruneLocked
unfoldable pub prune : ℕ → Limiter → Limiter
prune now l =
    if ltb (length l.entries) 1024 then l else record l { entries = prune_loop now l.ttl l.entries }

-- What Limiter.Allow answers for an entry: the time to wait, if there is one.
unfoldable pub wait_of : ℕ → Option Entry → Option ℕ
wait_of now none = none
wait_of now (some e) = if ltb e.next now then none else some (e.next - now)

-- Limiter.Allow: the answer is `none` where the attempt is allowed.
unfoldable pub allow_attempt : ℕ → Bytes → Limiter → Limiter × Option ℕ
allow_attempt now key l =
    if key == [] then (l, none) else (prune now l, wait_of now (get (prune now l).entries key))

-- The loop of Fail that doubles the delay, with the number of its rounds.
unfoldable pub delay_loop : ℕ → ℕ → ℕ → ℕ
delay_loop max zero delay = delay
delay_loop max (suc n) delay =
    let rest = delay_loop max n (delay * 2) in if leb max (delay * 2) then max else rest

unfoldable pub delay_of : Limiter → ℕ → ℕ
delay_of l failures =
    let delay = delay_loop l.max (failures - (l.free_attempts + 1)) l.base in
    if ltb l.max delay then l.max else delay

abbrev pub entry_or_new : Option Entry → Entry
entry_or_new none = record { failures = 0; next = 0; seen = 0 }
entry_or_new (some e) = e

unfoldable pub fail_entry : ℕ → Bytes → Entry → Limiter → Limiter × ℕ
fail_entry now key e l =
    let n = suc e.failures in
    if leb n l.free_attempts
    then (
      record l { entries = put l.entries key (record { failures = n; next = e.next; seen = now }) },
      0,
    )
    else (
      record l {
        entries =
            put l.entries key (record { failures = n; next = now + delay_of l n; seen = now });
      },
      delay_of l n,
    )

-- Limiter.Fail
unfoldable pub fail : ℕ → Bytes → Limiter → Limiter × ℕ
fail now key l =
    if key == []
    then (l, 0)
    else fail_entry now key (entry_or_new (get (prune now l).entries key)) (prune now l)

-- Limiter.Succeed
unfoldable pub succeed : Bytes → Limiter → Limiter
succeed key l = if key == [] then l else record l { entries = remove l.entries key }

-- Limiter.Failures
unfoldable pub failures_of : Bytes → Limiter → ℕ
failures_of key l = (entry_or_new (get l.entries key)).failures
