-- ===== src/Limits/Window.antt =====
-- RateLimiter as a sliding window over all the requests that it has admitted
-- (internal/fleet/ratelimit.go).
pub mod Times
pub mod Clients
pub mod Answers
use pocketkafka.Prelude.{
  ℕ, ◌+◌, ◌≤◌, ◌<◌, ◌≡◌, refl, ap, sym, ◌∙◌, Bool, true, false, ◌&&◌, Option, none, some, List, [],
  ◌∷◌, ◌++◌, ltb, leb, Bytes, bytes_eq, ◌==◌, length, arith, if_rule, if◌then◌else◌, Bool-cases,
  Option-cases, inl, inr, beq_refl, beq→eq, subst,
}
use pocketkafka.Prelude.Lists.{keep}
use pocketkafka.Prelude.Ints.{ℤ}
use pocketkafka.Prelude.Dict.{
  Dict, get, put, has, get-put, elem, keys, keys-put, is_some, has-get, has-keys, IsUnique,
  IsUnique-append_one,
}
use pocketkafka.Offsets.{or_new}
use pocketkafka.Limits.{
  RateLimiter, new_rate_limiter, valid_of, is_idle, sweep, admit, allow_request,
}

-- A request: its client and its time.
abbrev pub Request : Type 0
Request = Bytes × ℕ

-- The requests of the client that lie in the window before `now`.
unfoldable pub recent : ℕ → ℕ → Bytes → List Request → ℕ
recent now window key [] = 0
recent now window key ((k, t) ∷ log) =
    (if (k == key) && ltb now (t + window) then 1 else 0) + recent now window key log

-- The reference: a request is admitted where, of the requests admitted before, those of its client
-- in the window are fewer than the limit.
unfoldable pub reference : ℕ → ℕ → List Request → List Request → List Bool
reference limit window log [] = []
reference limit window log ((key, now) ∷ rs) =
    let admitted = ltb (recent now window key log) limit in
    admitted ∷ reference limit window (if admitted then log ++ (key, now) ∷ [] else log) rs

-- The answers of Allow to requests in turn.
unfoldable pub answers : RateLimiter → List Request → List Bool
answers rl [] = []
answers rl ((key, now) ∷ rs) = let x = allow_request now key rl in x.1 ∷ answers x.0 rs

-- The clock does not go back.
abbrev pub IsOrdered : ℕ → List Request → Type 0
IsOrdered now [] = Unit {0}
IsOrdered now (r ∷ rs) = (now ≤ r.1) × IsOrdered r.1 rs
