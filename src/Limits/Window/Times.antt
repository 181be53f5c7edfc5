-- ===== src/Limits/Window/Times.antt =====
-- The times of one client's requests (internal/fleet/ratelimit.go).
use pocketkafka.Prelude.{
  ℕ, ◌+◌, ◌≤◌, ◌<◌, ◌≡◌, refl, Bool, true, false, ◌&&◌, List, [], ◌∷◌, ◌++◌, ltb, Bytes, bytes_eq,
  ◌==◌, length, arith, if_rule, if◌then◌else◌,
}
use pocketkafka.Prelude.Lists.{keep}
use pocketkafka.Limits.{valid_of, is_idle}
use pocketkafka.Limits.Window.{Request, recent}

-- Times in their order, from `low` to `now`.
abbrev pub Between : ℕ → List ℕ → ℕ → Type 0
Between low [] now = low ≤ now
Between low (t ∷ ts) now = (low ≤ t) × Between t ts now

pub Between-low : (a b : ℕ) (ts : List ℕ) (now : ℕ) → a ≤ b → Between b ts now → Between a ts now
Between-low a b [] now l h = omega arith
Between-low a b (t ∷ ts) now l h = (omega (arith, h.0), h.1)

pub Between-now :
    (low : ℕ) (ts : List ℕ) (now later : ℕ)
    → now ≤ later
    → Between low ts now
    → Between low ts later
Between-now low [] now later l h = omega arith
Between-now low (t ∷ ts) now later l h = (h.0, Between-now t ts now later l h.1)

pub Between-keep :
    (p : ℕ → Bool) (low : ℕ) (ts : List ℕ) (now : ℕ)
    → Between low ts now
    → Between low (keep p ts) now
unfolding keep
Between-keep p low [] now h = h
Between-keep p low (t ∷ ts) now h =
    if_rule (λ (xs : List ℕ). Between low xs now) (p t) (λ b. (h.0, Between-keep p t ts now h.1))
      (λ b. Between-low low t (keep p ts) now h.0 (Between-keep p t ts now h.1))

pub Between-append_one :
    (low : ℕ) (ts : List ℕ) (now : ℕ) → Between low ts now → Between low (ts ++ now ∷ []) now
Between-append_one low [] now h = (h, omega arith)
Between-append_one low (t ∷ ts) now h = (h.0, Between-append_one t ts now h.1)

-- What has left the window stays out of it.
pub valid_of_twice :
    (now later window : ℕ) (ts : List ℕ)
    → now ≤ later
    → valid_of later window (valid_of now window ts) ≡ valid_of later window ts
unfolding valid_of keep
valid_of_twice now later window [] l = refl
valid_of_twice now later window (t ∷ ts) l = ground (arith, valid_of_twice now later window ts l)

pub valid_of-append_one :
    (later window : ℕ) (ts : List ℕ) (now : ℕ)
    → length (valid_of later window (ts ++ now ∷ []))
      ≡ length (valid_of later window ts) + (if ltb later (now + window) then 1 else 0)
unfolding valid_of keep
valid_of-append_one later window [] now = ground arith
valid_of-append_one later window (t ∷ ts) now =
    ground (arith, valid_of-append_one later window ts now)

pub recent-append_one :
    (later window : ℕ) (key : Bytes) (log : List Request) (k : Bytes) (t : ℕ)
    → recent later window key (log ++ (k, t) ∷ [])
      ≡ recent later window key log + (if (k == key) && ltb later (t + window) then 1 else 0)
unfolding recent
recent-append_one later window key [] k t = omega arith
recent-append_one later window key ((j, u) ∷ log) k t =
    omega (arith, recent-append_one later window key log k t)

pub idle_first :
    (now window t : ℕ) (ts : List ℕ) (later : ℕ)
    → Between t ts later
    → is_idle now window (t ∷ ts) ≡ true
    → t + window < now
unfolding is_idle
idle_first now window t [] later h i = ground arith
idle_first now window t (u ∷ ts) later h i =
    omega (arith, h.0, idle_first now window u ts later h.1 i)

-- A client whose last request has left the window has none in it.
pub valid_of_idle :
    (now later window low : ℕ) (ts : List ℕ)
    → now ≤ later
    → Between low ts now
    → is_idle now window ts ≡ true
    → valid_of later window ts ≡ []
unfolding valid_of keep is_idle
valid_of_idle now later window low [] l h i = refl
valid_of_idle now later window low (t ∷ []) l h i = ground arith
valid_of_idle now later window low (t ∷ (u ∷ ts)) l h i =
    let first = idle_first now window t (u ∷ ts) now h.1 i in
    let rest = valid_of_idle now later window t (u ∷ ts) l h.1 i in
    let e : ltb later (t + window) ≡ false = ground (arith, first) in rw e rest
