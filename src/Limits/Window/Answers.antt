-- ===== src/Limits/Window/Answers.antt =====
-- The answers of Allow (internal/fleet/ratelimit.go).
use pocketkafka.Prelude.{
  ℕ, ◌+◌, ◌≤◌, ◌≡◌, refl, ap, sym, ◌∙◌, Bool, true, false, ◌&&◌, List, [], ◌∷◌, ◌++◌, ltb, leb,
  Bytes, bytes_eq, ◌==◌, length, arith, if_rule, if◌then◌else◌, Bool-cases, inl, inr, beq_refl,
  subst,
}
use pocketkafka.Prelude.Lists.{keep}
use pocketkafka.Prelude.Ints.{ℤ}
use pocketkafka.Prelude.Dict.{Dict, get, put, keys}
use pocketkafka.Limits.{RateLimiter, new_rate_limiter, valid_of, sweep, admit, allow_request}
use pocketkafka.Limits.Window.{Request, recent, reference, answers, IsOrdered}
use pocketkafka.Limits.Window.Times.{
  Between, Between-now, Between-keep, Between-append_one, valid_of_twice, valid_of-append_one,
  recent-append_one,
}
use pocketkafka.Limits.Window.Clients.{times, Follows, Follows-put, Follows-sweep}

module _ (rl : RateLimiter) (before now : ℕ) (key : Bytes) (log : List Request) (l : before ≤ now)
    (f : Follows rl.window before rl.clients log) where
  abbrev valid : List ℕ
  valid = valid_of now rl.window (times rl.clients key)

  valid-Between : Between 0 valid now
  unfolding valid_of
  valid-Between =
      Between-keep (λ t. ltb now (t + rl.window)) 0 (times rl.clients key) now
        (Between-now 0 (times rl.clients key) before now l (f.ordered key))

  valid-counted :
      (after : ℕ)
      → now ≤ after
      → length (valid_of after rl.window valid) ≡ recent after rl.window key log
  valid-counted after h =
      ap length (valid_of_twice now after rl.window (times rl.clients key) h)
      ∙ f.counted key after (omega arith)

  Follows-denied : Follows rl.window now (put rl.clients key valid) log
  Follows-denied =
      Follows-put rl.window before now rl.clients log l f key valid log valid-Between valid-counted
        (λ k after e. refl)

  Follows-admitted :
      Follows rl.window now (put rl.clients key (valid ++ now ∷ [])) (log ++ (key, now) ∷ [])
  Follows-admitted =
      Follows-put rl.window before now rl.clients log l f key (valid ++ now ∷ [])
        (log ++ (key, now) ∷ []) (Between-append_one 0 valid now valid-Between)
        (λ after h.
          let more : ℕ = if ltb after (now + rl.window) then 1 else 0 in
          let own : ℕ = if (key == key) && ltb after (now + rl.window) then 1 else 0 in
          let same : own ≡ more = rw (beq_refl key) refl in
          omega (
            arith,
            valid_of-append_one after rl.window valid now,
            recent-append_one after rl.window key log key now,
            valid-counted after h,
            same,
          ))
        (λ k after e.
          let more : ℕ = if (key == k) && ltb after (now + rl.window) then 1 else 0 in
          let none_more : more ≡ 0 = rw e refl in
          omega (arith, recent-append_one after rl.window k log key now, none_more))

  Follows-swept :
      (clients : Dict Bytes (List ℕ)) (log' : List Request)
      → Follows rl.window now clients log'
      → Follows rl.window now
          (if ltb 1024 (length clients) then sweep now rl.window clients else clients)
          log'
  Follows-swept clients log' k =
      if_rule (λ (x : Dict Bytes (List ℕ)). Follows rl.window now x log')
        (ltb 1024 (length clients))
        (λ b. Follows-sweep rl.window now now clients log' (omega arith) k) (λ b. k)

  -- Allow answers as the reference does, and the table it leaves follows the requests admitted.
  allow_request-step :
      ((allow_request now key rl).1 ≡ ltb (recent now rl.window key log) rl.limit)
      × ((allow_request now key rl).0.limit ≡ rl.limit)
      × ((allow_request now key rl).0.window ≡ rl.window)
      × Follows rl.window now
          (allow_request now key rl).0.clients
          (if ltb (recent now rl.window key log) rl.limit then log ++ (key, now) ∷ [] else log)
  unfolding allow_request admit
  allow_request-step =
      let c : length valid ≡ recent now rl.window key log = f.counted key now l in
      elim (Bool-cases (leb rl.limit (length valid))) [
        | inl b ↦
            let r : ltb (recent now rl.window key log) rl.limit ≡ false = ground (arith, c) in
            rw (b, r) (refl, refl, refl, Follows-denied)
        | inr b ↦
            let r : ltb (recent now rl.window key log) rl.limit ≡ true = ground (arith, c) in
            rw (b, r)
              (
                refl,
                refl,
                refl,
                Follows-swept (put rl.clients key (valid ++ now ∷ [])) _ Follows-admitted,
              )
      ]

answers-Follows :
    (rl : RateLimiter) (now : ℕ) (log rs : List Request)
    → Follows rl.window now rl.clients log
    → IsOrdered now rs
    → answers rl rs ≡ reference rl.limit rl.window log rs
unfolding answers reference
answers-Follows rl now log [] f o = refl
answers-Follows rl now log ((key, t) ∷ rs) f o =
    let (e, el, ew, k) = allow_request-step rl now t key log o.0 f in
    let rl' = (allow_request t key rl).0 in
    let admitted = ltb (recent t rl.window key log) rl.limit in
    let log' = if admitted then log ++ (key, t) ∷ [] else log in
    let k' : Follows rl'.window t rl'.clients log' =
      subst (λ w. Follows w t rl'.clients log') (sym ew) k in
    ap (λ a. a ∷ answers rl' rs) e
    ∙ ap (λ (rest : List Bool). admitted ∷ rest)
        (answers-Follows rl' t log' rs k' o.1
          ∙ ap (λ m. reference m rl'.window log' rs) el
          ∙ ap (λ w. reference rl.limit w log' rs) ew)

-- A limiter that NewRateLimiter has made answers any requests, of any clients, with a clock that does
-- not go back, as a window over all the requests that it has admitted: a request is admitted exactly
-- where fewer than the limit of its client's admitted requests lie in the window before it.
pub answers-reference :
    (limit window : ℤ) (rs : List Request)
    → IsOrdered 0 rs
    → answers (new_rate_limiter limit window) rs
      ≡ reference (new_rate_limiter limit window).limit (new_rate_limiter limit window).window [] rs
unfolding new_rate_limiter get keys valid_of keep recent
answers-reference limit window rs o =
    answers-Follows (new_rate_limiter limit window) 0 [] rs
      (record { unique = tt; ordered = λ k. omega arith; counted = λ k later h. refl }) o
