-- ===== src/Limits/Window/Clients.antt =====
-- The table of a limiter's clients, and the requests that it has admitted
-- (internal/fleet/ratelimit.go).
use pocketkafka.Prelude.{
  ℕ, ◌≤◌, ◌≡◌, refl, ap, sym, ◌∙◌, true, false, Option, List, [], ◌∷◌, Bytes, bytes_eq, ◌==◌,
  length, arith, if_rule, if◌then◌else◌, Bool-cases, Option-cases, inl, inr, beq→eq, subst,
}
use pocketkafka.Prelude.Lists.{keep}
use pocketkafka.Prelude.Dict.{
  Dict, get, put, has, get-put, elem, keys, keys-put, is_some, has-get, has-keys, IsUnique,
  IsUnique-append_one,
}
use pocketkafka.Offsets.{or_new}
use pocketkafka.Limits.{valid_of, is_idle, sweep}
use pocketkafka.Limits.Window.{Request, recent}
use pocketkafka.Limits.Window.Times.{Between, Between-now, valid_of_idle}

abbrev pub times : Dict Bytes (List ℕ) → Bytes → List ℕ
times clients key = or_new (get clients key)

-- The table at the time `now` says of every client what the admitted requests say.
pub record Follows (window now : ℕ) (clients : Dict Bytes (List ℕ)) (log : List Request)
    : Type 0 where
  pub unique : IsUnique (keys clients)
  pub ordered : (key : Bytes) → Between 0 (times clients key) now
  pub counted :
      (key : Bytes) (later : ℕ)
      → now ≤ later
      → length (valid_of later window (times clients key)) ≡ recent later window key log

pub times_absent :
    (clients : Dict Bytes (List ℕ)) (key : Bytes)
    → elem key (keys clients) ≡ false
    → times clients key ≡ []
times_absent clients key h = elim (Option-cases (get clients key)) [
  | inl n ↦ ap or_new n
  | inr (ts, n) ↦
      let e : is_some (get clients key) ≡ false =
        sym (has-get clients key) ∙ has-keys clients key ∙ h in
      let e' : true ≡ false = ap is_some (sym n) ∙ e in absurd (cc e')
]

pub get-sweep :
    (now window : ℕ) (clients : Dict Bytes (List ℕ)) (key : Bytes)
    → IsUnique (keys clients)
    → times (sweep now window clients) key
      ≡ (if is_idle now window (times clients key) then [] else times clients key)
unfolding sweep get is_idle keys
get-sweep now window [] key u = refl
get-sweep now window ((j, ts) ∷ d) key u =
    let ih = get-sweep now window d key u.1 in
    elim (Bool-cases (j == key)) [
      | inl b ↦
          let absent : times d key ≡ [] =
            times_absent d key (ap (λ k. elem k (keys d)) (sym (beq→eq j key b)) ∙ u.0) in
          elim (Bool-cases (is_idle now window ts)) [
            | inl i ↦
                rw (b, i)
                  (ih ∙ ap (λ (xs : List ℕ). if is_idle now window xs then [] else xs) absent)
            | inr i ↦ rw (i, b, i) refl
          ]
      | inr b ↦ elim (Bool-cases (is_idle now window ts)) [
        | inl i ↦ rw (i, b) ih
        | inr i ↦ rw (i, b) ih
      ]
    ]

elem-keys-sweep :
    (now window : ℕ) (clients : Dict Bytes (List ℕ)) (key : Bytes)
    → elem key (keys clients) ≡ false
    → elem key (keys (sweep now window clients)) ≡ false
unfolding sweep keys elem
elem-keys-sweep now window [] key h = refl
elem-keys-sweep now window ((j, ts) ∷ d) key h = ground (arith, elem-keys-sweep now window d key)

pub sweep-IsUnique :
    (now window : ℕ) (clients : Dict Bytes (List ℕ))
    → IsUnique (keys clients)
    → IsUnique (keys (sweep now window clients))
unfolding sweep keys
sweep-IsUnique now window [] u = tt
sweep-IsUnique now window ((j, ts) ∷ d) u =
    if_rule (λ (x : Dict Bytes (List ℕ)). IsUnique (keys x)) (is_idle now window ts)
      (λ b. sweep-IsUnique now window d u.1)
      (λ b. (elem-keys-sweep now window d j u.0, sweep-IsUnique now window d u.1))

pub put-IsUnique :
    (d : Dict Bytes (List ℕ)) (key : Bytes) (ts : List ℕ)
    → IsUnique (keys d)
    → IsUnique (keys (put d key ts))
put-IsUnique d key ts u = subst IsUnique (sym (keys-put d key ts)) (
    if_rule IsUnique (has d key) (λ b. u)
      (λ b. IsUnique-append_one key (keys d) (sym (has-keys d key) ∙ b) u))

module _ (window now later : ℕ) (clients : Dict Bytes (List ℕ)) (log : List Request)
    (l : now ≤ later) (f : Follows window now clients log) where
  -- The client's times are written, and the log grows by requests of that client.
  pub Follows-put :
      (key : Bytes) (ts : List ℕ) (log' : List Request)
      → Between 0 ts later
      → ((after : ℕ)
          → later ≤ after
          → length (valid_of after window ts) ≡ recent after window key log')
      → ((k : Bytes) (after : ℕ)
          → (key == k) ≡ false
          → recent after window k log' ≡ recent after window k log)
      → Follows window later (put clients key ts) log'
  Follows-put key ts log' b c o = record {
    unique = put-IsUnique clients key ts f.unique;
    ordered = λ k.
        subst (λ (x : Option (List ℕ)). Between 0 (or_new x) later) (sym (get-put clients key k ts))
          (elim (Bool-cases (key == k)) [
            | inl e ↦ rw e b
            | inr e ↦ rw e (Between-now 0 (times clients k) now later l (f.ordered k))
          ]);
    counted = λ k after h.
        subst
          (λ (x : Option (List ℕ)).
            length (valid_of after window (or_new x)) ≡ recent after window k log')
          (sym (get-put clients key k ts))
          (elim (Bool-cases (key == k)) [
            | inl e ↦ rw e (c after h ∙ ap (λ j. recent after window j log') (beq→eq key k e))
            | inr e ↦ rw e (f.counted k after (omega arith) ∙ sym (o k after e))
          ]);
  }

  swept_counted :
      (key : Bytes) (after : ℕ)
      → later ≤ after
      → is_idle later window (times clients key) ≡ true
      → length (valid_of after window []) ≡ recent after window key log
  unfolding valid_of keep
  swept_counted key after h b =
      sym (
        ap length (
          valid_of_idle later after window 0 (times clients key) h
            (Between-now 0 (times clients key) now later l (f.ordered key)) b))
      ∙ f.counted key after (omega arith)

  pub Follows-sweep : Follows window later (sweep later window clients) log
  Follows-sweep = record {
    unique = sweep-IsUnique later window clients f.unique;
    ordered = λ k.
        subst (λ (x : List ℕ). Between 0 x later) (sym (get-sweep later window clients k f.unique))
          (if_rule (λ (x : List ℕ). Between 0 x later) (is_idle later window (times clients k))
            (λ b. omega arith) (λ b. Between-now 0 (times clients k) now later l (f.ordered k)));
    counted = λ k after h.
        subst (λ (x : List ℕ). length (valid_of after window x) ≡ recent after window k log)
          (sym (get-sweep later window clients k f.unique))
          (elim (Bool-cases (is_idle later window (times clients k))) [
            | inl b ↦ rw b (swept_counted k after h b)
            | inr b ↦ rw b (f.counted k after (omega arith))
          ]);
  }
