-- ===== src/Producers/Epochs.antt =====
-- What the manager's identifiers and epochs promise (internal/coordinator/producer.go).
use pocketkafka.Prelude.{
  ℕ, suc, ◌≤◌, ◌<◌, ◌≡◌, refl, ap, sym, ◌∙◌, true, false, not, ◌&&◌, Option, none, some, [], Bytes,
  bytes_eq, ◌==◌, if◌then◌else◌, arith, inl, inr, ◌⊎◌, Option-cases, Bool-cases, beq→eq, beq_refl,
  if_rule, Ensures,
}
use pocketkafka.Prelude.Ints.{ℤ, pos, int_eq, eqb_ℤ_iff, inc_wrapping, inc_wrapping-ne, max_int16}
use pocketkafka.Prelude.Dict.{get, put, get-put}
use pocketkafka.Producers.{
  ProducerState, ProducerIdManager, Issued, max_int64, issue, raise_epoch, next_transactional, next,
  validate_state, validate,
}

-- A transactional identifier has the producer whose state names it, and no state names one that has
-- another; the identifiers that have a state have been issued.
pub record IsSound (m : ProducerIdManager) : Type 0 where
  pub last : ℕ
  pub counted : m.last_pid ≡ pos last
  pub owned :
      (txn : Bytes) (pid : ℤ)
      → get m.by_txn_id txn ≡ some pid
      → (st : ProducerState) × (get m.by_id pid ≡ some st)
        × (st.transactional_id ≡ txn)
        × ((txn == []) ≡ false)
  pub owner :
      (pid : ℤ) (st : ProducerState)
      → get m.by_id pid ≡ some st
      → (st.transactional_id == []) ≡ false
      → get m.by_txn_id st.transactional_id ≡ some pid
  pub issued :
      (pid : ℤ) (st : ProducerState)
      → get m.by_id pid ≡ some st
      → (n : ℕ) × (pid ≡ pos n) × (n ≤ last)

next_pid :
    (m : ProducerIdManager) (w : IsSound m)
    → w.last < max_int64
    → inc_wrapping max_int64 m.last_pid ≡ pos (suc w.last)
unfolding inc_wrapping
next_pid m w h = rw w.counted (ground arith)

-- The next identifier is that of no state.
next_pid-fresh :
    (m : ProducerIdManager) (w : IsSound m) (k : ℤ) (st : ProducerState)
    → get m.by_id k ≡ some st
    → (pos (suc w.last) == k) ≡ false
next_pid-fresh m w k st e = let (n, p, q) = w.issued k st e in rw p (ground arith)

put-old :
    (m : ProducerIdManager) (w : IsSound m) (v : ProducerState) (k : ℤ) (st : ProducerState)
    → get m.by_id k ≡ some st
    → get (put m.by_id (pos (suc w.last)) v) k ≡ some st
put-old m w v k st e = get-put m.by_id (pos (suc w.last)) k v ∙ rw (next_pid-fresh m w k st e) e

put-cases :
    (m : ProducerIdManager) (pid k : ℤ) (v st : ProducerState)
    → get (put m.by_id pid v) k ≡ some st
    → ((pid ≡ k) × (v ≡ st)) ⊎ (((pid == k) ≡ false) × (get m.by_id k ≡ some st))
put-cases m pid k v st e = elim (Bool-cases (pid == k)) [
  | inl same ↦ inl (beq→eq pid k same, cc (rw same at (sym (get-put m.by_id pid k v) ∙ e)))
  | inr other ↦ inr (other, rw other at (sym (get-put m.by_id pid k v) ∙ e))
]

-- The table of the transactional identifiers after one is issued.
get-issue :
    (txn t : Bytes) (m : ProducerIdManager) (pid : ℤ)
    → get (if txn == [] then m.by_txn_id else put m.by_txn_id txn pid) t
      ≡ (if not (txn == []) && (txn == t) then some pid else get m.by_txn_id t)
get-issue txn t m pid = ground (arith, get-put m.by_txn_id txn t pid)

issue-IsSound :
    (txn : Bytes) (m : ProducerIdManager) (w : IsSound m)
    → get m.by_txn_id txn ≡ none
    → w.last < max_int64
    → IsSound (issue txn m).0
unfolding issue
issue-IsSound txn m w unused h =
    let made : ProducerState = record { transactional_id = txn; epoch = pos 0 } in
    let pid : ℤ = pos (suc w.last) in
    rw (next_pid m w h) (record {
      last = suc w.last;
      counted = refl;
      owned = λ t k e. elim (Bool-cases (not (txn == []) && (txn == t))) [
        | inl c ↦
            let k_pid : pid ≡ k = cc (rw c at (sym (get-issue txn t m pid) ∙ e)) in
            (
              made,
              ap (get (put m.by_id pid made)) (sym k_pid)
                  ∙ get-put m.by_id pid pid made
                  ∙ rw (beq_refl pid) refl,
              beq→eq txn t (ground arith),
              ap (λ (x : Bytes). x == []) (sym (beq→eq txn t (ground arith))) ∙ ground arith,
            )
        | inr c ↦
            let (st, f, g, i) = w.owned t k (rw c at (sym (get-issue txn t m pid) ∙ e)) in
            (st, put-old m w made k st f, g, i)
      ];
      owner = λ k st e f. elim (put-cases m pid k made st e) [
        | inl (a, b) ↦
            let same : txn ≡ st.transactional_id =
              ap (λ (x : ProducerState). x.transactional_id) b in
            let named : (txn == []) ≡ false = ap (λ (x : Bytes). x == []) same ∙ f in
            get-issue txn st.transactional_id m pid
            ∙ rw (sym same) (ground (arith, named, beq_refl txn, a))
        | inr (a, b) ↦
            get-issue txn st.transactional_id m pid
            ∙ ground (arith, w.owner k st b f, beq→eq txn st.transactional_id, unused)
      ];
      issued = λ k st e. elim (put-cases m pid k made st e) [
        | inl (a, b) ↦ (suc w.last, sym a, omega arith)
        | inr (a, b) ↦ let (n, p, q) = w.issued k st b in (n, p, omega arith)
      ];
    })

raise_epoch-IsSound :
    (m : ProducerIdManager) (w : IsSound m) (pid : ℤ) (st : ProducerState)
    → get m.by_id pid ≡ some st
    → Ensures (λ (r : Issued). IsSound r.0) (raise_epoch m pid (some st))
unfolding raise_epoch
raise_epoch-IsSound m w pid st e =
    let raised : ProducerState = record st { epoch = inc_wrapping max_int16 st.epoch } in
    record {
      last = w.last;
      counted = w.counted;
      owned = λ t k f.
          let (st', f', g, i) = w.owned t k f in
          elim (Bool-cases (pid == k)) [
            | inl c ↦
                let same : st ≡ st' = cc (sym e ∙ ap (get m.by_id) (beq→eq pid k c) ∙ f') in
                (
                  raised,
                  get-put m.by_id pid k raised ∙ rw c refl,
                  ap (λ (x : ProducerState). x.transactional_id) same ∙ g,
                  i,
                )
            | inr c ↦ (st', get-put m.by_id pid k raised ∙ rw c f', g, i)
          ];
      owner = λ k st' f g. elim (put-cases m pid k raised st' f) [
        | inl (a, b) ↦
            let same : st.transactional_id ≡ st'.transactional_id =
              ap (λ (x : ProducerState). x.transactional_id) b in
            rw (sym same) (w.owner pid st e (ap (λ (x : Bytes). x == []) same ∙ g) ∙ ap some a)
        | inr (a, b) ↦ w.owner k st' b g
      ];
      issued = λ k st' f. elim (put-cases m pid k raised st' f) [
        | inl (a, b) ↦ let (n, p, q) = w.issued pid st e in (n, sym a ∙ p, q)
        | inr (a, b) ↦ w.issued k st' b
      ];
    }

no_empty_owner : (m : ProducerIdManager) (w : IsSound m) → get m.by_txn_id [] ≡ none
no_empty_owner m w = elim (Option-cases (get m.by_txn_id [])) [
  | inl e ↦ e
  | inr (pid, e) ↦
      let (st, f, g, i) = w.owned [] pid e in absurd (ground (arith, i, beq_refl {K = Bytes} []))
]

-- A manager that is sound and has not issued the greatest identifier does not panic in Next, and is
-- sound after it.
pub next-IsSound :
    (txn : Option Bytes) (m : ProducerIdManager) (w : IsSound m)
    → w.last < max_int64
    → Ensures (λ (r : Issued). IsSound r.0) (next txn m)
unfolding next next_transactional
next-IsSound none m w h = issue-IsSound [] m w (no_empty_owner m w) h
next-IsSound (some txn) m w h =
    if_rule (Ensures (λ (r : Issued). IsSound r.0)) (txn == [])
      (λ e. issue-IsSound [] m w (no_empty_owner m w) h)
      (λ e. elim (Option-cases (get m.by_txn_id txn)) [
        | inl f ↦ rw (f, next_transactional) (issue-IsSound txn m w f h)
        | inr (pid, f) ↦
            let (st, g, i, j) = w.owned txn pid f in
            rw (f, next_transactional) (rw g (raise_epoch-IsSound m w pid st g))
      ])

raise_epoch-fences :
    (txn : Bytes) (m : ProducerIdManager) (pid epoch : ℤ) (st : ProducerState)
    → st.transactional_id ≡ txn
    → st.epoch ≡ epoch
    → (m' : ProducerIdManager) × (epoch' : ℤ) × (raise_epoch m pid (some st)
        ≡ some (m', (pid, epoch')))
      × (validate txn pid epoch m' ≡ false)
      × (validate txn pid epoch' m' ≡ true)
unfolding raise_epoch validate validate_state
raise_epoch-fences txn m pid epoch st t e =
    let epoch' = inc_wrapping max_int16 st.epoch in
    let raised : ProducerState = record st { epoch = epoch' } in
    let found : get (put m.by_id pid raised) pid ≡ some raised =
      get-put m.by_id pid pid raised ∙ rw (beq_refl pid) refl in
    (
      record m { by_id = put m.by_id pid raised },
      epoch',
      refl,
      rw (found, validate)
          (ground (arith, inc_wrapping-ne max_int16 st.epoch, eqb_ℤ_iff epoch' epoch)),
      rw (found, validate) (ground (arith, beq_refl epoch', beq_refl txn)),
    )

next_transactional-found :
    (txn : Bytes) (m : ProducerIdManager) (pid : ℤ)
    → get m.by_txn_id txn ≡ some pid
    → next_transactional txn m ≡ raise_epoch m pid (get m.by_id pid)
unfolding next_transactional
next_transactional-found txn m pid e = rw (e, next_transactional) refl

validate_state-names :
    (txn : Bytes) (epoch : ℤ) (st : ProducerState)
    → (txn == []) ≡ false
    → validate_state txn epoch st ≡ true
    → (st.transactional_id ≡ txn) × (st.epoch ≡ epoch)
unfolding validate_state
validate_state-names txn epoch st h v =
    (beq→eq st.transactional_id txn (ground arith), beq→eq st.epoch epoch (ground arith))

-- Where Validate accepts a transactional identifier that is not empty with an identifier and an epoch,
-- Next for that transactional identifier keeps the identifier and gives an epoch that Validate
-- accepts, and Validate no longer accepts the epoch from before it.
pub next-fences :
    (txn : Bytes) (m : ProducerIdManager) (pid epoch : ℤ)
    → IsSound m
    → (txn == []) ≡ false
    → validate txn pid epoch m ≡ true
    → (m' : ProducerIdManager) × (epoch' : ℤ) × (next (some txn) m ≡ some (m', (pid, epoch')))
      × (validate txn pid epoch m' ≡ false)
      × (validate txn pid epoch' m' ≡ true)
unfolding next validate
next-fences txn m pid epoch w h v = elim (Option-cases (get m.by_id pid)) [
  | inl e ↦ absurd (cc (rw (e, validate) at v))
  | inr (st, e) ↦
      let (t, same) = validate_state-names txn epoch st h (rw (e, validate) at v) in
      let owner : get m.by_txn_id txn ≡ some pid =
        ap (get m.by_txn_id) (sym t) ∙ w.owner pid st e (ap (λ (x : Bytes). x == []) t ∙ h) in
      let (m', epoch', raised, old, new) = raise_epoch-fences txn m pid epoch st t same in
      (
        m',
        epoch',
        rw h (next_transactional-found txn m pid owner ∙ ap (raise_epoch m pid) e ∙ raised),
        old,
        new,
      )
]
