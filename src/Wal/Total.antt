-- ===== src/Wal/Total.antt =====
-- Replay ends on every file (internal/coordinator/offset_wal.go).
use pocketkafka.Prelude.{
  ℕ, zero, suc, ◌+◌, ◌≤◌, ◌<◌, ◌≡◌, ◌≢◌, refl, ap, some, arith, Bytes, length, length-drop,
  Option-cases, if_rule, ltb, ◌||◌, ◌==◌, nat_eq, inl, inr, ◌⊎◌,
}
use pocketkafka.Prelude.Words.{read_full, be_value}
use pocketkafka.Wal.{
  WalRecord, WalError, Next, eof, corrupt, got, check_record, read_checksum, read_payload,
  next_record, Replayed, finished, failed, out_of_fuel, after, replay_loop, replay,
  max_wal_record_size,
}

read_full-shorter :
    (k : ℕ) (bs xs rest : Bytes) → read_full k bs ≡ some (xs, rest) → length rest + k ≤ length bs
unfolding read_full
read_full-shorter k bs xs rest e = ground (arith, length-drop k bs)

check_record-rest :
    (p : Bytes) (c : ℕ) (bs : Bytes) (r : WalRecord) (rest : Bytes)
    → check_record p c bs ≡ got r rest
    → rest ≡ bs
unfolding check_record
check_record-rest p c bs r rest e = ground arith

read_checksum-shorter :
    (p bs : Bytes) (r : WalRecord) (rest : Bytes)
    → read_checksum p bs ≡ got r rest
    → length rest < length bs
unfolding read_checksum
read_checksum-shorter p bs r rest e = elim (Option-cases (read_full 4 bs)) [
  | inl n ↦ absurd (cc (rw (n, read_checksum) at e))
  | inr ((c, bs'), n) ↦
      let e' : check_record p (be_value c) bs' ≡ got r rest = rw (n, read_checksum) at e in
      omega (
        arith,
        read_full-shorter 4 bs c bs' n,
        ap length (check_record-rest p (be_value c) bs' r rest e'),
      )
]

read_payload-shorter :
    (k : ℕ) (bs : Bytes) (r : WalRecord) (rest : Bytes)
    → read_payload k bs ≡ got r rest
    → length rest < length bs
unfolding read_payload
read_payload-shorter k bs r rest =
    if_rule (λ (x : Next). x ≡ got r rest → length rest < length bs)
      (k == 0 || ltb max_wal_record_size k) (λ b e. absurd (cc e))
      (λ b e. elim (Option-cases (read_full k bs)) [
        | inl n ↦ absurd (cc (rw n at e))
        | inr ((p, bs'), n) ↦
            let e' : read_checksum p bs' ≡ got r rest = rw n at e in
            omega (arith, read_full-shorter k bs p bs' n, read_checksum-shorter p bs' r rest e')
      ])

next_record-shorter :
    (bs : Bytes) (r : WalRecord) (rest : Bytes)
    → next_record bs ≡ got r rest
    → length rest < length bs
unfolding next_record
next_record-shorter bs r rest e = elim (Option-cases (read_full 4 bs)) [
  | inl n ↦ absurd (cc (rw (n, next_record) at e))
  | inr ((c, bs'), n) ↦
      let e' : read_payload (be_value c) bs' ≡ got r rest = rw (n, next_record) at e in
      omega (arith, read_full-shorter 4 bs c bs' n, read_payload-shorter (be_value c) bs' r rest e')
]

Next-cases :
    (x : Next)
    → (x ≡ eof)
      ⊎ ((e : WalError) × (x ≡ corrupt e))
      ⊎ ((r : WalRecord) × (bs : Bytes) × (x ≡ got r bs))
Next-cases eof = inl refl
Next-cases (corrupt e) = inr (inl (e, refl))
Next-cases (got r bs) = inr (inr (r, bs, refl))

after-ne : (r : WalRecord) (x : Replayed) → x ≢ out_of_fuel → after r x ≢ out_of_fuel
after-ne r (finished rs) h = λ e. cc
after-ne r (failed rs e) h = λ p. cc
after-ne r out_of_fuel h = absurd (h refl)

replay_loop-ne-out_of_fuel : (f : ℕ) (bs : Bytes) → length bs < f → replay_loop f bs ≢ out_of_fuel
unfolding replay_loop
replay_loop-ne-out_of_fuel zero bs h = absurd (omega arith)
replay_loop-ne-out_of_fuel (suc f) bs h = elim (Next-cases (next_record bs)) [
  | inl e ↦ rw (e, replay_loop) (λ p. cc)
  | inr (inl (x, e)) ↦ rw (e, replay_loop) (λ p. cc)
  | inr (inr (r, rest, e)) ↦
      rw (e, replay_loop)
        (after-ne r _
          (replay_loop-ne-out_of_fuel f rest (omega (arith, next_record-shorter bs r rest e))))
]

-- Replay of any file at all ends, with no error or with one: its rounds are never used up.
pub replay-ne-out_of_fuel : (bs : Bytes) → replay bs ≢ out_of_fuel
unfolding replay
replay-ne-out_of_fuel bs = replay_loop-ne-out_of_fuel (suc (length bs)) bs (omega arith)
