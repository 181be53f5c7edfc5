-- ===== src/Wal/Torn.antt =====
-- A log file that ends anywhere: a batch whose write was cut by a crash loses the records that were
-- not fully written, and no other (internal/coordinator/offset_wal.go).
use pocketkafka.Prelude.{
  ℕ, zero, suc, ◌+◌, ◌-◌, ◌≤◌, ◌<◌, ◌≡◌, refl, ap, ◌∙◌, List, [], ◌∷◌, ◌++◌, arith, Bytes, length,
  take, ltb, ltb→lt, append-nil, length-append, length-take, take-append_right, All, if◌then◌else◌,
  if_rule,
}
use native.Mathlib.Decide.{dec_le}
use pocketkafka.Prelude.Words.{be_bytes, crc32c, length-be_bytes, read_full-append, read_full-short}
use pocketkafka.Wal.{
  WalRecord, wal_payload, encode_wal_record, eof, read_checksum, read_payload, next_record,
  finished, after, replay_loop, replay, encode_batch,
}
use pocketkafka.Wal.Codec.{IsEncodable}
use pocketkafka.Wal.Replay.{
  length-wal_payload, next_record-word, read_payload-fits, encode_wal_record-append,
  next_record-encode,
}

pub length-encode :
    (r : WalRecord) → IsEncodable r → length (encode_wal_record r) ≡ 8 + length (wal_payload r)
length-encode r v = omega (
  arith,
  ap length (append-nil (encode_wal_record r)),
  ap length (encode_wal_record-append r [] v),
  length-append {0} {A = ℕ},
  length-be_bytes,
)

-- Fewer than the four bytes of a length.
short_file : (bs : Bytes) → length bs < 4 → next_record bs ≡ eof
unfolding next_record
short_file bs h = rw (read_full-short 4 bs h, next_record)

short_payload :
    (n : ℕ) (p bs : Bytes)
    → 1 ≤ length p
    → length p ≤ 200000
    → n < length p
    → read_payload (length p) (take n bs) ≡ eof
short_payload n p bs lo hi h =
    read_payload-fits p (take n bs) lo hi
    ∙ rw (read_full-short (length p) (take n bs) (omega (arith, length-take n bs)))

short_checksum :
    (n : ℕ) (p bs : Bytes)
    → 1 ≤ length p
    → length p ≤ 200000
    → n < 4
    → read_payload (length p) (p ++ take n bs) ≡ eof
unfolding read_checksum
short_checksum n p bs lo hi h =
    read_payload-fits p (p ++ take n bs) lo hi
    ∙ rw (read_full-append (length p) p (take n bs) refl)
        (rw (read_full-short 4 (take n bs) (omega (arith, length-take n bs)), read_checksum))

-- A record that was not fully written ends the log.
next_record-torn :
    (n : ℕ) (r : WalRecord) (rest : Bytes)
    → IsEncodable r
    → n < length (encode_wal_record r)
    → next_record (take n (encode_wal_record r ++ rest)) ≡ eof
next_record-torn n r rest v h =
    let p = wal_payload r in
    let (lo, hi) = length-wal_payload r v in
    let tail : Bytes = be_bytes 4 (crc32c p) ++ rest in
    let size = length-encode r v in
    ap (λ bs. next_record (take n bs)) (encode_wal_record-append r rest v) ∙ elim (dec_le 4 n) [
      | no few ↦ short_file (take n _) (omega (arith, length-take {0} {A = ℕ}))
      | yes more ↦
          ap next_record (
            take-append_right n (be_bytes 4 (length p)) (p ++ tail)
              (omega (arith, length-be_bytes 4 (length p))))
          ∙ next_record-word (length p) _ (omega arith)
          ∙ elim (dec_le (length p) (n - length (be_bytes 4 (length p)))) [
            | no few ↦ short_payload _ p (p ++ tail) lo hi (omega arith)
            | yes enough ↦
                ap (read_payload (length p)) (take-append_right _ p tail enough)
                ∙ short_checksum _ p tail lo hi (omega (arith, length-be_bytes 4 (length p)))
          ]
    ]

-- The records that lie whole within the first `n` bytes of the batch.
unfoldable pub survivors : ℕ → List WalRecord → List WalRecord
survivors n [] = []
survivors n (r ∷ rs) =
    let rest = survivors (n - length (encode_wal_record r)) rs in
    if ltb n (length (encode_wal_record r)) then [] else r ∷ rest

replay_loop-torn :
    (f n : ℕ) (rs : List WalRecord)
    → All IsEncodable rs
    → length (take n (encode_batch rs)) < f
    → replay_loop f (take n (encode_batch rs)) ≡ finished (survivors n rs)
unfolding replay_loop survivors encode_batch
replay_loop-torn zero n rs v h = absurd (omega arith)
replay_loop-torn (suc f) n [] v h =
    let nothing : Bytes = [] in
    rw (short_file (take n nothing) (omega (arith, length-take n nothing)), replay_loop)
replay_loop-torn (suc f) n (r ∷ rs) v h =
    let size = length (encode_wal_record r) in
    if_rule (λ left. replay_loop (suc f) (take n (encode_batch (r ∷ rs))) ≡ finished left)
      (ltb n size)
      (λ e. rw (next_record-torn n r (encode_batch rs) v.0 (ltb→lt n size e), replay_loop))
      (λ e.
        let cut : take n (encode_batch (r ∷ rs))
            ≡ encode_wal_record r ++ take (n - size) (encode_batch rs) =
          take-append_right n (encode_wal_record r) (encode_batch rs) (ground arith) in
        let step = next_record-encode r (take (n - size) (encode_batch rs)) v.0 in
        let less : length (take (n - size) (encode_batch rs)) < f = omega (
          arith,
          h,
          ap length cut,
          length-encode r v.0,
          length-append (encode_wal_record r) (take (n - size) (encode_batch rs)),
        ) in
        rw cut (rw (step, replay_loop) (ap (after r) (replay_loop-torn f (n - size) rs v.1 less))))

-- A log file holds a batch that appendBatch wrote, cut after its first `n` bytes: replay returns no
-- error and hands over exactly the records that lie whole within those bytes, in their order.
pub replay-torn :
    (n : ℕ) (rs : List WalRecord)
    → All IsEncodable rs
    → replay (take n (encode_batch rs)) ≡ finished (survivors n rs)
unfolding replay
replay-torn n rs v = replay_loop-torn _ n rs v (omega arith)

pub survivors_all :
    (n : ℕ) (rs : List WalRecord) → length (encode_batch rs) ≤ n → survivors n rs ≡ rs
unfolding survivors encode_batch
survivors_all n [] h = refl
survivors_all n (r ∷ rs) h = ground (
  arith,
  length-append (encode_wal_record r) (encode_batch rs),
  survivors_all (n - length (encode_wal_record r)) rs,
)
