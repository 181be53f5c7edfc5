-- ===== src/Wal/Behind.antt =====
-- Bytes that are appended to a log file which ends within a record: openWAL opens the file to append,
-- and replay leaves what was not fully written in it (internal/coordinator/offset_wal.go).
use pocketkafka.Prelude.{
  ℕ, zero, suc, ◌+◌, ◌-◌, ◌≤◌, ◌<◌, ◌≡◌, ap, sym, ◌∙◌, List, [], ◌∷◌, ◌++◌, arith, Bytes, length,
  take, drop, append_assoc, append-nil, length-append, length-take, length-drop, take-append_right,
  All,
}
use pocketkafka.Prelude.Words.{be_bytes, read_full, crc32c, length-be_bytes, read_full-short}
use pocketkafka.Wal.{
  WalRecord, wal_payload, encode_wal_record, eof, read_checksum, read_payload, next_record,
  finished, after, replay_loop, replay, encode_batch,
}
use pocketkafka.Wal.Codec.{IsEncodable}
use pocketkafka.Wal.Replay.{
  length-wal_payload, next_record-word, read_payload-fits, encode_wal_record-append,
  next_record-encode,
}
use pocketkafka.Wal.Torn.{length-encode}

read_checksum-short : (p bs : Bytes) → length bs < 4 → read_checksum p bs ≡ eof
unfolding read_checksum
read_checksum-short p bs h = rw (read_full-short 4 bs h, read_checksum)

-- Fewer bytes than a payload of that length and its checksum.
read_payload-short :
    (p bs : Bytes)
    → 1 ≤ length p
    → length p ≤ 200000
    → length bs < length p + 4
    → read_payload (length p) bs ≡ eof
unfolding read_full
read_payload-short p bs lo hi h =
    read_payload-fits p bs lo hi
    ∙ ground (
      arith,
      read_checksum-short (take (length p) bs) (drop (length p) bs),
      length-drop (length p) bs,
    )

-- Behind the first bytes of a record, its length among them, other bytes that do not make up for the
-- missing ones are taken for a part of it.
next_record-behind :
    (n : ℕ) (r : WalRecord) (ys : Bytes)
    → IsEncodable r
    → 4 ≤ n
    → n + length ys < length (encode_wal_record r)
    → next_record (take n (encode_wal_record r) ++ ys) ≡ eof
next_record-behind n r ys v h k =
    let p = wal_payload r in
    let (lo, hi) = length-wal_payload r v in
    let tail : Bytes = p ++ (be_bytes 4 (crc32c p) ++ []) in
    let cut : take n (encode_wal_record r) ≡ be_bytes 4 (length p) ++ take (n - 4) tail =
      ap (take n) (sym (append-nil (encode_wal_record r)) ∙ encode_wal_record-append r [] v)
      ∙ take-append_right n (be_bytes 4 (length p)) tail
          (omega (arith, length-be_bytes 4 (length p)))
      ∙ ap (λ j. be_bytes 4 (length p) ++ take (n - j) tail) (length-be_bytes 4 (length p)) in
    ap (λ bs. next_record (bs ++ ys)) cut
    ∙ ap next_record (append_assoc (be_bytes 4 (length p)) (take (n - 4) tail) ys)
    ∙ next_record-word (length p) _ (omega arith)
    ∙ read_payload-short p _ lo hi (
        omega (
          arith,
          k,
          length-encode r v,
          length-append (take (n - 4) tail) ys,
          length-take (n - 4) tail,
        ))

replay_loop-end :
    (f : ℕ) (rs : List WalRecord) (bs : Bytes)
    → All IsEncodable rs
    → next_record bs ≡ eof
    → length (encode_batch rs ++ bs) < f
    → replay_loop f (encode_batch rs ++ bs) ≡ finished rs
unfolding replay_loop encode_batch
replay_loop-end zero rs bs v e h = absurd (omega arith)
replay_loop-end (suc f) [] bs v e h = rw (e, replay_loop)
replay_loop-end (suc f) (r ∷ rs) bs v e h =
    let split = append_assoc (encode_wal_record r) (encode_batch rs) bs in
    let less : length (encode_batch rs ++ bs) < f = omega (
      arith,
      h,
      ap length split,
      length-encode r v.0,
      length-append (encode_wal_record r) (encode_batch rs ++ bs),
    ) in
    rw split (
      rw (next_record-encode r (encode_batch rs ++ bs) v.0, replay_loop)
        (ap (after r) (replay_loop-end f rs bs v.1 e less)))

-- A log file that ends within a record `r`, past its length field, and has had `ys` appended behind
-- it, which are fewer bytes than `r` misses: replay returns no error and hands over the records before
-- `r` and no other, so none that `ys` holds.
pub replay-behind_torn :
    (n : ℕ) (rs : List WalRecord) (r : WalRecord) (ys : Bytes)
    → All IsEncodable rs
    → IsEncodable r
    → 4 ≤ n
    → n + length ys < length (encode_wal_record r)
    → replay (encode_batch rs ++ (take n (encode_wal_record r) ++ ys)) ≡ finished rs
unfolding replay
replay-behind_torn n rs r ys v w h k =
    replay_loop-end _ rs _ v (next_record-behind n r ys w h k) (omega arith)
