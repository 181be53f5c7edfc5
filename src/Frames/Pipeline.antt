-- ===== src/Frames/Pipeline.antt =====
-- Requests one behind the other on a connection (pkg/protocol/frame.go).
use pocketkafka.Prelude.{
  ℕ, ◌^◌, ◌<◌, ◌≤◌, ◌≡◌, ◌⊎◌, ◌∙◌, refl, arith, ap, append_assoc, Bytes, some, ◌++◌, length,
}
use pocketkafka.Prelude.Ints.{pos, signed}
use pocketkafka.Prelude.Words.{
  be_bytes, be_value, length-be_bytes, be_value-be_bytes, read_full, read_full-append,
}
use pocketkafka.Prelude.Lists.{length-append}
use pocketkafka.Frames.{
  RequestHeader, frame, read_int16, read_int32, string_of, read_string, decode_request_header,
  framed, payload_frame, sized_frame, read_request_frame,
}

-- The header of a request as Kafka's protocol lays it out.
unfoldable pub header_bytes : ℕ → ℕ → ℕ → Bytes → Bytes
header_bytes key version id client =
    be_bytes 2 key
    ++ (be_bytes 2 version ++ (be_bytes 4 id ++ (be_bytes 2 (length client) ++ client)))

read_int16-be_bytes :
    (v : ℕ) (rest : Bytes)
    → v < 2 ^ 16
    → read_int16 (be_bytes 2 v ++ rest) ≡ some (signed 16 v, rest)
unfolding read_int16
read_int16-be_bytes v rest l =
    rw (read_full-append 2 (be_bytes 2 v) rest (length-be_bytes 2 v), be_value-be_bytes 2 v l) refl

read_int32-be_bytes :
    (v : ℕ) (rest : Bytes)
    → v < 2 ^ 32
    → read_int32 (be_bytes 4 v ++ rest) ≡ some (signed 32 v, rest)
unfolding read_int32
read_int32-be_bytes v rest l =
    rw (read_full-append 4 (be_bytes 4 v) rest (length-be_bytes 4 v), be_value-be_bytes 4 v l) refl

signed_16-lt : (v : ℕ) → v < 2 ^ 15 → signed 16 v ≡ pos v
unfolding signed
signed_16-lt v h = ground (arith, ap pos)

read_string-bytes :
    (bs rest : Bytes)
    → length bs < 2 ^ 15
    → read_string ((be_bytes 2 (length bs) ++ bs) ++ rest) ≡ some (bs, rest)
unfolding read_string string_of
read_string-bytes bs rest l =
    rw
      (
        append_assoc (be_bytes 2 (length bs)) bs rest,
        read_int16-be_bytes (length bs) (bs ++ rest) (omega (arith, l)),
        signed_16-lt (length bs) l,
      )
      (read_full-append (length bs) bs rest refl)

abbrev pub request_header : ℕ → ℕ → ℕ → Bytes → RequestHeader
request_header key version id client = record {
  api_key = signed 16 key;
  api_version = signed 16 version;
  correlation_id = signed 32 id;
  client_id = client;
}

payload_frame-append :
    (p next body : Bytes) (h : RequestHeader)
    → decode_request_header p ≡ some (h, body)
    → payload_frame (length p) (p ++ next) ≡ frame h body next
unfolding payload_frame framed
payload_frame-append p next body h e =
    rw (read_full-append (length p) p next refl, payload_frame, e) refl

read_request_frame-sized_frame :
    (max_size : ℕ) (bs n rest : Bytes)
    → read_full 4 bs ≡ some (n, rest)
    → read_request_frame max_size bs ≡ sized_frame max_size (be_value n) rest
unfolding read_request_frame
read_request_frame-sized_frame max_size bs n rest e = rw (e, read_request_frame) refl

sized_frame-payload :
    (max_size size : ℕ) (bs : Bytes)
    → 0 < size
    → (max_size ≡ 0) ⊎ (size ≤ max_size)
    → sized_frame max_size size bs ≡ payload_frame size bs
unfolding sized_frame
sized_frame-payload max_size size bs l m = ground (arith, m)

module _ (key version id : ℕ) (client body : Bytes) (k : key < 2 ^ 16) (v : version < 2 ^ 16)
    (i : id < 2 ^ 32) (c : length client < 2 ^ 15) where
  decode_request_header-bytes :
      decode_request_header (header_bytes key version id client ++ body)
      ≡ some (request_header key version id client, body)
  unfolding decode_request_header header_bytes
  decode_request_header-bytes =
      let name = be_bytes 2 (length client) ++ client in
      let three = be_bytes 4 id ++ name in
      let two = be_bytes 2 version ++ three in
      rw
        (
          append_assoc (be_bytes 2 key) two body,
          read_int16-be_bytes key (two ++ body) k,
          append_assoc (be_bytes 2 version) three body,
          read_int16-be_bytes version (three ++ body) v,
          append_assoc (be_bytes 4 id) name body,
          read_int32-be_bytes id (name ++ body) i,
          read_string-bytes client body c,
        )
        refl

  payload-nonempty : 0 < length (header_bytes key version id client ++ body)
  unfolding header_bytes
  payload-nonempty =
      let rest = be_bytes 2 version ++ (be_bytes 4 id ++ (be_bytes 2 (length client) ++ client)) in
      omega (
        arith,
        length-append (be_bytes 2 key ++ rest) body,
        length-append (be_bytes 2 key) rest,
        length-be_bytes 2 key,
      )

  -- A request on a connection, with anything behind it, is read back with its header and its body,
  -- and what is behind it is left for the next request. The key, the version and the correlation
  -- id are words of 2, 2 and 4 bytes, the client id is shorter than 2 ^ 15, and the length of the
  -- frame is below 2 ^ 32 and at most the maximum, where that is not 0.
  pub read_request_frame-frame :
      (max_size : ℕ) (next : Bytes)
      → length (header_bytes key version id client ++ body) < 2 ^ 32
      → (max_size ≡ 0) ⊎ (length (header_bytes key version id client ++ body) ≤ max_size)
      → read_request_frame max_size (
          be_bytes 4 (length (header_bytes key version id client ++ body))
          ++ ((header_bytes key version id client ++ body) ++ next))
        ≡ frame (request_header key version id client) body next
  read_request_frame-frame max_size next l m =
      let p = header_bytes key version id client ++ body in
      let size = be_bytes 4 (length p) in
      read_request_frame-sized_frame max_size _ size (p ++ next)
        (read_full-append 4 size (p ++ next) (length-be_bytes 4 (length p)))
      ∙ ap (λ n. sized_frame max_size n (p ++ next)) (be_value-be_bytes 4 (length p) l)
      ∙ sized_frame-payload max_size (length p) (p ++ next) payload-nonempty m
      ∙ payload_frame-append p next body _ decode_request_header-bytes
