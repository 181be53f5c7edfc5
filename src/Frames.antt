-- ===== src/Frames.antt =====
-- The frames on a connection (pkg/protocol/frame.go), with the fields of the reader that the header
-- of a request has (pkg/protocol/reader.go). A connection is the bytes that are still to come.
pub mod Pipeline
use pocketkafka.Prelude.{
  ℕ, ◌+◌, Bytes, Option, none, some, ◌++◌, length, if◌then◌else◌, eqb, ltb, ◌&&◌, List, [],
}
use pocketkafka.Prelude.Ints.{ℤ, pos, negsuc, signed, unsigned}
use pocketkafka.Prelude.Words.{be_bytes, be_value, read_full}

infixl 5 ◌>>=◌
abbrev pub ◌>>=◌ {ℓ κ} : {A : Type ℓ} {B : Type κ} → Option A → (A → Option B) → Option B
none >>= f = none
some a >>= f = f a

pub record RequestHeader : Type 0 where
  pub api_key : ℤ
  pub api_version : ℤ
  pub correlation_id : ℤ
  pub client_id : Bytes

unfoldable pub read_int16 : Bytes → Option (ℤ × Bytes)
read_int16 bs = do (v, rest) ← read_full 2 bs; some (signed 16 (be_value v), rest)

unfoldable pub read_int32 : Bytes → Option (ℤ × Bytes)
read_int32 bs = do (v, rest) ← read_full 4 bs; some (signed 32 (be_value v), rest)

unfoldable pub string_of : ℤ → Bytes → Option (Bytes × Bytes)
string_of (pos n) bs = read_full n bs
string_of (negsuc n) bs = some ([], bs)

-- ReadString: a string without a value is empty.
unfoldable pub read_string : Bytes → Option (Bytes × Bytes)
read_string bs = do (l, rest) ← read_int16 bs; string_of l rest

unfoldable pub decode_request_header : Bytes → Option (RequestHeader × Bytes)
decode_request_header bs = do
  (key, bs₁) ← read_int16 bs
  (version, bs₂) ← read_int16 bs₁
  (id, bs₃) ← read_int32 bs₂
  (client, rest) ← read_string bs₃
  some (
    record { api_key = key; api_version = version; correlation_id = id; client_id = client },
    rest,
  )

-- A frame with its header, its body and what follows it, or an error of ReadRequestFrame: the
-- connection ends, the length is 0, or above the maximum, or the header does not fit the frame.
pub data Framed : Type 0 where
  frame : RequestHeader → Bytes → Bytes → Framed
  closed invalid_length too_large short_header : Framed

unfoldable pub framed : Option (RequestHeader × Bytes) → Bytes → Framed
framed none rest = short_header
framed (some (h, body)) rest = frame h body rest

unfoldable pub payload_frame : ℕ → Bytes → Framed
payload_frame size bs = elim (read_full size bs) [
  | none ↦ closed
  | some (payload, rest) ↦ framed (decode_request_header payload) rest
]

unfoldable pub sized_frame : ℕ → ℕ → Bytes → Framed
sized_frame max_size size bs =
    if eqb size 0
    then invalid_length
    else if ltb 0 max_size && ltb max_size size
    then too_large
    else payload_frame size bs

-- ReadRequestFrame; a maximum of 0 stands for every one that is not positive.
unfoldable pub read_request_frame : ℕ → Bytes → Framed
read_request_frame max_size bs = elim (read_full 4 bs) [
  | none ↦ closed
  | some (n, rest) ↦ sized_frame max_size (be_value n) rest
]

unfoldable pub write_response_frame : ℤ → Bytes → Bytes
write_response_frame id body =
    be_bytes 4 ((length body + 4)) ++ (be_bytes 4 (unsigned 32 id) ++ body)
