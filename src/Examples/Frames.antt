-- ===== src/Examples/Frames.antt =====
-- A request on a connection with bytes behind it (pkg/protocol/frame.go).
use pocketkafka.Prelude.{◌≡◌, inr, arith, [], ◌∷◌}
use pocketkafka.Prelude.Words.{be_bytes}
use pocketkafka.Frames.{frame, read_request_frame}
use pocketkafka.Frames.Pipeline.{header_bytes, request_header, read_request_frame-frame}

read_request_frame-frame_example :
    read_request_frame 100
      (0 ∷ 0 ∷ 0 ∷ 13 ∷ 0 ∷ 3 ∷ 0 ∷ 4 ∷ 0 ∷ 0 ∷ 0 ∷ 7 ∷ 0 ∷ 2 ∷ 97 ∷ 98 ∷ 9 ∷ 0 ∷ 0 ∷ [])
    ≡ frame (request_header 3 4 7 (97 ∷ 98 ∷ [])) (9 ∷ []) (0 ∷ 0 ∷ [])
unfolding header_bytes be_bytes
read_request_frame-frame_example =
    read_request_frame-frame 3 4 7 (97 ∷ 98 ∷ []) (9 ∷ []) (omega arith) (omega arith) (omega arith)
      (omega arith) 100 (0 ∷ 0 ∷ []) (omega arith) (inr (omega arith))
