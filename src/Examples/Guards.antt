-- ===== src/Examples/Guards.antt =====
-- The window of a rate limiter, asked five times (internal/fleet/ratelimit.go).
use pocketkafka.Prelude.{◌≡◌, refl, true, false, [], ◌∷◌, List, Bool, Bytes, bytes_eq, arith}
use pocketkafka.Prelude.Tests.{bytes_beq}
use pocketkafka.Prelude.Lists.{keep}
use pocketkafka.Prelude.Dict.{get, put}
use pocketkafka.Prelude.Ints.{pos}
use pocketkafka.Limits.{new_rate_limiter, allow_request, admit, valid_of}
use pocketkafka.Limits.Window.{Request, answers, reference}
use pocketkafka.Limits.Window.Answers.{answers-reference}

abbrev host : Bytes
host = 104 ∷ []

abbrev guest : Bytes
guest = 103 ∷ []

abbrev five_requests : List Request
five_requests = (host, 10) ∷ (host, 60) ∷ (host, 109) ∷ (guest, 109) ∷ (host, 110) ∷ []

-- Two requests in a window of a hundred: the third is refused, the fifth admitted.
abbrev five_answers : List Bool
five_answers = true ∷ true ∷ false ∷ true ∷ true ∷ []

answers-reference_example :
    answers (new_rate_limiter (pos 2) (pos 100)) five_requests ≡ reference 2 100 [] five_requests
unfolding new_rate_limiter
answers-reference_example =
    answers-reference (pos 2) (pos 100) five_requests
      (omega arith, (omega arith, (omega arith, (omega arith, (omega arith, tt)))))

five_answered : answers (new_rate_limiter (pos 2) (pos 100)) five_requests ≡ five_answers
unfolding answers new_rate_limiter allow_request admit valid_of get put keep bytes_beq
five_answered = refl
