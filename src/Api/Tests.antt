-- ===== src/Api/Tests.antt =====
-- Runs of the API client, and each theorem about it at a concrete input.
use polarix_plus.Base.{
  if◌then◌else◌, atoi, Text, codes, text_eq, ℕ, zero, suc, ◌<◌, ◌≡◌, refl, Bool, true, Option, none,
  some, [], ◌∷◌, arith,
}
use polarix_plus.Api.Http.{
  Attempt, judge, max_retries, request, Retries, request_first, broken, answered, transport, status,
  body,
}
use polarix_plus.Api.Token.{Answer}
use polarix_plus.Api.Send.{
  Reply, send_with_retry, Decided, send_with_retry-Decided, with_id, error_code, sent,
}
use polarix_plus.Api.Upload.{chunk}
use polarix_plus.Api.Stream.{StreamMessage, Session}

-- a server that is down twice
abbrev flaky : ℕ → Attempt
flaky zero = answered 503 []
flaky (suc zero) = broken
flaky (suc (suc n)) = answered 200 (codes "ok")

request_test :
    request flaky max_retries ≡ record { result = body (codes "ok"); sent = 3; slept = 500 }
unfolding request
request_test = refl

flaky-Retries : (j : ℕ) → j < 2 → Retries flaky j
unfolding judge
flaky-Retries zero h = (status 503, refl)
flaky-Retries (suc zero) h = (transport, refl)
flaky-Retries (suc (suc j)) h = absurd (omega arith)

request_first_example :
    ((request flaky max_retries).result ≡ body (codes "ok"))
    × ((request flaky max_retries).sent ≡ 3)
request_first_example =
    request_first flaky max_retries 2 (omega arith) flaky-Retries (unfold judge in refl)

abbrev down : ℕ → Attempt
down n = broken

abbrev hour : Answer
hour = record { token = codes "t"; expires_in = codes "3600" }

hour_lifetime : atoi (codes "3600") ≡ some 3600
unfolding atoi
hour_lifetime = refl

-- a platform that is down twice, and asks for patience once
abbrev busy : ℕ → ℕ → Attempt
busy zero j = flaky j
busy (suc n) j = answered 200 (codes "id")

abbrev read_reply : Text → Reply
read_reply t = if text_eq t (codes "ok") then error_code 22009 none else with_id (codes "m1")

abbrev passes : Text → Bool
passes id = true

send_test :
    send_with_retry busy read_reply passes (22009 ∷ [])
    ≡ record { result = sent (codes "m1"); rounds = 2; posts = 4 }
unfolding send_with_retry text_eq
send_test = refl

send_with_retry-Decided_example :
    Decided busy read_reply passes
      (22009 ∷ [])
      0
      0
      (send_with_retry busy read_reply passes (22009 ∷ []))
send_with_retry-Decided_example = send_with_retry-Decided busy read_reply passes (22009 ∷ [])

-- a part far behind the end of the file
chunk_panics : chunk (1 ∷ 2 ∷ 3 ∷ []) 2 4 ≡ none
unfolding chunk
chunk_panics = refl

abbrev platform : StreamMessage → Option Text
platform m = some (codes "s")

abbrev open_session : Session
open_session = record { stream_id = codes "s"; index = 3 }
