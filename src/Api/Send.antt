-- ===== src/Api/Send.antt =====
-- The retries of a message by the platform's error codes (`sendWithRetry` in lib/qqapi/client.go), each
-- of which is a request with the retries of Api/Http.
use mathlib.Core.Path.{subst}
use native.Mathlib.Decide.{ℕ_discrete}
use polarix_plus.Api.Http.{max_retries, request, request_sent, body, failure, Attempt, Response}
use polarix_plus.Base.{
  ltb, ◌==◌, if◌then◌else◌, Text, ℕ, zero, suc, ◌+◌, ◌*◌, ◌≤◌, ◌<◌, ◌≡◌, refl, Bool, true, false,
  ◌&&◌, ◌||◌, Option, none, some, List, [], ◌∷◌, arith,
}

-- an answer to a message, as it is read: nothing, a result with an id, an error code that is not 0
-- (with or without an audit to wait for), or anything else
pub data Reply : Type 0 where
  http_error : Reply
  empty_reply : Reply
  with_id : Text → Reply
  error_code : ℕ → Option Text → Reply
  other_reply : Reply

pub data Sent : Type 0 where
  sent : Text → Sent
  http_failed : Sent
  audit_failed : Sent
  qq_error : ℕ → Sent
  out_of_fuel : Sent

-- IsRetryable
unfoldable pub is_retryable : ℕ → List ℕ → Bool
is_retryable code [] = false
is_retryable code (c ∷ cs) = (c == code) || is_retryable code cs

abbrev pub audit_code : ℕ
audit_code = 304023

abbrev waited : Bool → Sent
waited true = sent []
waited false = audit_failed

-- the end of a round of the attempt `i`: the result, or `none` to try again; `audit` is whether an
-- audit passes
unfoldable pub verdict : (Text → Bool) → List ℕ → ℕ → Reply → Option Sent
unfolding is_retryable
verdict audit retry_when i http_error = some http_failed
verdict audit retry_when i empty_reply = some (sent [])
verdict audit retry_when i (with_id id) = some (sent id)
verdict audit retry_when i other_reply = some (sent [])
verdict audit retry_when i (error_code code none) =
    if is_retryable code retry_when && ltb i 2 then none else some (qq_error code)
verdict audit retry_when i (error_code code (some id)) =
    if code == audit_code
    then some (waited (audit id))
    else if is_retryable code retry_when && ltb i 2
    then none
    else some (qq_error code)

-- what `DoBytes` gives, as it is read; `read` stands for encoding/json on a body that is not empty
unfoldable pub reply_of : (Text → Reply) → Response → Reply
reply_of read (failure e) = http_error
reply_of read (body []) = empty_reply
reply_of read (body (c ∷ s)) = read (c ∷ s)

-- the result, how often the loop went round, and how often the message went out
pub record Report : Type 0 where
  pub result : Sent
  pub rounds : ℕ
  pub posts : ℕ

-- The loop from the attempt `i` on, on fuel. Each round is a request with retries of its own: the
-- network tells how the attempt `j` of the round `i` ends.
unfoldable pub send_from :
    (ℕ → ℕ → Attempt) → (Text → Reply) → (Text → Bool) → List ℕ → ℕ → ℕ → ℕ → Report
unfolding verdict reply_of request
send_from net read audit retry_when zero i posts = record {
  result = out_of_fuel;
  rounds = i;
  posts = posts;
}
send_from net read audit retry_when (suc k) i posts =
    let out = request (net i) max_retries in
    elim (verdict audit retry_when i (reply_of read out.result)) [
      | some r ↦ record { result = r; rounds = i + 1; posts = posts + out.sent }
      | none ↦ send_from net read audit retry_when k (i + 1) (posts + out.sent)
    ]

-- `sendWithRetry`
unfoldable pub send_with_retry :
    (ℕ → ℕ → Attempt) → (Text → Reply) → (Text → Bool) → List ℕ → Report
unfolding send_from
send_with_retry net read audit retry_when = send_from net read audit retry_when 3 0 0

-- a reply behind which the message is sent again
abbrev pub IsRetried : List ℕ → Reply → Type 0
IsRetried retry_when reply =
    (code : ℕ) × (w : Option Text) × (reply ≡ error_code code w)
    × (is_retryable code retry_when ≡ true)

-- the reply of a round
abbrev pub reply_at : (ℕ → ℕ → Attempt) → (Text → Reply) → ℕ → Reply
reply_at net read i = reply_of read (request (net i) max_retries).result

-- how the loop ends, from the attempt `i` on, with a number of requests sent before
pub record Decided (net : ℕ → ℕ → Attempt) (read : Text → Reply) (audit : Text → Bool)
    (retry_when : List ℕ) (i posts : ℕ) (out : Report) : Type 0 where
  pub last : ℕ
  pub few : last ≤ 2
  pub retried : (j : ℕ) → i ≤ j → j < last → IsRetried retry_when (reply_at net read j)
  pub decided : verdict audit retry_when last (reply_at net read last) ≡ some out.result
  pub count : out.rounds ≡ last + 1
  pub bounded : out.posts + i * 4 ≤ posts + (last + 1) * 4

again-IsRetried :
    (audit : Text → Bool) (retry_when : List ℕ) (i : ℕ) (reply : Reply)
    → verdict audit retry_when i reply ≡ none
    → IsRetried retry_when reply × (i < 2)
unfolding verdict
again-IsRetried audit retry_when i http_error h = cc
again-IsRetried audit retry_when i empty_reply h = cc
again-IsRetried audit retry_when i (with_id id) h = cc
again-IsRetried audit retry_when i other_reply h = cc
again-IsRetried audit retry_when i (error_code code none) h =
    ((code, none, refl, ground arith), ground arith)
again-IsRetried audit retry_when i (error_code code (some id)) h =
    ((code, some id, refl, ground arith), ground arith)

send_from-Decided :
    (net : ℕ → ℕ → Attempt) (read : Text → Reply) (audit : Text → Bool) (retry_when : List ℕ)
    (k i posts : ℕ) (o : Option Sent)
    → i + k ≡ 2
    → verdict audit retry_when i (reply_at net read i) ≡ o
    → Decided net read audit retry_when i posts
        (send_from net read audit retry_when (suc k) i posts)
unfolding send_from
send_from-Decided net read audit retry_when k i posts (some r) e v =
    rw (v, send_from)
      (record {
        last = i;
        few = omega arith;
        retried = λ j p q. absurd (omega arith);
        decided = v;
        count = refl;
        bounded = omega (arith, request_sent (net i) max_retries);
      })
send_from-Decided net read audit retry_when zero i posts none e v =
    absurd (omega (arith, (again-IsRetried audit retry_when i (reply_at net read i) v).1))
send_from-Decided net read audit retry_when (suc k) i posts none e v =
    let d =
      send_from-Decided net read audit retry_when k (i + 1)
        (posts + (request (net i) max_retries).sent) _ (omega arith) refl in
    rw (v, send_from)
      (record {
        last = d.last;
        few = d.few;
        retried = λ j p q. elim (ℕ_discrete i j) [
          | yes s ↦
              subst (λ m. IsRetried retry_when (reply_at net read m)) s
                (again-IsRetried audit retry_when i (reply_at net read i) v).0
          | no n ↦ d.retried j (omega arith) q
        ];
        decided = d.decided;
        count = d.count;
        bounded = omega (arith, request_sent (net i) max_retries, d.bounded);
      })

-- The loop goes round at most three times, and a message goes out at most four times in each round,
-- with the retries of the request. Each reply but the last is an error code of those to retry, and
-- the last one decides what is reported; the fuel never runs out.
pub send_with_retry-Decided :
    (net : ℕ → ℕ → Attempt) (read : Text → Reply) (audit : Text → Bool) (retry_when : List ℕ)
    → Decided net read audit retry_when 0 0 (send_with_retry net read audit retry_when)
unfolding send_with_retry
send_with_retry-Decided net read audit retry_when =
    send_from-Decided net read audit retry_when 2 0 0 _ refl refl
