-- ===== src/Api/Http.antt =====
-- The retries of a request (`do` in lib/requests/requests.go). Durations are milliseconds.
use native.Mathlib.Decide.{ℕ_discrete}
use mathlib.Core.Path.{subst}
use polarix_plus.Base.{
  ltb, leb, ◌==◌, if◌then◌else◌, Text, ℕ, zero, suc, ◌+◌, ◌≤◌, ◌<◌, ◌≡◌, refl, sym, ◌⊎◌, inl, inr,
  Bool, not, ◌||◌, arith,
}

-- the outcome of one attempt
pub data Attempt : Type 0 where
  broken : Attempt  -- the request, or the reading of its answer, failed
  answered : ℕ → Text → Attempt  -- the status and the body

pub data Failure : Type 0 where
  no_attempt : Failure  -- the nil error of a loop that never runs
  transport : Failure
  status : ℕ → Failure

pub data Response : Type 0 where
  body : Text → Response
  failure : Failure → Response

unfoldable pub is_retryable_status : ℕ → Bool
is_retryable_status code = code == 408 || code == 429 || leb 500 code

abbrev pub is_success : ℕ → Bool
is_success code = not (ltb code 200 || leb 300 code)

-- the table `delays`
unfoldable pub delay : ℕ → ℕ
delay zero = 0
delay (suc zero) = 200
delay (suc (suc zero)) = 300
delay (suc (suc (suc n))) = 500

-- the end of a round of the loop: an answer, or the error to keep for the next round
unfoldable pub judge : Attempt → Response ⊎ Failure
unfolding is_retryable_status
judge broken = inr transport
judge (answered code b) =
    if is_success code
    then inl (body b)
    else if is_retryable_status code
    then inr (status code)
    else inl (failure (status code))

-- What the loop gives: its result, how often it sent, and how long it slept.
pub record Outcome : Type 0 where
  pub result : Response
  pub sent : ℕ
  pub slept : ℕ

-- the loop, with the rounds left, from the attempt `i` on
unfoldable pub attempts : (ℕ → Attempt) → ℕ → ℕ → Failure → ℕ → Outcome
unfolding judge delay
attempts net zero i last slept = record { result = failure last; sent = i; slept = slept }
attempts net (suc k) i last slept = elim (judge (net i)) [
  | inl r ↦ record { result = r; sent = i + 1; slept = slept + delay i }
  | inr e ↦ attempts net k (i + 1) e (slept + delay i)
]

-- `Init` sets three retries
abbrev pub max_retries : ℕ
max_retries = 3

-- `do`
unfoldable pub request : (ℕ → Attempt) → ℕ → Outcome
unfolding attempts
request net retries = attempts net (retries + 1) 0 no_attempt 0

-- an attempt that ends the loop
abbrev pub Decides : (ℕ → Attempt) → ℕ → Response → Type 0
Decides net k r = judge (net k) ≡ inl r

abbrev pub Retries : (ℕ → Attempt) → ℕ → Type 0
Retries net k = (e : Failure) × (judge (net k) ≡ inr e)

attempts_skip :
    (net : ℕ → Attempt) (k i : ℕ) (last : Failure) (slept : ℕ) {e : Failure}
    → judge (net i) ≡ inr e
    → attempts net (suc k) i last slept ≡ attempts net k (i + 1) e (slept + delay i)
unfolding attempts
attempts_skip net k i last slept h = rw (h, attempts) refl

-- a result, and how often the client sent for it
abbrev Gives : Outcome → Response → ℕ → Type 0
Gives o r n = (o.result ≡ r) × (o.sent ≡ n)

attempts_end :
    (net : ℕ → Attempt) (k i : ℕ) (last : Failure) (slept : ℕ) {r : Response}
    → Decides net i r
    → Gives (attempts net (suc k) i last slept) r (i + 1)
unfolding attempts
attempts_end net k i last slept h = rw (h, attempts) (refl, refl)

attempts_first :
    (net : ℕ → Attempt) (k i d : ℕ) (last : Failure) (slept : ℕ) {r : Response}
    → i ≤ d
    → d < i + k
    → ((j : ℕ) → i ≤ j → j < d → Retries net j)
    → Decides net d r
    → Gives (attempts net k i last slept) r (d + 1)
attempts_first net zero i d last slept low h before now = absurd (omega arith)
attempts_first net (suc k) i d last slept {r} low h before now = elim (ℕ_discrete i d) [
  | yes q ↦
      subst (λ m. Gives (attempts net (suc k) i last slept) r (m + 1)) q
        (attempts_end net k i last slept (subst (λ m. Decides net m r) (sym q) now))
  | no n ↦
      let (e, retried) = before i (omega arith) (omega arith) in
      subst (λ o. Gives o r (d + 1)) (sym (attempts_skip net k i last slept retried))
        (attempts_first net k (i + 1) d e (slept + delay i) (omega arith) (omega arith)
          (λ j p q. before j (omega arith) q) now)
]

-- how often the loop sends
attempts_sent :
    (net : ℕ → Attempt) (k i : ℕ) (last : Failure) (slept : ℕ)
    → (i ≤ (attempts net k i last slept).sent) × ((attempts net k i last slept).sent ≤ i + k)
attempts_sent net zero i last slept = unfold attempts in (omega arith, omega arith)
attempts_sent net (suc k) i last slept =
    on_judge (judge (net i)) refl (λ e. attempts_sent net k (i + 1) e (slept + delay i))
  where
    Within : Outcome → Type 0
    Within o = (i ≤ o.sent) × (o.sent ≤ i + suc k)

    on_judge :
        (j : Response ⊎ Failure)
        → judge (net i) ≡ j
        → ((e : Failure)
            → (i + 1 ≤ (attempts net k (i + 1) e (slept + delay i)).sent)
              × ((attempts net k (i + 1) e (slept + delay i)).sent ≤ i + 1 + k))
        → Within (attempts net (suc k) i last slept)
    on_judge (inl r) q rest =
        let n = (attempts_end net k i last slept q).1 in (omega (arith, n), omega (arith, n))
    on_judge (inr e) q rest =
        subst Within (sym (attempts_skip net k i last slept q))
          (omega (arith, (rest e).0), omega (arith, (rest e).1))

-- A request is sent at most once more than it may be retried.
pub request_sent : (net : ℕ → Attempt) (retries : ℕ) → (request net retries).sent ≤ retries + 1
unfolding request
request_sent net retries = omega (arith, (attempts_sent net (retries + 1) 0 no_attempt 0).1)

-- If the first attempt that is not to be retried is one of those that the client makes, it decides
-- the result, and nothing is sent behind it.
pub request_first :
    (net : ℕ → Attempt) (retries d : ℕ) {r : Response}
    → d ≤ retries
    → ((j : ℕ) → j < d → Retries net j)
    → Decides net d r
    → ((request net retries).result ≡ r) × ((request net retries).sent ≡ d + 1)
unfolding request
request_first net retries d h before now =
    attempts_first net (retries + 1) 0 d no_attempt 0 (omega arith) (omega arith)
      (λ j p q. before j q) now

-- an error behind a number of attempts
abbrev Fails : Outcome → ℕ → Type 0
Fails o n = (o.sent ≡ n) × ((e : Failure) × (o.result ≡ failure e))

attempts_none :
    (net : ℕ → Attempt) (k i : ℕ) (last : Failure) (slept n : ℕ)
    → n ≡ i + k
    → ((j : ℕ) → i ≤ j → j < n → Retries net j)
    → Fails (attempts net k i last slept) n
attempts_none net zero i last slept n q h = unfold attempts in (omega arith, (last, refl))
attempts_none net (suc k) i last slept n q h =
    let (e, retried) = h i (omega arith) (omega arith) in
    subst (λ o. Fails o n) (sym (attempts_skip net k i last slept retried))
      (attempts_none net k (i + 1) e (slept + delay i) n (omega arith) (λ j p. h j (omega arith)))

-- If every attempt is to be retried, the client makes all of them and reports an error.
pub request_none :
    (net : ℕ → Attempt) (retries : ℕ)
    → ((j : ℕ) → j < retries + 1 → Retries net j)
    → ((request net retries).sent ≡ retries + 1)
      × ((e : Failure) × ((request net retries).result ≡ failure e))
unfolding request
request_none net retries h =
    attempts_none net (retries + 1) 0 no_attempt 0 (retries + 1) (omega arith) (λ j p q. h j q)
