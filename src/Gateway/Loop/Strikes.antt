-- ===== src/Gateway/Loop/Strikes.antt =====
-- The strikes of `Start`: five reconnections in a row that never got ready give up the session.
use mathlib.Core.Path.{subst}
use polarix_plus.Base.{ℕ, zero, suc, ◌+◌, ◌≤◌, ◌<◌, ◌≡◌, refl, true, Option, some, [], arith}
use polarix_plus.Gateway.{Err, err_reconnect, err_network, Client, err_reconnect, err_network}
use polarix_plus.Gateway.Loop.{second, jitter, Loop, count_strike, Limit, again, round, again}
use polarix_plus.Gateway.Loop.Pace.{again-waits}

-- the errors behind which the session is tried again
pub data IsRetry : Err → Type 0 where
  on_reconnect : IsRetry err_reconnect
  on_network : IsRetry err_network

-- Rounds whose connection ended in such an error and never got ready. What else the connection did
-- to the client, `c`, is not restricted.
pub data Fruitless : ℕ → Loop → Loop → Type 0 where
  no_round : {l : Loop} → Fruitless 0 l l
  next_round :
      (random d : ℕ) (limit : Option Limit) (c : Client) {n : ℕ} {err : Err} {l m r : Loop}
      → IsRetry err
      → round random limit true c.ready_n (some err) (record l { client = c }) ≡ again d m
      → Fruitless n m r
      → Fruitless (suc n) l r

-- what one fruitless round leaves
pub record Struck (l m : Loop) : Type 0 where
  pub counted : l.strikes + 1 < 5 → m.strikes ≡ l.strikes + 1
  pub given_up :
      5 ≤ l.strikes + 1 → (m.client.session_id ≡ []) × (m.client.seq ≡ 0) × (m.strikes ≡ 0)

Struck-count :
    (c : Client) (b b' : ℕ) (l : Loop)
    → Struck l
        (record (count_strike c.ready_n (record l { client = c; backoff = b })) { backoff = b' })
unfolding count_strike
Struck-count c b b' l = record { counted = λ h. ground arith; given_up = λ h. ground arith }

Struck-round :
    {err : Err} (random d : ℕ) (limit : Option Limit) (c : Client) (l : Loop) {m : Loop}
    → IsRetry err
    → round random limit true c.ready_n (some err) (record l { client = c }) ≡ again d m
    → Struck l m
unfolding round
Struck-round random d limit c l on_reconnect e =
    subst (Struck l) (again-waits (jitter random second) _ e) (Struck-count c second _ l)
Struck-round random d limit c l on_network e =
    subst (Struck l) (again-waits (jitter random l.backoff) _ e) (Struck-count c l.backoff _ l)

none_left : {m r : Loop} → Fruitless 0 m r → m ≡ r
none_left no_round = refl

-- Fruitless rounds that bring the strikes to five leave no session to resume, and no strike.
pub strikes-Fruitless :
    {n : ℕ} {l r : Loop}
    → Fruitless n l r
    → 0 < n
    → l.strikes + n ≡ 5
    → (r.client.session_id ≡ []) × (r.client.seq ≡ 0) × (r.strikes ≡ 0)
strikes-Fruitless no_round h e = absurd (omega arith)
strikes-Fruitless (next_round random d limit c {n = zero} {l = l} {m} {r} k q f) h e =
    subst (λ (x : Loop). (x.client.session_id ≡ []) × (x.client.seq ≡ 0) × (x.strikes ≡ 0))
      (none_left f) ((Struck-round random d limit c l k q).given_up (omega arith))
strikes-Fruitless (next_round random d limit c {n = suc n} {l = l} k q f) h e =
    strikes-Fruitless f (omega arith)
      (omega (arith, (Struck-round random d limit c l k q).counted (omega arith)))
