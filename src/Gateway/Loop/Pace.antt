-- ===== src/Gateway/Loop/Pace.antt =====
-- The pace of reconnections: the back-off of `Start`.
use native.Mathlib.Nat.{mul_assoc, pow-suc}
use polarix_plus.Base.{
  Bool-cases, wrap, sle, slt, ℕ, suc, ◌+◌, ◌-◌, ◌*◌, ◌/◌, ◌%◌, ◌^◌, ◌≤◌, ◌<◌, ◌≡◌, refl, sym, ap,
  ◌∙◌, inl, inr, Bool, true, false, ◌||◌, Option, none, some, arith,
}
use polarix_plus.Gateway.{
  Err, err_reconnect, err_invalid_session, err_stop, err_network, Client, err_reconnect,
  err_invalid_session, err_stop, err_network,
}
use polarix_plus.Gateway.Loop.{
  second, max_backoff, jitter, smaller, Loop, start_loop, count_strike, Limit, slot_wait, Round,
  finished, panicked, again, waits, round, finished, panicked, again,
}

-- What holds of the loop between rounds.
pub record IsPaced (l : Loop) : Type 0 where
  pub least : second ≤ l.backoff
  pub most : l.backoff ≤ max_backoff
  pub few : l.strikes < 5

abbrev pub Rounds : (Loop → Type 0) → Round → Type 0
Rounds P finished = Unit
Rounds P panicked = ⊥
Rounds P (again d l) = P l

pub start_loop-IsPaced : (c : Client) → IsPaced (start_loop c)
unfolding start_loop
start_loop-IsPaced c = ground arith

count_strike-IsPaced : (before : ℕ) (l : Loop) → IsPaced l → IsPaced (count_strike before l)
unfolding count_strike
count_strike-IsPaced before l v = ground arith

-- `jitter` moves a duration of at least two nanoseconds by at most a quarter, and does not panic.
pub jitter_within :
    (random d : ℕ)
    → 2 ≤ d
    → (j : ℕ) × (jitter random d ≡ some j) × (3 * d ≤ 4 * j) × (4 * j ≤ 5 * d + 3)
unfolding jitter
jitter_within random d h =
    let below : random % (d / 2) < d / 2 = omega arith in
    (d + random % (d / 2) - d / 2 / 2, ground arith, omega arith, omega arith)

jitter-some : (random d : ℕ) → 2 ≤ d → (j : ℕ) × (jitter random d ≡ some j)
jitter-some random d h = let (j, e, _, _) = jitter_within random d h in (j, e)

waits-Rounds :
    (P : Loop → Type 0) (o : Option ℕ) (go_on : Bool) (l : Loop) {d : ℕ}
    → o ≡ some d
    → P l
    → Rounds P (waits o go_on l)
waits-Rounds P none go_on l e p = cc
waits-Rounds P (some d) true l e p = p
waits-Rounds P (some d) false l e p = tt

slot_wait-some : (random : ℕ) (limit : Option Limit) → (d : ℕ) × (slot_wait random limit ≡ some d)
unfolding slot_wait
slot_wait-some random none = jitter-some random (5 * second) (omega arith)
slot_wait-some random (some i) = elim (Bool-cases (slt 0 i.remaining || sle i.reset_after 0)) [
  | inl g ↦ rw g (jitter-some random (3 * second) (omega arith))
  | inr g ↦ rw g (wrap (i.reset_after * 1000000), refl)
]

-- From a state in which the back-off is between one and thirty seconds and there are fewer than
-- five strikes, a round of `Start` never panics, and the state that it leaves is one of these
-- again.
pub round-IsPaced :
    (random : ℕ) (limit : Option Limit) (go_on : Bool) (before : ℕ) (err : Option Err) (l : Loop)
    → IsPaced l
    → Rounds IsPaced (round random limit go_on before err l)
unfolding round
round-IsPaced random limit go_on before none l v = waits-Rounds IsPaced (some second) go_on l refl v
round-IsPaced random limit go_on before (some (err_stop code)) l v = tt
round-IsPaced random limit go_on before (some err_reconnect) l v =
    waits-Rounds IsPaced (jitter random second) go_on _ (jitter-some random second (omega arith)).1
      (count_strike-IsPaced before _ (ground arith))
round-IsPaced random limit go_on before (some err_invalid_session) l v =
    waits-Rounds IsPaced (slot_wait random limit) go_on _ (slot_wait-some random limit).1
      (ground arith)
round-IsPaced random limit go_on before (some err_network) l v =
    let counted = count_strike-IsPaced before l v in
    waits-Rounds IsPaced (jitter random l.backoff) go_on _
      (jitter-some random l.backoff (omega (arith, v.least))).1 (ground arith)

-- Rounds that a failure of the network ended, with no other between them.
pub data Fails : ℕ → Loop → Loop → Type 0 where
  no_more : {l : Loop} → Fails 0 l l
  one_more :
      (random before d : ℕ) (limit : Option Limit) {n : ℕ} {l m r : Loop}
      → Fails n l m
      → round random limit true before (some err_network) m ≡ again d r
      → Fails (suc n) l r

pub again-waits : (o : Option ℕ) (l : Loop) {d : ℕ} {r : Loop} → waits o true l ≡ again d r → l ≡ r
again-waits none l e = cc
again-waits (some d) l e = cc

backoff-count_strike : (before : ℕ) (l : Loop) → (count_strike before l).backoff ≡ l.backoff
unfolding count_strike
backoff-count_strike before l = ground arith

backoff-round :
    (random before : ℕ) (limit : Option Limit) (m : Loop) {d : ℕ} {r : Loop}
    → round random limit true before (some err_network) m ≡ again d r
    → r.backoff ≡ smaller (m.backoff * 2) max_backoff
unfolding round
backoff-round random before limit m e =
    sym (ap (λ (l : Loop). l.backoff) (again-waits (jitter random m.backoff) _ e))
    ∙ ap (λ b. smaller (b * 2) max_backoff) (backoff-count_strike before m)

-- After `n` failures of the network in a row the back-off, which was at most thirty seconds, is `2
-- ^ n` times what it was, up to thirty seconds.
pub backoff-Fails :
    {n : ℕ} {l r : Loop}
    → l.backoff ≤ max_backoff
    → Fails n l r
    → r.backoff ≡ smaller (l.backoff * 2 ^ n) max_backoff
backoff-Fails h no_more = ground arith
backoff-Fails {r = r} h (one_more random before d limit {n} {l} {m} f e) =
    backoff-round random before limit m e
    ∙ doubled (l.backoff * 2 ^ n) (backoff-Fails h f)
    ∙ ap (λ k. smaller k max_backoff) (power l.backoff n)
  where
    power : (b n : ℕ) → b * 2 ^ n * 2 ≡ b * 2 ^ suc n
    power b n = mul_assoc b (2 ^ n) 2 ∙ ap (λ m. b * m) (sym (pow-suc 2 n))

    doubled :
        (k : ℕ) {b : ℕ}
        → b ≡ smaller k max_backoff
        → smaller (b * 2) max_backoff ≡ smaller (k * 2) max_backoff
    doubled k e = ground arith
