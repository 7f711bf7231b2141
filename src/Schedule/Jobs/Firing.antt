-- ===== src/Schedule/Jobs/Firing.antt =====
-- When jobs fire: a cron job once a minute, the first matching minute next.
use native.Mathlib.Decide.{ℕ_discrete}
use mathlib.Core.Option
use mathlib.Core.Path.{subst}
use polarix_plus.Base.{
  if◌then◌else◌, Bool-cases, get_elem?, All, update_at, get_elem?-update_at_ne,
  get_elem?-update_at-map, ℕ, zero, suc, ◌+◌, ◌≤◌, ◌<◌, ◌≡◌, refl, ap, inl, inr, true, false,
  Option, none, some, List, [], ◌∷◌, arith,
}
use polarix_plus.Schedule.Cron.{CronExpr, match, Clock}
use polarix_plus.Schedule.Jobs.{Scheduler, cron_tick, Registered, is_due, due_at, fired_at, sweep}
use polarix_plus.Schedule.Jobs.Target.{next_cron_fire}

fired_not_due : (t : Clock) (key : ℕ) (rj : Registered) → is_due t key (fired_at key rj) ≡ false
unfolding is_due
fired_not_due t key rj = ground arith

due_fired :
    (t : Clock) (key : ℕ) (o : Option Registered)
    → due_at t key (Option.map (fired_at key) o) ≡ false
unfolding due_at
due_fired t key none = refl
due_fired t key (some rj) = fired_not_due t key rj

due-update_self :
    (t : Clock) (key r : ℕ) (heap : List Registered)
    → due_at t key (get_elem? (update_at r (fired_at key) heap) r) ≡ false
due-update_self t key r heap =
    rw (get_elem?-update_at-map r (fired_at key) heap) (due_fired t key (get_elem? heap r))

-- a job that is not due stays so, whatever else fires in the minute
due-update :
    (t : Clock) (key q r : ℕ) (heap : List Registered)
    → due_at t key (get_elem? heap r) ≡ false
    → due_at t key (get_elem? (update_at q (fired_at key) heap) r) ≡ false
due-update t key q r heap h = elim (ℕ_discrete q r) [
  | yes e ↦ rw e (due-update_self t key r heap)
  | no n ↦ rw (get_elem?-update_at_ne q r (fired_at key) heap n) h
]

-- the heap that the rest of the loop sees
abbrev after_first : Clock → ℕ → ℕ → List Registered → List Registered
after_first t key q heap =
    if due_at t key (get_elem? heap q) then update_at q (fired_at key) heap else heap

due-after_first :
    (t : Clock) (key q r : ℕ) (heap : List Registered)
    → due_at t key (get_elem? heap r) ≡ false
    → due_at t key (get_elem? (after_first t key q heap) r) ≡ false
due-after_first t key q r heap h = elim (Bool-cases (due_at t key (get_elem? heap q))) [
  | inl e ↦ rw e (due-update t key q r heap h)
  | inr e ↦ rw e h
]

due-after_first_self :
    (t : Clock) (key q : ℕ) (heap : List Registered)
    → due_at t key (get_elem? (after_first t key q heap) q) ≡ false
due-after_first_self t key q heap = elim (Bool-cases (due_at t key (get_elem? heap q))) [
  | inl e ↦ rw e (due-update_self t key q heap)
  | inr e ↦ rw e e
]

sweep_keeps :
    (t : Clock) (key r : ℕ) (rs : List ℕ) (heap : List Registered)
    → due_at t key (get_elem? heap r) ≡ false
    → due_at t key (get_elem? (sweep t key rs heap).1 r) ≡ false
unfolding sweep
sweep_keeps t key r [] heap h = h
sweep_keeps t key r (q ∷ rs) heap h =
    sweep_keeps t key r rs (after_first t key q heap) (due-after_first t key q r heap h)

abbrev NoneDue : Clock → ℕ → List Registered → List ℕ → Type 0
NoneDue t key heap = All (λ r. due_at t key (get_elem? heap r) ≡ false)

sweep-NoneDue :
    (t : Clock) (key : ℕ) (rs : List ℕ) (heap : List Registered)
    → NoneDue t key (sweep t key rs heap).1 rs
unfolding sweep
sweep-NoneDue t key [] heap = tt
sweep-NoneDue t key (q ∷ rs) heap = (
  sweep_keeps t key q rs (after_first t key q heap) (due-after_first_self t key q heap),
  sweep-NoneDue t key rs (after_first t key q heap),
)

sweep_quiet :
    (t : Clock) (key : ℕ) (rs : List ℕ) (heap : List Registered)
    → NoneDue t key heap rs
    → sweep t key rs heap ≡ ([], heap)
unfolding sweep
sweep_quiet t key [] heap h = refl
sweep_quiet t key (r ∷ rs) heap h = rw (h.0, sweep_quiet t key rs heap h.1)

-- Two ticks of the cron loop in one minute, with nothing between them: the second fires nothing
-- and leaves every job as it was.
pub cron_tick_once :
    (t : Clock) (key : ℕ) (s : Scheduler)
    → let s' = (cron_tick t key s).1 in cron_tick t key s' ≡ ([], s')
unfolding cron_tick
cron_tick_once t key s =
    rw (sweep_quiet t key s.jobs _ (sweep-NoneDue t key s.jobs s.heap), cron_tick)

-- What `nextCronFire` finds from the minute `t` on.
abbrev IsNext : (ℕ → Clock) → CronExpr → ℕ → Option ℕ → ℕ → Type 0
IsNext at c t o k =
    (m : ℕ) × (o ≡ some m)
    × (t ≤ m)
    × (m ≤ k)
    × (match c (at m) ≡ true)
    × ((j : ℕ) → t ≤ j → j < m → match c (at j) ≡ false)

-- a minute that does not match is passed over
IsNext-later :
    (at : ℕ → Clock) (c : CronExpr) (t k : ℕ) {o : Option ℕ}
    → match c (at t) ≡ false
    → IsNext at c (t + 1) o k
    → IsNext at c t o k
IsNext-later at c t k miss (m, found, a, b, hit, before) = (
  m,
  found,
  omega arith,
  b,
  hit,
  λ j p q. elim (ℕ_discrete t j) [
    | yes e ↦ subst (λ i. match c (at i) ≡ false) e miss
    | no n ↦ before j (omega arith) q
  ],
)

-- If one of the minutes scanned matches, `nextCronFire` gives the first that does.
pub next_cron_fire_first :
    (at : ℕ → Clock) (c : CronExpr) (rounds t k : ℕ)
    → t ≤ k
    → k < t + rounds
    → match c (at k) ≡ true
    → (m : ℕ) × (next_cron_fire at c rounds t ≡ some m)
      × (t ≤ m)
      × (m ≤ k)
      × (match c (at m) ≡ true)
      × ((j : ℕ) → t ≤ j → j < m → match c (at j) ≡ false)
unfolding next_cron_fire
next_cron_fire_first at c zero t k h l e = absurd (omega arith)
next_cron_fire_first at c (suc rounds) t k h l e = elim (Bool-cases (match c (at t))) [
  | inl hit ↦ (t, rw hit refl, omega arith, h, hit, λ j p q. absurd (omega arith))
  | inr miss ↦
      IsNext-later at c t k miss
        (rw miss (next_cron_fire_first at c rounds (t + 1) k (later t k miss h e) (omega arith) e))
]
  where
    later : (t k : ℕ) → match c (at t) ≡ false → t ≤ k → match c (at k) ≡ true → t + 1 ≤ k
    later t k miss h e = elim (ℕ_discrete t k) [
      | yes q ↦ cc (ap (λ i. match c (at i)) q)
      | no n ↦ omega arith
    ]

-- If none of them matches, it gives the zero time.
pub next_cron_fire-none :
    (at : ℕ → Clock) (c : CronExpr) (rounds t : ℕ)
    → ((k : ℕ) → t ≤ k → k < t + rounds → match c (at k) ≡ false)
    → next_cron_fire at c rounds t ≡ none
unfolding next_cron_fire
next_cron_fire-none at c zero t h = refl
next_cron_fire-none at c (suc rounds) t h =
    rw (h t (omega arith) (omega arith))
      (next_cron_fire-none at c rounds (t + 1) (λ k p q. h k (omega arith) (omega arith)))
