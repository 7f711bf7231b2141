-- ===== src/Schedule/Jobs/Cancel.antt =====
-- No operation brings a cancelled job back.
use mathlib.Core.Option
use mathlib.Core.Path.{subst}
use native.Mathlib.Decide.{ℕ_discrete}
use polarix_plus.Base.{
  if◌then◌else◌, Bool-cases, length, get_elem?, update_at, get_elem?-update_at_ne,
  get_elem?-update_at-map, Text, ℕ, zero, suc, ◌≡◌, refl, sym, ◌∙◌, inl, inr, Bool, true, false,
  ◌||◌, Option, none, some, List, [], ◌∷◌, ◌++◌, arith,
}
use polarix_plus.Schedule.Cron.{Clock}
use polarix_plus.Schedule.Jobs.{
  Job, Registered, Scheduler, find_job, stop_job, pause_job, fired_at, accept, enter_at, enter,
  launch, register_at, register, cancel_at, cancel, pause_at, set_paused, start, stop, try_at,
  try_fire, due_at, sweep, cron_tick,
}

-- What a caller, or a loop of the scheduler, can do.
pub data Op : Type 0 where
  do_register : Option Job → Op
  do_cancel : Text → Op
  do_pause : Bool → Text → Op
  do_start : Bool → Op
  do_stop : Op
  do_try_fire : ℕ → ℕ → Op
  do_tick : Clock → ℕ → Op

abbrev pub step : Op → Scheduler → Scheduler
step (do_register j) s = register j s
step (do_cancel id) s = (cancel id s).1
step (do_pause p id) s = (set_paused p id s).1
step (do_start c) s = start c s
step do_stop s = stop s
step (do_try_fire r now) s = (try_fire r now s).1
step (do_tick t key) s = (cron_tick t key s).1

abbrev pub run : List Op → Scheduler → Scheduler
run [] s = s
run (o ∷ os) s = run os (step o s)

-- A later form of an entry: the same job, and cancelled if it was.
abbrev pub Later : Registered → Registered → Type 0
Later a b = (b.job ≡ a.job) × (a.cancelled ≡ true → b.cancelled ≡ true)

abbrev pub LaterAt : Option Registered → Option Registered → Type 0
LaterAt none o = Unit
LaterAt (some a) none = ⊥
LaterAt (some a) (some b) = Later a b

-- A later form of a heap: no entry is lost.
pub record Extends (h h' : List Registered) : Type 0 where
  pub at : (r : ℕ) → LaterAt (get_elem? h r) (get_elem? h' r)

LaterAt-refl : (o : Option Registered) → LaterAt o o
LaterAt-refl none = tt
LaterAt-refl (some a) = (refl, λ e. e)

LaterAt-trans : (a b c : Option Registered) → LaterAt a b → LaterAt b c → LaterAt a c
LaterAt-trans none b c h k = tt
LaterAt-trans (some a) none c h k = absurd h
LaterAt-trans (some a) (some b) none h k = absurd k
LaterAt-trans (some a) (some b) (some c) h k = (k.0 ∙ h.0, λ e. k.1 (h.1 e))

LaterAt-map :
    (f : Registered → Registered) (o : Option Registered)
    → ((a : Registered) → Later a (f a))
    → LaterAt o (Option.map f o)
LaterAt-map f none h = tt
LaterAt-map f (some a) h = h a

pub Extends-refl : (h : List Registered) → Extends h h
Extends-refl h = record { at = λ r. LaterAt-refl (get_elem? h r) }

pub Extends-trans : {a b c : List Registered} → Extends a b → Extends b c → Extends a c
Extends-trans {a} {b} {c} h k = record {
  at = λ r. LaterAt-trans (get_elem? a r) (get_elem? b r) (get_elem? c r) (h.at r) (k.at r);
}

pub Extends-update :
    (i : ℕ) (f : Registered → Registered) (h : List Registered)
    → ((a : Registered) → Later a (f a))
    → Extends h (update_at i f h)
Extends-update i f h p = record {
  at = λ r. elim (ℕ_discrete i r) [
    | yes e ↦
        subst (λ q. LaterAt (get_elem? h q) (get_elem? (update_at i f h) q)) e
          (rw (get_elem?-update_at-map i f h) (LaterAt-map f (get_elem? h i) p))
    | no n ↦ rw (get_elem?-update_at_ne i r f h n) (LaterAt-refl (get_elem? h r))
  ];
}

LaterAt-append : (h t : List Registered) (r : ℕ) → LaterAt (get_elem? h r) (get_elem? (h ++ t) r)
LaterAt-append [] t r = tt
LaterAt-append (a ∷ h) t zero = (refl, λ e. e)
LaterAt-append (a ∷ h) t (suc r) = LaterAt-append h t r

pub Extends-append : (h t : List Registered) → Extends h (h ++ t)
Extends-append h t = record { at = LaterAt-append h t }

-- The heap of each operation extends the heap before it.
enter_at-Extends :
    (rj : Registered) (s : Scheduler) (o : Option ℕ) → Extends s.heap (enter_at rj s o).heap
unfolding enter_at
enter_at-Extends rj s none = Extends-append s.heap (rj ∷ [])
enter_at-Extends rj s (some old) =
    Extends-trans (Extends-update old stop_job s.heap (λ a. (refl, λ e. refl)))
      (Extends-append (update_at old stop_job s.heap) (rj ∷ []))

launch-heap : (rj : Registered) (new : ℕ) (s : Scheduler) → (launch rj new s).heap ≡ s.heap
unfolding launch
launch-heap rj new s = ground arith

register_at-Extends :
    (o : Option Registered) (s : Scheduler) → Extends s.heap (register_at o s).heap
register_at-Extends none s = unfold register_at in Extends-refl s.heap
register_at-Extends (some rj) s =
    subst (Extends s.heap) (sym (launch-heap rj (length s.heap) (enter rj s)) ∙ shown)
      (unfold enter in enter_at-Extends rj s (find_job s.heap rj.job.id s.jobs))
  where
    shown : (launch rj (length s.heap) (enter rj s)).heap ≡ (register_at (some rj) s).heap
    shown = unfold register_at in refl

register-Extends : (j : Option Job) (s : Scheduler) → Extends s.heap (register j s).heap
unfolding register
register-Extends none s = Extends-refl s.heap
register-Extends (some j) s = register_at-Extends (accept j) s

cancel_at-Extends :
    (id : Text) (s : Scheduler) (o : Option ℕ) → Extends s.heap (cancel_at id s o).1.heap
unfolding cancel_at
cancel_at-Extends id s none = Extends-refl s.heap
cancel_at-Extends id s (some r) = Extends-update r stop_job s.heap (λ a. (refl, λ e. refl))

pause_at-Extends :
    (p : Bool) (s : Scheduler) (o : Option ℕ) → Extends s.heap (pause_at p s o).1.heap
unfolding pause_at
pause_at-Extends p s none = Extends-refl s.heap
pause_at-Extends p s (some r) = Extends-update r (pause_job p) s.heap (λ a. (refl, λ e. e))

start-heap : (c : Bool) (s : Scheduler) → (start c s).heap ≡ s.heap
unfolding start
start-heap c s = ground arith

stop-heap : (s : Scheduler) → (stop s).heap ≡ s.heap
unfolding stop
stop-heap s = ground arith

try_at-Extends :
    (r now : ℕ) (s : Scheduler) (o : Option Registered) → Extends s.heap (try_at r now s o).1.heap
unfolding try_at
try_at-Extends r now s none = Extends-refl s.heap
try_at-Extends r now s (some rj) = elim (Bool-cases (rj.paused || rj.cancelled)) [
  | inl e ↦ subst (Extends s.heap) (unchanged e) (Extends-refl s.heap)
  | inr e ↦
      subst (Extends s.heap) (changed e)
        (Extends-update r (fired_at now) s.heap (λ a. (refl, λ q. q)))
]
  where
    unchanged : (rj.paused || rj.cancelled) ≡ true → s.heap ≡ (try_at r now s (some rj)).1.heap
    unchanged e = ground arith

    changed :
        (rj.paused || rj.cancelled) ≡ false
        → update_at r (fired_at now) s.heap ≡ (try_at r now s (some rj)).1.heap
    changed e = ground arith

sweep-Extends :
    (t : Clock) (key : ℕ) (rs : List ℕ) (h : List Registered) → Extends h (sweep t key rs h).1
unfolding sweep
sweep-Extends t key [] h = Extends-refl h
sweep-Extends t key (r ∷ rs) h =
    Extends-trans (first (due_at t key (get_elem? h r))) (sweep-Extends t key rs _)
  where
    first : (b : Bool) → Extends h (if b then update_at r (fired_at key) h else h)
    first true = Extends-update r (fired_at key) h (λ a. (refl, λ q. q))
    first false = Extends-refl h

pub step-Extends : (o : Op) (s : Scheduler) → Extends s.heap (step o s).heap
step-Extends (do_register j) s = register-Extends j s
step-Extends (do_cancel id) s = unfold cancel in cancel_at-Extends id s (find_job s.heap id s.jobs)
step-Extends (do_pause p id) s =
    unfold set_paused in pause_at-Extends p s (find_job s.heap id s.jobs)
step-Extends (do_start c) s = subst (Extends s.heap) (sym (start-heap c s)) (Extends-refl s.heap)
step-Extends do_stop s = subst (Extends s.heap) (sym (stop-heap s)) (Extends-refl s.heap)
step-Extends (do_try_fire r now) s = unfold try_fire in try_at-Extends r now s (get_elem? s.heap r)
step-Extends (do_tick t key) s = unfold cron_tick in sweep-Extends t key s.jobs s.heap

pub run-Extends : (os : List Op) (s : Scheduler) → Extends s.heap (run os s).heap
run-Extends [] s = Extends-refl s.heap
run-Extends (o ∷ os) s = Extends-trans (step-Extends o s) (run-Extends os (step o s))

refused :
    (r now : ℕ) (s : Scheduler) (o o' : Option Registered) {a : Registered}
    → o ≡ some a
    → a.cancelled ≡ true
    → LaterAt o o'
    → try_at r now s o' ≡ (false, s)
unfolding try_at
refused r now s none o' e c h = cc
refused r now s (some a) none e c h = absurd h
refused r now s (some a) (some b) e c h = ground (arith, h.1)

-- A loop that still holds a cancelled job never fires it again, whatever is done in between: its
-- rounds change nothing.
pub try_fire_cancelled :
    (os : List Op) (s : Scheduler) (r now : ℕ) {a : Registered}
    → get_elem? s.heap r ≡ some a
    → a.cancelled ≡ true
    → try_fire r now (run os s) ≡ (false, run os s)
unfolding try_fire
try_fire_cancelled os s r now e c =
    refused r now (run os s) (get_elem? s.heap r) (get_elem? (run os s).heap r) e c
      ((run-Extends os s).at r)
