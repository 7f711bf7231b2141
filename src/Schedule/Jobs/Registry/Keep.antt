-- ===== src/Schedule/Jobs/Registry/Keep.antt =====
-- Every operation keeps the invariant of the registry.
use mathlib.Core.Path.{subst}
use polarix_plus.Base.{
  if◌then◌else◌, if_false, >>=-eq-some, guard-eq-some, if-eq-some, some_inj, length, get_elem?,
  update_at, length-update_at, is_some, Text, text_eq_iff, is_empty, ℕ, ◌≡◌, refl, sym, ap, ◌∙◌,
  ◌≢◌, inl, inr, Bool, true, false, not, ◌&&◌, Option, none, some, List, [], ◌∷◌, ◌++◌, append-nil,
  arith,
}
use polarix_plus.Schedule.Cron.{Clock, parse_cron}
use polarix_plus.Schedule.Jobs.{
  Job, new_scheduler, has_interval, id_matches, id_is, remove_job, pause_job, fired_at, accept,
  enter, register_at, register, cancel_at, cancel, pause_at, set_paused, exists_job, start, stop,
  try_at, try_fire, due_at, sweep, cron_tick, Registered, Scheduler, find_job, stop_job, enter_at,
  launch,
}
use polarix_plus.Schedule.Jobs.Cancel.{
  Op, do_register, do_cancel, do_pause, do_start, do_stop, do_try_fire, do_tick, step, run,
}
use polarix_plus.Schedule.Jobs.Registry.{
  id_of, Keeps, Keeps-IsRegistry, Keeps-refl, Keeps-trans, Keeps-update, IsRegistry,
}
use polarix_plus.Schedule.Jobs.Registry.Change.{
  find_job-Found, taken_out, Lacks, put_in, find_job-Lacks, taken_out-Lacks,
}

abbrev pub HasRegistry : Scheduler → Type 0
HasRegistry s = IsRegistry s.heap s.jobs

enter_none :
    (a : Registered) (s : Scheduler)
    → a.cancelled ≡ false
    → find_job s.heap a.job.id s.jobs ≡ none
    → HasRegistry s
    → HasRegistry (enter_at a s none)
unfolding enter_at
enter_none a s alive e v =
    put_in s.heap a s.jobs [] alive
      (subst (Lacks s.heap a.job.id) (sym (append-nil s.jobs))
        (find_job-Lacks s.heap a.job.id s.jobs v.live e))
      (subst (IsRegistry s.heap) (sym (append-nil s.jobs)) v)

enter_some :
    (a : Registered) (s : Scheduler) {o : ℕ}
    → a.cancelled ≡ false
    → find_job s.heap a.job.id s.jobs ≡ some o
    → HasRegistry s
    → HasRegistry (enter_at a s (some o))
unfolding enter_at
enter_some a s {o} alive e v =
    let f = find_job-Found s.heap a.job.id s.jobs e in
    let h = update_at o stop_job s.heap in
    subst (IsRegistry (h ++ a ∷ []))
      (ap (λ n. f.before ++ n ∷ f.behind) (length-update_at o stop_job s.heap)
        ∙ sym (f.replaced (length s.heap)))
      (put_in h a f.before f.behind alive (taken_out-Lacks s.heap a.job.id s.jobs f v)
        (taken_out s.heap f.before o f.behind (subst (IsRegistry s.heap) f.whole v)))

enter-HasRegistry :
    (a : Registered) (s : Scheduler) (o : Option ℕ)
    → a.cancelled ≡ false
    → find_job s.heap a.job.id s.jobs ≡ o
    → HasRegistry s
    → HasRegistry (enter_at a s o)
enter-HasRegistry a s none alive e v = enter_none a s alive e v
enter-HasRegistry a s (some o) alive e v = enter_some a s alive e v

launch-HasRegistry :
    (a : Registered) (n : ℕ) (s : Scheduler) → HasRegistry s → HasRegistry (launch a n s)
unfolding launch
launch-HasRegistry a n s v = ground (arith, v)

accept-alive : (j : Job) {a : Registered} → accept j ≡ some a → a.cancelled ≡ false
unfolding accept
accept-alive j e =
    let (_, e1) = guard-eq-some (is_empty j.id) _ e in
    let (_, e2) = guard-eq-some (not j.has_handle) _ e1 in
    let (_, e3) = guard-eq-some (not (has_interval j) && is_empty j.cron) _ e2 in
    elim (if-eq-some (has_interval j) _ _ e3) [
      | inl (_, q) ↦ sym (ap (λ (r : Registered). r.cancelled) q)
      | inr (_, q) ↦
          let (c, _, last) = >>=-eq-some (parse_cron j.cron) _ q in
          sym (ap (λ (r : Registered). r.cancelled) (some_inj last))
    ]

register_at-HasRegistry :
    (o : Option Registered) (s : Scheduler)
    → ((a : Registered) → o ≡ some a → a.cancelled ≡ false)
    → HasRegistry s
    → HasRegistry (register_at o s)
unfolding register_at enter
register_at-HasRegistry none s alive v = v
register_at-HasRegistry (some a) s alive v =
    launch-HasRegistry a (length s.heap) (enter_at a s (find_job s.heap a.job.id s.jobs))
      (enter-HasRegistry a s (find_job s.heap a.job.id s.jobs) (alive a refl) refl v)

register-HasRegistry : (j : Option Job) (s : Scheduler) → HasRegistry s → HasRegistry (register j s)
unfolding register
register-HasRegistry none s v = v
register-HasRegistry (some j) s v = register_at-HasRegistry (accept j) s (λ a e. accept-alive j e) v

cancel-HasRegistry :
    (id : Text) (s : Scheduler) (o : Option ℕ)
    → find_job s.heap id s.jobs ≡ o
    → HasRegistry s
    → HasRegistry (cancel_at id s o).1
unfolding cancel_at
cancel-HasRegistry id s none e v = v
cancel-HasRegistry id s (some o) e v =
    let f = find_job-Found s.heap id s.jobs e in
    subst (IsRegistry (update_at o stop_job s.heap)) (sym f.removed)
      (taken_out s.heap f.before o f.behind (subst (IsRegistry s.heap) f.whole v))

pause-HasRegistry :
    (p : Bool) (s : Scheduler) (o : Option ℕ) → HasRegistry s → HasRegistry (pause_at p s o).1
unfolding pause_at
pause-HasRegistry p s none v = v
pause-HasRegistry p s (some o) v =
    Keeps-IsRegistry s.jobs (Keeps-update o (pause_job p) s.heap (λ a. (refl, refl))) v

start-HasRegistry : (c : Bool) (s : Scheduler) → HasRegistry s → HasRegistry (start c s)
unfolding start
start-HasRegistry c s v = ground (arith, v)

stop-HasRegistry : (s : Scheduler) → HasRegistry s → HasRegistry (stop s)
unfolding stop
stop-HasRegistry s v = ground (arith, v)

fired-Keeps : (r now : ℕ) (h : List Registered) → Keeps h (update_at r (fired_at now) h)
fired-Keeps r now h = Keeps-update r (fired_at now) h (λ a. (refl, refl))

try_at-HasRegistry :
    (r now : ℕ) (s : Scheduler) (o : Option Registered)
    → HasRegistry s
    → HasRegistry (try_at r now s o).1
unfolding try_at
try_at-HasRegistry r now s none v = v
try_at-HasRegistry r now s (some rj) v =
    ground (arith, v, Keeps-IsRegistry s.jobs (fired-Keeps r now s.heap) v)

sweep-Keeps :
    (t : Clock) (key : ℕ) (rs : List ℕ) (h : List Registered) → Keeps h (sweep t key rs h).1
unfolding sweep
sweep-Keeps t key [] h = Keeps-refl h
sweep-Keeps t key (r ∷ rs) h =
    Keeps-trans (first (due_at t key (get_elem? h r))) (sweep-Keeps t key rs _)
  where
    first : (b : Bool) → Keeps h (if b then update_at r (fired_at key) h else h)
    first true = fired-Keeps r key h
    first false = Keeps-refl h

-- In the registry there are only jobs that were not cancelled, no two of them with one id, behind any
-- operation.
pub step-HasRegistry : (o : Op) (s : Scheduler) → HasRegistry s → HasRegistry (step o s)
step-HasRegistry (do_register j) s v = register-HasRegistry j s v
step-HasRegistry (do_cancel id) s v =
    unfold cancel in cancel-HasRegistry id s (find_job s.heap id s.jobs) refl v
step-HasRegistry (do_pause p id) s v =
    unfold set_paused in pause-HasRegistry p s (find_job s.heap id s.jobs) v
step-HasRegistry (do_start c) s v = start-HasRegistry c s v
step-HasRegistry do_stop s v = stop-HasRegistry s v
step-HasRegistry (do_try_fire r now) s v =
    unfold try_fire in try_at-HasRegistry r now s (get_elem? s.heap r) v
step-HasRegistry (do_tick t key) s v =
    unfold cron_tick in Keeps-IsRegistry s.jobs (sweep-Keeps t key s.jobs s.heap) v

run-HasRegistry_from : (os : List Op) (s : Scheduler) → HasRegistry s → HasRegistry (run os s)
run-HasRegistry_from [] s v = v
run-HasRegistry_from (o ∷ os) s v = run-HasRegistry_from os (step o s) (step-HasRegistry o s v)

-- Whatever is done with a new scheduler, its registry holds only jobs that were not cancelled, and no
-- two of them have one id.
pub run-HasRegistry : (os : List Op) → HasRegistry (run os new_scheduler)
run-HasRegistry os = run-HasRegistry_from os new_scheduler empty
  where
    empty : HasRegistry new_scheduler
    empty = unfold new_scheduler in record { live = tt; distinct = tt }

Lacks-find_job :
    (h : List Registered) (id : Text) (rs : List ℕ)
    → is_empty id ≡ false
    → Lacks h id rs
    → find_job h id rs ≡ none
unfolding find_job
Lacks-find_job h id [] n u = refl
Lacks-find_job h id (r ∷ rs) n u =
    if_false (id_is h id r) _ _ (missed (get_elem? h r) u.0) ∙ Lacks-find_job h id rs n u.1
  where
    missed : (o : Option Registered) → id_of o ≢ id → id_matches id o ≡ false
    missed none q = refl
    missed (some a) q = ground (arith, text_eq_iff a.job.id id)

cancelled_at :
    (id : Text) (s : Scheduler) (o : Option ℕ)
    → is_empty id ≡ false
    → find_job s.heap id s.jobs ≡ o
    → HasRegistry s
    → exists_job id (cancel_at id s o).1 ≡ false
unfolding cancel_at exists_job
cancelled_at id s none n e v = ap is_some e
cancelled_at id s (some o) n e v =
    let f = find_job-Found s.heap id s.jobs e in
    let h = update_at o stop_job s.heap in
    ap is_some (
      Lacks-find_job h id (remove_job s.heap id s.jobs) n
        (subst (Lacks h id) (sym f.removed) (taken_out-Lacks s.heap id s.jobs f v)))

-- In a registry that holds only live jobs of distinct ids, no job has an id, which is not empty,
-- after `Cancel` of it, whether it was found or not.
pub exists_job-cancel :
    (id : Text) (s : Scheduler)
    → is_empty id ≡ false
    → HasRegistry s
    → exists_job id (cancel id s).1 ≡ false
unfolding cancel
exists_job-cancel id s n v = cancelled_at id s (find_job s.heap id s.jobs) n refl v
