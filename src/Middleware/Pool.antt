-- ===== src/Middleware/Pool.antt =====
-- The pool of workers (`taskPool` in lib/middleware/pool.go). A task is a number. What the goroutines
-- do is a sequence of operations: a submission, a step of a worker that takes a task, the end of an
-- idle worker, the end of a goroutine that was started for one task.
use polarix_plus.Base.{
  ltb, leb, ◌==◌, if◌then◌else◌, Bool-cases, length, length-append, ℕ, suc, ◌+◌, ◌-◌, ◌≤◌, ◌≡◌,
  refl, ap, ◌∙◌, inl, inr, ◌||◌, List, [], ◌∷◌, ◌++◌, arith,
}

abbrev pub pool_queue : ℕ
pool_queue = 1024

abbrev pub pool_max : ℕ
pool_max = 256

pub record Pool : Type 0 where
  pub tasks : List ℕ  -- the channel
  pub alive : ℕ
  pub extra : List ℕ  -- tasks with a goroutine of their own, not run yet
  pub ran : List ℕ  -- the tasks that `exec` was called with

unfoldable pub new_pool : Pool
new_pool = record { tasks = []; alive = 0; extra = []; ran = [] }

-- the loop that adds a worker, when no other goroutine comes between its read and its swap
unfoldable pub grow : Pool → Pool
grow p =
    if leb (length p.tasks) p.alive || leb pool_max p.alive
    then p
    else record p { alive = p.alive + 1 }

-- `Go`
unfoldable pub submit : ℕ → Pool → Pool
unfolding grow
submit f p =
    if ltb (length p.tasks) pool_queue
    then grow (record p { tasks = p.tasks ++ f ∷ [] })
    else record p { extra = f ∷ p.extra }

-- `loop`: a worker takes the next task and runs it
unfoldable pub take_task : List ℕ → Pool → Pool
take_task [] p = p
take_task (f ∷ fs) p = record p { tasks = fs; ran = f ∷ p.ran }

unfoldable pub run_extra : List ℕ → Pool → Pool
run_extra [] p = p
run_extra (f ∷ fs) p = record p { extra = fs; ran = f ∷ p.ran }

pub data Op : Type 0 where
  go : ℕ → Op
  work : Op
  idle : Op
  run_one : Op

-- a worker exists only while `alive` is positive, and its timer fires with the queue in any state
unfoldable pub step : Op → Pool → Pool
unfolding submit take_task run_extra
step (go f) p = submit f p
step work p = if p.alive == 0 then p else take_task p.tasks p
step idle p = record p { alive = p.alive - 1 }
step run_one p = run_extra p.extra p

unfoldable pub run : List Op → Pool → Pool
unfolding step
run [] p = p
run (o ∷ os) p = run os (step o p)

-- how often a task is in a list
abbrev pub count : ℕ → List ℕ → ℕ
count f [] = 0
count f (g ∷ gs) = if g == f then suc (count f gs) else count f gs

-- how often a task was submitted and not run, or run
abbrev pub held : ℕ → Pool → ℕ
held f p = count f p.tasks + count f p.extra + count f p.ran

abbrev pub submitted : ℕ → List Op → ℕ
submitted f [] = 0
submitted f (go g ∷ os) = if g == f then suc (submitted f os) else submitted f os
submitted f (work ∷ os) = submitted f os
submitted f (idle ∷ os) = submitted f os
submitted f (run_one ∷ os) = submitted f os

count-append : (f : ℕ) (xs ys : List ℕ) → count f (xs ++ ys) ≡ count f xs + count f ys
count-append f [] ys = omega arith
count-append f (x ∷ xs) ys = ground (arith, count-append f xs ys)

abbrev added : ℕ → Op → ℕ
added f (go g) = if g == f then 1 else 0
added f work = 0
added f idle = 0
added f run_one = 0

held-take_task :
    (f : ℕ) (ts : List ℕ) (p : Pool) → ts ≡ p.tasks → held f (take_task ts p) ≡ held f p
unfolding take_task
held-take_task f [] p e = refl
held-take_task f (t ∷ ts) p e = ground (arith, ap (count f) e)

held-run_extra :
    (f : ℕ) (ts : List ℕ) (p : Pool) → ts ≡ p.extra → held f (run_extra ts p) ≡ held f p
unfolding run_extra
held-run_extra f [] p e = refl
held-run_extra f (t ∷ ts) p e = ground (arith, ap (count f) e)

held-step : (f : ℕ) (o : Op) (p : Pool) → held f (step o p) ≡ held f p + added f o
unfolding step submit grow
held-step f (go g) p = ground (arith, count-append f p.tasks (g ∷ []))
held-step f work p = ground (arith, held-take_task f p.tasks p refl)
held-step f idle p = omega arith
held-step f run_one p = omega (arith, held-run_extra f p.extra p refl)

submitted-added :
    (f : ℕ) (o : Op) (os : List Op) → submitted f (o ∷ os) ≡ added f o + submitted f os
submitted-added f (go g) os = ground arith
submitted-added f work os = omega arith
submitted-added f idle os = omega arith
submitted-added f run_one os = omega arith

held-run_from : (f : ℕ) (os : List Op) (p : Pool) → held f (run os p) ≡ held f p + submitted f os
unfolding run
held-run_from f [] p = omega arith
held-run_from f (o ∷ os) p =
    omega (arith, held-run_from f os (step o p), held-step f o p, submitted-added f o os)

-- No task is lost or run twice: whatever the workers do, each is waiting or was run exactly as often
-- as it was submitted.
pub held-run : (f : ℕ) (os : List Op) → held f (run os new_pool) ≡ submitted f os
unfolding new_pool
held-run f os = held-run_from f os new_pool ∙ omega arith

-- the bounds of a pool
pub record IsBounded (p : Pool) : Type 0 where
  pub queue : length p.tasks ≤ pool_queue
  pub workers : p.alive ≤ pool_max

take_task-IsBounded :
    (ts : List ℕ) (p : Pool) → ts ≡ p.tasks → IsBounded p → IsBounded (take_task ts p)
unfolding take_task
take_task-IsBounded [] p e v = v
take_task-IsBounded (t ∷ ts) p e v = record {
  queue = omega (arith, ap length e, v.queue);
  workers = v.workers;
}

run_extra-IsBounded : (ts : List ℕ) (p : Pool) → IsBounded p → IsBounded (run_extra ts p)
unfolding run_extra
run_extra-IsBounded [] p v = v
run_extra-IsBounded (t ∷ ts) p v = record { queue = v.queue; workers = v.workers }

-- From a pool with at most 1024 tasks in the queue and at most 256 workers, any operation leads to
-- one of these again.
pub step-IsBounded : (o : Op) (p : Pool) → IsBounded p → IsBounded (step o p)
unfolding step submit grow
step-IsBounded (go f) p v = ground (arith, length-append p.tasks (f ∷ []))
step-IsBounded work p v = elim (Bool-cases (p.alive == 0)) [
  | inl e ↦ rw e v
  | inr e ↦ rw e (take_task-IsBounded p.tasks p refl v)
]
step-IsBounded idle p v = ground arith
step-IsBounded run_one p v = run_extra-IsBounded p.extra p v
