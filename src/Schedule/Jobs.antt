-- ===== src/Schedule/Jobs.antt =====
-- The registry of jobs and the scheduler's loops (lib/schedule/schedule.go). `*registeredJob` is an
-- index of the heap, since a loop keeps its job after the registry has dropped it. Each operation is
-- one critical section of the code; the goroutines that it starts are listed in the state, and their
-- rounds, `try_fire` and `cron_tick`, are operations of their own.
pub mod Target
pub mod Registry
pub mod Cancel
pub mod Firing
use polarix_plus.Base.{
  ltb, ◌==◌, if◌then◌else◌, ◌>>=◌, sle, length, get_elem?, keep, update_at, is_some, Text, text_eq,
  is_empty, ℕ, zero, suc, ◌+◌, Bool, true, false, not, ◌&&◌, Option, none, some, List, [], ◌∷◌,
  ◌++◌,
}
use polarix_plus.Schedule.Cron.{CronExpr, parse_cron, Clock, match}

pub data Origin : Type 0 where
  group_message private_message : Origin

-- A job as the plugin gives it. `interval` is a `time.Duration`, an int64; `has_handle` says that
-- `Handle` is not nil.
pub record Job : Type 0 where
  pub id : Text
  pub plugin_id : Text
  pub cron : Text
  pub interval : ℕ
  pub immediate : Bool
  pub group_id : Text
  pub user_id : Text
  pub target : Origin
  pub has_handle : Bool

-- `last_fire` is the zero time (`none`) or the time of the last firing: the minute of a cron job.
pub record Registered : Type 0 where
  pub job : Job
  pub cron : Option CronExpr
  pub last_fire : Option ℕ
  pub paused : Bool
  pub cancelled : Bool  -- the channel `cancel` is closed

pub record Scheduler : Type 0 where
  pub heap : List Registered
  pub jobs : List ℕ
  pub has_client : Bool
  pub started : Bool
  pub cron_loop_on : Bool
  pub interval_loops : List ℕ  -- the jobs for which `go runInterval` was called
  pub cron_loops : ℕ  -- how often `go runCronLoop` was called
  pub notified : ℕ  -- how often `NotifyChanged` was called

unfoldable pub new_scheduler : Scheduler
new_scheduler = record {
  heap = [];
  jobs = [];
  has_client = false;
  started = false;
  cron_loop_on = false;
  interval_loops = [];
  cron_loops = 0;
  notified = 0;
}

abbrev pub has_interval : Job → Bool
has_interval j = not (sle j.interval 0)

abbrev id_matches : Text → Option Registered → Bool
id_matches id none = false
id_matches id (some rj) = text_eq rj.job.id id

-- `jobs[i].job.Id == id`
abbrev pub id_is : List Registered → Text → ℕ → Bool
id_is heap id r = id_matches id (get_elem? heap r)

-- the first job with an id
unfoldable pub find_job : List Registered → Text → List ℕ → Option ℕ
find_job heap id [] = none
find_job heap id (r ∷ rs) =
    let rest = find_job heap id rs in if id_is heap id r then some r else rest

-- `jobs[i] = rj` at the first job with the id
unfoldable pub replace_job : List Registered → Text → ℕ → List ℕ → List ℕ
replace_job heap id new [] = []
replace_job heap id new (r ∷ rs) =
    let rest = replace_job heap id new rs in if id_is heap id r then new ∷ rs else r ∷ rest

-- `append(jobs[:i], jobs[i+1:]...)` at the first job with the id
unfoldable pub remove_job : List Registered → Text → List ℕ → List ℕ
remove_job heap id [] = []
remove_job heap id (r ∷ rs) =
    let rest = remove_job heap id rs in if id_is heap id r then rs else r ∷ rest

-- `stop` closes the channel, once
abbrev pub stop_job : Registered → Registered
stop_job rj = record rj { cancelled = true }

abbrev pub pause_job : Bool → Registered → Registered
pause_job p rj = record rj { paused = p }

abbrev pub fired_at : ℕ → Registered → Registered
fired_at key rj = record rj { last_fire = some key }

-- the guards of `Register` and the parsing of the expression: the new entry, if the job is accepted
unfoldable pub accept : Job → Option Registered
unfolding parse_cron
accept j =
    let fresh : Option CronExpr → Registered =
      λ c. record { job = j; cron = c; last_fire = none; paused = false; cancelled = false } in
    if is_empty j.id
    then none
    else if not j.has_handle
    then none
    else if not (has_interval j) && is_empty j.cron
    then none
    else if has_interval j
    then some (fresh none)
    else (parse_cron j.cron >>= λ (c : CronExpr). some (fresh (some c)))

-- the section under `jobsLock`, with the job found under the id
unfoldable pub enter_at : Registered → Scheduler → Option ℕ → Scheduler
unfolding replace_job text_eq
enter_at rj s (some old) = record s {
  heap = update_at old stop_job s.heap ++ rj ∷ [];
  jobs = replace_job s.heap rj.job.id (length s.heap) s.jobs;
}
enter_at rj s none = record s { heap = s.heap ++ rj ∷ []; jobs = s.jobs ++ length s.heap ∷ [] }

unfoldable pub enter : Registered → Scheduler → Scheduler
unfolding enter_at find_job
enter rj s = enter_at rj s (find_job s.heap rj.job.id s.jobs)

-- the section under `startMu`, the loops that it starts and the notification
unfoldable pub launch : Registered → ℕ → Scheduler → Scheduler
launch rj new s =
    let need_cron = s.started && not (has_interval rj.job) && not s.cron_loop_on in
    if not s.started
    then s
    else if has_interval rj.job
    then record s { interval_loops = new ∷ s.interval_loops; notified = s.notified + 1 }
    else if need_cron
    then record s { cron_loop_on = true; cron_loops = s.cron_loops + 1; notified = s.notified + 1 }
    else record s { notified = s.notified + 1 }

-- the rest of `Register` behind its guards
unfoldable pub register_at : Option Registered → Scheduler → Scheduler
unfolding enter launch
register_at none s = s
register_at (some rj) s = launch rj (length s.heap) (enter rj s)

-- `Register`; `none` stands for a nil job
unfoldable pub register : Option Job → Scheduler → Scheduler
unfolding accept register_at
register none s = s
register (some j) s = register_at (accept j) s

unfoldable pub cancel_at : Text → Scheduler → Option ℕ → Bool × Scheduler
unfolding remove_job text_eq
cancel_at id s none = (false, s)
cancel_at id s (some r) = (
  true,
  record s {
    heap = update_at r stop_job s.heap;
    jobs = remove_job s.heap id s.jobs;
    notified = s.notified + 1;
  },
)

unfoldable pub cancel : Text → Scheduler → Bool × Scheduler
unfolding cancel_at find_job
cancel id s = cancel_at id s (find_job s.heap id s.jobs)

-- `Pause` and `Resume`
unfoldable pub pause_at : Bool → Scheduler → Option ℕ → Bool × Scheduler
pause_at p s none = (false, s)
pause_at p s (some r) =
    (true, record s { heap = update_at r (pause_job p) s.heap; notified = s.notified + 1 })

unfoldable pub set_paused : Bool → Text → Scheduler → Bool × Scheduler
unfolding pause_at find_job text_eq
set_paused p id s = pause_at p s (find_job s.heap id s.jobs)

-- `IsPaused`: whether the job is paused, and whether it is there
unfoldable pub is_paused : Text → Scheduler → Bool × Bool
unfolding find_job text_eq
is_paused id s = elim (find_job s.heap id s.jobs) [
  | none ↦ (false, false)
  | some r ↦ (elim (get_elem? s.heap r) [ none ↦ false | some rj ↦ rj.paused ], true)
]

unfoldable pub exists_job : Text → Scheduler → Bool
unfolding find_job text_eq
exists_job id s = is_some (find_job s.heap id s.jobs)

unfoldable pub job_count : Scheduler → ℕ
job_count s = length s.jobs

abbrev of_interval : Option Registered → Bool
of_interval none = false
of_interval (some rj) = has_interval rj.job

-- `Start`; the argument says that the client is not nil
unfoldable pub start : Bool → Scheduler → Scheduler
start client s =
    let by_interval = keep (λ r. of_interval (get_elem? s.heap r)) s.jobs in
    let by_cron = keep (λ r. not (of_interval (get_elem? s.heap r))) s.jobs in
    if s.started then s else if not client then s else record s {
      has_client = true;
      started = true;
      interval_loops = by_interval ++ s.interval_loops;
      cron_loop_on = if ltb 0 (length by_cron) then true else s.cron_loop_on;
      cron_loops = if ltb 0 (length by_cron) then s.cron_loops + 1 else s.cron_loops;
    }

-- `Stop`: every loop waits on `stopCh`, and returns
unfoldable pub stop : Scheduler → Scheduler
stop s =
    if not s.started
    then s
    else record s { started = false; cron_loop_on = false; interval_loops = []; cron_loops = 0 }

-- `tryFire` at a time, with the entry that the loop holds: whether `fire` is called
unfoldable pub try_at : ℕ → ℕ → Scheduler → Option Registered → Bool × Scheduler
try_at r now s none = (false, s)
try_at r now s (some rj) =
    if rj.paused
    then (false, s)
    else if rj.cancelled
    then (false, s)
    else (true, record s { heap = update_at r (fired_at now) s.heap; notified = s.notified + 1 })

unfoldable pub try_fire : ℕ → ℕ → Scheduler → Bool × Scheduler
unfolding try_at
try_fire r now s = try_at r now s (get_elem? s.heap r)

abbrev is_minute : ℕ → Option ℕ → Bool
is_minute key none = false
is_minute key (some t) = t == key

-- whether a tick of the cron loop fires a job
unfoldable pub is_due : Clock → ℕ → Registered → Bool
unfolding match
is_due t key rj = elim rj.cron [
  | none ↦ false
  | some c ↦
      if rj.paused
      then false
      else if not (match c t)
      then false
      else not (is_minute key rj.last_fire)
]

unfoldable pub due_at : Clock → ℕ → Option Registered → Bool
unfolding is_due
due_at t key none = false
due_at t key (some rj) = is_due t key rj

-- the loop over `jobs` at a tick
unfoldable pub sweep : Clock → ℕ → List ℕ → List Registered → List ℕ × List Registered
unfolding due_at
sweep t key [] heap = ([], heap)
sweep t key (r ∷ rs) heap =
    let due = due_at t key (get_elem? heap r) in
    let (out, heap') = sweep t key rs (if due then update_at r (fired_at key) heap else heap) in
    (if due then r ∷ out else out, heap')

-- a tick of `runCronLoop` in the minute `key`: the jobs to fire
unfoldable pub cron_tick : Clock → ℕ → Scheduler → List ℕ × Scheduler
unfolding sweep
cron_tick t key s =
    let (out, heap) = sweep t key s.jobs s.heap in
    (
      out,
      record s {
        heap = heap;
        notified = if ltb 0 (length out) then s.notified + 1 else s.notified;
      },
    )
