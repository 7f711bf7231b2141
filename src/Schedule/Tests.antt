-- ===== src/Schedule/Tests.antt =====
-- Runs of the cron parser and the scheduler, and each theorem about them at a concrete input.
use polarix_plus.Base.{
  if◌then◌else◌, trim_space, split, codes, ℕ, ◌%◌, ◌≡◌, refl, Bool, true, false, none, some, List,
  [], ◌∷◌, arith,
}
use polarix_plus.Schedule.Cron.{Segment, CronExpr, has, parse_segment, parse_field, Clock}
use polarix_plus.Schedule.Cron.Field.{Segments, some_covers, parse_field-covers, nil, cons}
use polarix_plus.Schedule.Jobs.{
  Job, Registered, Scheduler, new_scheduler, register, cancel, exists_job, try_fire, cron_tick,
  group_message,
}
use polarix_plus.Schedule.Jobs.Cancel.{do_cancel, run, try_fire_cancelled, do_register, do_tick}
use polarix_plus.Schedule.Jobs.Registry.Keep.{HasRegistry, run-HasRegistry, exists_job-cancel}
use polarix_plus.Schedule.Jobs.Firing.{cron_tick_once}

abbrev evens : Segment
evens = record { start = 0; stop = 8; step = 2 }

parse_segment_test : parse_segment (codes "0-8/2") 0 59 ≡ some evens
unfolding parse_segment
parse_segment_test = refl

parse_field_test : parse_field (codes "1,5-6") 0 59 ≡ some (1 ∷ 5 ∷ 6 ∷ [])
unfolding parse_field
parse_field_test = refl

-- a step that overflows comes back into the field, at 3 and at 1
parse_field_overflow :
    parse_field (codes "5/9223372036854775807") 0 59
    ≡ some (
        5 ∷ 9223372036854775812 ∷ 3 ∷ 9223372036854775810 ∷ 1 ∷ 9223372036854775808
        ∷ 18446744073709551615 ∷ [])
unfolding parse_field
parse_field_overflow = refl

evens-Segments : Segments 0 59 (split b',' (codes "0-8/2")) (evens ∷ [])
unfolding split
evens-Segments = cons trimmed nil
  where
    trimmed : parse_segment (trim_space (codes "0-8/2")) 0 59 ≡ some evens
    trimmed = unfold parse_segment in unfold trim_space in refl

parse_field-covers_example :
    (out : List ℕ) × (parse_field (codes "0-8/2") 0 59 ≡ some out)
    × ((v : ℕ) → has v out ≡ some_covers v (evens ∷ []))
parse_field-covers_example =
    parse_field-covers (codes "0-8/2") 0 59 (omega arith) (omega arith) evens-Segments
      ((omega arith, omega arith), tt)

-- a job every minute, and one that was cancelled
abbrev minutely : CronExpr
minutely = record {
  minute = 0 ∷ 1 ∷ [];
  hour = 8 ∷ [];
  day = 1 ∷ [];
  month = 1 ∷ [];
  weekday = 4 ∷ [];
}

abbrev clock_at : ℕ → Clock
clock_at m = record { minute = m % 60; hour = 8; day = 1; month = 1; weekday = 4 }

abbrev daily : Job
daily = record {
  id = codes "daily";
  plugin_id = codes "sign";
  cron = codes "0,1 8 1 1 4";
  interval = 0;
  immediate = false;
  group_id = [];
  user_id = [];
  target = group_message;
  has_handle = true;
}

abbrev entry_with : Bool → Registered
entry_with c = record {
  job = daily;
  cron = some minutely;
  last_fire = none;
  paused = false;
  cancelled = c;
}

abbrev one_job : Bool → Scheduler
one_job c = record {
  heap = entry_with c ∷ [];
  jobs = if c then [] else 0 ∷ [];
  has_client = true;
  started = true;
  cron_loop_on = true;
  interval_loops = [];
  cron_loops = 1;
  notified = 0;
}

register_test : exists_job (codes "daily") (register (some daily) new_scheduler) ≡ true
unfolding exists_job register new_scheduler
register_test = refl

cancel_test : exists_job (codes "daily") (cancel (codes "daily") (one_job false)).1 ≡ false
unfolding exists_job cancel
cancel_test = refl

cron_tick_test : (cron_tick (clock_at 1) 1 (one_job false)).0 ≡ 0 ∷ []
unfolding cron_tick
cron_tick_test = refl

cron_tick_once_example :
    let s' = (cron_tick (clock_at 1) 1 (one_job false)).1 in cron_tick (clock_at 1) 1 s' ≡ ([], s')
cron_tick_once_example = cron_tick_once (clock_at 1) 1 (one_job false)

try_fire_cancelled_example :
    try_fire 0 5 (run (do_register (some daily) ∷ do_tick (clock_at 1) 1 ∷ []) (one_job true))
    ≡ (false, run (do_register (some daily) ∷ do_tick (clock_at 1) 1 ∷ []) (one_job true))
try_fire_cancelled_example =
    try_fire_cancelled (do_register (some daily) ∷ do_tick (clock_at 1) 1 ∷ []) (one_job true) 0 5
      refl refl

-- a calendar in which the hour never comes
abbrev noon : ℕ → Clock
noon m = record { minute = m % 60; hour = 12; day = 1; month = 1; weekday = 4 }

one_job-HasRegistry : HasRegistry (one_job false)
one_job-HasRegistry = record { live = (refl, tt); distinct = (tt, tt) }

run-HasRegistry_example :
    HasRegistry (run (do_register (some daily) ∷ do_cancel (codes "daily") ∷ []) new_scheduler)
run-HasRegistry_example =
    run-HasRegistry (do_register (some daily) ∷ do_cancel (codes "daily") ∷ [])

exists_job-cancel_example :
    exists_job (codes "daily") (cancel (codes "daily") (one_job false)).1 ≡ false
exists_job-cancel_example =
    exists_job-cancel (codes "daily") (one_job false) refl one_job-HasRegistry
