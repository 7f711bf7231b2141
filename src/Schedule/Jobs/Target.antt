-- ===== src/Schedule/Jobs/Target.antt =====
-- What the firing of a job hands to its handler, and when the next firing of a cron job is shown to be
-- (`fire`, `applyJobTarget`, `nextCronFire` in lib/schedule/schedule.go).
use polarix_plus.Base.{
  if◌then◌else◌, Text, is_empty, ℕ, zero, suc, ◌+◌, Bool, not, ◌&&◌, Option, none, some, [],
}
use polarix_plus.Schedule.Cron.{CronExpr, Clock, match}
use polarix_plus.Schedule.Jobs.{Origin, Job, Registered, group_message, private_message}

-- The context that `fire` makes, as far as the job decides it. Its target is first that of a group.
pub record Context : Type 0 where
  pub group_id : Text
  pub user_id : Text
  pub target : Origin

unfoldable pub apply_job_target : Job → Context → Context
apply_job_target j ctx =
    let grouped = if is_empty j.group_id then ctx else record ctx { group_id = j.group_id } in
    let known = if is_empty j.user_id then grouped else record grouped { user_id = j.user_id } in
    elim j.target [
      | private_message ↦ record known { target = private_message }
      | group_message ↦
          if not (is_empty j.group_id)
          then record known { target = group_message }
          else if not (is_empty j.user_id)
          then record known { target = private_message }
          else known
    ]

-- `fire`: the context for the handler, unless the plugin is disabled. `enabled` is
-- `plugin.Enabled`.
unfoldable pub fire : (Text → Bool) → Registered → Option Context
unfolding apply_job_target
fire enabled rj =
    if not (is_empty rj.job.plugin_id) && not (enabled rj.job.plugin_id)
    then none
    else some
        (apply_job_target rj.job (record { group_id = []; user_id = []; target = group_message }))

-- `nextCronFire`: the first of the next `rounds` minutes behind `t` that matches; `at` is the
-- calendar, which turns a minute into its fields.
unfoldable pub next_cron_fire : (ℕ → Clock) → CronExpr → ℕ → ℕ → Option ℕ
next_cron_fire at c zero t = none
next_cron_fire at c (suc rounds) t =
    let rest = next_cron_fire at c rounds (t + 1) in if match c (at t) then some t else rest

-- two days
abbrev pub scan_minutes : ℕ
scan_minutes = 2880
