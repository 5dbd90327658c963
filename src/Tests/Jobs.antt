-- ===== src/Tests/Jobs.antt =====
-- Inputs for the scheduler of jobs.
use plugin_baselithbot.Common.{
  ℕ, suc, ◌+◌, ◌≡◌, refl, true, false, none, some, [], ◌∷◌, arith, ◌==◌, if◌then◌else◌,
}
use plugin_baselithbot.Lists.{keep}
use plugin_baselithbot.Dict.{values}
use plugin_baselithbot.Cron.Scheduler.{CronLibrary, CronScheduler, CronJob, is_due, due_jobs}
use plugin_baselithbot.Cron.Scheduler.Loop.{
  adds_interval, adds_cron, removes, starts, loops, completes, new_world, run_world,
}
use plugin_baselithbot.Cron.Scheduler.Runs.{WorldIsValid, run_world-IsValid}
use plugin_baselithbot.Cron.Scheduler.Passes.{pass, runs_of, times_in, pass-once}

-- Expressions that fire every so many milliseconds.
abbrev every : CronLibrary
every = record {
  Expr = ℕ;
  parse = λ s. if s == "hourly" then some 3600000 else none;
  next_after = λ e now. suc (now + e);
  next_later = λ e now. omega arith;
}

abbrev job : CronJob every
job = record {
  name = "prune";
  interval = 2000;
  next_run_at = 5000;
  enabled = true;
  runs = 0;
  last_error = none;
  last_run_at = none;
  description = "";
  cron_text = none;
  cron_expr = none;
}

abbrev sched : CronScheduler every
sched = record { jobs = ("prune", 0) ∷ []; heap = job ∷ []; wake = false }

run_world-IsValid_example : WorldIsValid every (
    run_world every (new_world every) (
      adds_interval "prune" 2000 "" true 0
      ∷ adds_cron "report" "hourly" "" true 0
      ∷ starts
      ∷ loops 3000
      ∷ removes "prune"
      ∷ completes (some "boom") 3100
      ∷ []))
run_world-IsValid_example = run_world-IsValid every (
    adds_interval "prune" 2000 "" true 0
    ∷ adds_cron "report" "hourly" "" true 0
    ∷ starts
    ∷ loops 3000
    ∷ removes "prune"
    ∷ completes (some "boom") 3100
    ∷ [])

pass-once_example :
    runs_of every (pass every sched (due_jobs every sched 5050) ((none, 5100) ∷ [])).heap 0
    ≡ runs_of every sched.heap 0 + (if is_due every sched.heap 5050 0 then 1 else 0)
unfolding due_jobs keep values times_in
pass-once_example = pass-once every sched 5050 ((none, 5100) ∷ []) 0 refl (omega arith) refl
