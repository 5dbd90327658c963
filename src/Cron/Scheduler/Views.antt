-- ===== src/Cron/Scheduler/Views.antt =====
-- cron/scheduler.py: the views of the jobs for the dashboard.
use plugin_baselithbot.Heap.{get_elem?}
use plugin_baselithbot.Dict.{get, values}
use plugin_baselithbot.Cron.Scheduler.{CronLibrary, CronJob, CronScheduler}
use plugin_baselithbot.Common.{ℕ, String, Bool, Option, none, some, List, [], ◌∷◌, map}

-- The fields of a job that the dashboard shows.
pub record JobInfo : Type 0 where
  pub name : String
  pub interval_seconds : ℕ
  pub enabled : Bool
  pub runs : ℕ
  pub next_run_at : ℕ
  pub last_run_at : Option ℕ
  pub last_error : Option String
  pub description : String
  pub cron_text : Option String

module _ (cron : CronLibrary) where
  unfoldable pub job_info : CronJob cron → JobInfo
  job_info j = record {
    name = j.name;
    interval_seconds = j.interval;
    enabled = j.enabled;
    runs = j.runs;
    next_run_at = j.next_run_at;
    last_run_at = j.last_run_at;
    last_error = j.last_error;
    description = j.description;
    cron_text = j.cron_text;
  }

  -- The objects that references of the table stand for; every reference has one.
  abbrev objects : List (CronJob cron) → List ℕ → List (CronJob cron)
  objects heap [] = []
  objects heap (ref ∷ refs) = elim (get_elem? heap ref) [
    | none ↦ objects heap refs
    | some j ↦ j ∷ objects heap refs
  ]

  unfoldable pub job_list : CronScheduler cron → List JobInfo
  unfolding job_info
  job_list s = map job_info (objects s.heap (values s.jobs))

  unfoldable pub get_job : CronScheduler cron → String → Option JobInfo
  unfolding job_info
  get_job s name = elim (get s.jobs name) [
    | none ↦ none
    | some ref ↦ elim (get_elem? s.heap ref) [ none ↦ none | some j ↦ some (job_info j) ]
  ]
