-- ===== src/Cron/Scheduler.antt =====
-- cron/scheduler.py: the asyncio scheduler. A job is a mutable object, here a reference into a heap:
-- the table of names and the list of due jobs of a pass hold references, so that a job which is
-- removed or replaced while a pass runs is still the object that the pass completes.
pub mod Loop
pub mod Invariant
pub mod Runs
pub mod Passes
pub mod Views
use plugin_baselithbot.Heap.{get_elem?, modify}
use plugin_baselithbot.Clock.{second}
use plugin_baselithbot.Dict.{Dict, get, put, remove, values}
use plugin_baselithbot.Lists.{length, keep}
use plugin_baselithbot.Common.{
  ℕ, suc, ◌+◌, ◌-◌, ◌<◌, max, min, String, Bool, true, false, ◌&&◌, Option, none, some, List, [],
  ◌∷◌, ◌++◌, ltb, leb, if◌then◌else◌, is_some, map,
}

-- `core.task_queue.cron`: the parser of expressions and the next time at which one fires.
pub record CronLibrary : Type 1 where
  pub Expr : Type 0
  pub parse : String → Option Expr
  pub next_after : Expr → ℕ → ℕ
  pub next_later : (e : Expr) (now : ℕ) → now < next_after e now

module _ (cron : CronLibrary) where
  open cron use {Expr, parse, next_after, next_later}

  -- The function of a job is known by the job's reference; `cron_text` and `cron_expr` are the fields
  -- `cron` and `cron_expr`.
  pub record CronJob : Type 0 where
    pub name : String
    pub interval : ℕ
    pub next_run_at : ℕ
    pub enabled : Bool
    pub runs : ℕ
    pub last_error : Option String
    pub last_run_at : Option ℕ
    pub description : String
    pub cron_text : Option String
    pub cron_expr : Option Expr

  pub record CronScheduler : Type 0 where
    pub jobs : Dict ℕ
    pub heap : List CronJob
    pub wake : Bool

  abbrev pub init : CronScheduler
  init = record { jobs = []; heap = []; wake = false }

  -- self._jobs[name] = CronJob(...); self._wake.set()
  unfoldable pub store : CronScheduler → String → CronJob → CronScheduler
  store s name job = record {
    jobs = put s.jobs name (length s.heap);
    heap = s.heap ++ job ∷ [];
    wake = true;
  }

  -- `none` is the `ValueError`.
  unfoldable pub add_interval :
      CronScheduler → String → ℕ → String → Bool → ℕ → Option CronScheduler
  unfolding store
  add_interval s name seconds description enabled now =
      if ltb seconds second
      then none
      else some (
          store s name (record {
            name = name;
            interval = seconds;
            next_run_at = now + seconds;
            enabled = enabled;
            runs = 0;
            last_error = none;
            last_run_at = none;
            description = description;
            cron_text = none;
            cron_expr = none;
          }))

  unfoldable pub add_cron :
      CronScheduler → String → String → String → Bool → ℕ → Option CronScheduler
  unfolding store
  add_cron s name expr description enabled now = elim (parse expr) [
    | none ↦ none
    | some e ↦ some (
        store s name (record {
          name = name;
          interval = 0;
          next_run_at = next_after e now;
          enabled = enabled;
          runs = 0;
          last_error = none;
          last_run_at = none;
          description = description;
          cron_text = some expr;
          cron_expr = some e;
        }))
  ]

  unfoldable pub remove_job : CronScheduler → String → CronScheduler × Bool
  remove_job s name =
      let existed = is_some (get s.jobs name) in
      (record s { jobs = remove s.jobs name; wake = if existed then true else s.wake }, existed)

  abbrev pub reschedule : CronJob → ℕ → CronJob
  reschedule job now = record job {
    next_run_at = elim job.cron_expr [ some e ↦ next_after e now | none ↦ now + job.interval ];
  }

  abbrev pub switched : Bool → ℕ → CronJob → CronJob
  switched enabled now job =
      let job' : CronJob = record job { enabled = enabled } in
      if enabled then reschedule job' now else job'

  unfoldable pub set_enabled : CronScheduler → String → Bool → ℕ → CronScheduler × Bool
  set_enabled s name enabled now = elim (get s.jobs name) [
    | none ↦ (s, false)
    | some ref ↦ (record s { heap = modify s.heap ref (switched enabled now); wake = true }, true)
  ]

  abbrev pub spaced : ℕ → ℕ → CronJob → CronJob
  spaced seconds now job = record job { interval = seconds; next_run_at = now + seconds }

  abbrev pub is_cron : CronScheduler → ℕ → Bool
  is_cron s ref = elim (get_elem? s.heap ref) [ none ↦ false | some job ↦ is_some job.cron_expr ]

  -- `none` is the `ValueError`.
  unfoldable pub set_interval : CronScheduler → String → ℕ → ℕ → Option (CronScheduler × Bool)
  set_interval s name seconds now = if ltb seconds second then none else elim (get s.jobs name) [
    | none ↦ some (s, false)
    | some ref ↦
        if is_cron s ref
        then some (s, false)
        else some (record s { heap = modify s.heap ref (spaced seconds now); wake = true }, true)
  ]

  abbrev pub due_now : ℕ → CronJob → CronJob
  due_now now job = record job { next_run_at = now }

  unfoldable pub trigger : CronScheduler → String → ℕ → CronScheduler × Bool
  trigger s name now = elim (get s.jobs name) [
    | none ↦ (s, false)
    | some ref ↦ (record s { heap = modify s.heap ref (due_now now); wake = true }, true)
  ]

  abbrev pub is_due : List CronJob → ℕ → ℕ → Bool
  is_due heap now ref = elim (get_elem? heap ref) [
    | none ↦ false
    | some job ↦ job.enabled && leb job.next_run_at now
  ]

  -- The start of a pass of `_run_loop`: the jobs that are due.
  unfoldable pub due_jobs : CronScheduler → ℕ → List ℕ
  due_jobs s now = keep (is_due s.heap now) (values s.jobs)

  -- A job of the pass has ended, at the time `now`: with an error, or with none.
  abbrev pub ran : Option String → ℕ → CronJob → CronJob
  ran failure now job =
      reschedule (record job { last_error = failure; runs = suc job.runs; last_run_at = some now })
        now

  unfoldable pub complete : CronScheduler → ℕ → Option String → ℕ → CronScheduler
  complete s ref failure now = record s { heap = modify s.heap ref (ran failure now) }

  -- self._tick, and the least time that the loop sleeps
  abbrev pub tick : ℕ
  tick = second

  abbrev pub least_sleep : ℕ
  least_sleep = 50

  -- min of the times that are left to the enabled jobs, and of a bound
  unfoldable pub soonest : List CronJob → ℕ → ℕ → List ℕ → ℕ
  soonest heap now bound [] = bound
  soonest heap now bound (ref ∷ refs) = elim (get_elem? heap ref) [
    | none ↦ soonest heap now bound refs
    | some job ↦
        let rest = soonest heap now bound refs in
        if job.enabled then min (job.next_run_at - now) rest else rest
  ]

  -- With no enabled job the loop sleeps for a tick, which is then also the least bound.
  unfoldable pub sleep_until_next : CronScheduler → ℕ → ℕ
  unfolding soonest
  sleep_until_next s now = max least_sleep (soonest s.heap now tick (values s.jobs))
