-- ===== src/Cron/Scheduler/Passes.antt =====
-- What a pass of the loop does, and how long the loop then sleeps.
use plugin_baselithbot.Clock.{second}
use plugin_baselithbot.Common.{
  ℕ, suc, ◌+◌, ◌-◌, ◌≤◌, ◌<◌, max, String, ◌≡◌, refl, inl, inr, Bool, true, false, Option, none,
  some, List, [], ◌∷◌, arith, eqb, if◌then◌else◌, Bool-cases, Option-cases, ap, ◌∙◌,
}
use plugin_baselithbot.Lists.{length, keep}
use plugin_baselithbot.Heap.{get_elem?, length-modify, get_elem?-modify, get_elem?-in_range}
use plugin_baselithbot.Dict.{values}
use plugin_baselithbot.Cron.Scheduler.{
  CronLibrary, CronJob, CronScheduler, is_due, due_jobs, ran, complete, soonest, sleep_until_next,
}
use plugin_baselithbot.Cron.Scheduler.Invariant.{IsSpaced}

module _ (cron : CronLibrary) where
  open cron use {next_after, next_later}

  -- When a job of the pass ends, its run is counted, its error is entered, or cleared if there was none,
  -- and it is not due again at that time: a spaced interval job waits at least a second, and a cron
  -- job waits for a later time of its expression.
  pub complete-later :
      (s : CronScheduler cron) (ref : ℕ) (job : CronJob cron) (failure : Option String) (now : ℕ)
      → get_elem? s.heap ref ≡ some job
      → IsSpaced cron job
      → (get_elem? (complete cron s ref failure now).heap ref ≡ some (ran cron failure now job))
        × (is_due cron (complete cron s ref failure now).heap now ref ≡ false)
        × ((ran cron failure now job).runs ≡ suc job.runs)
        × ((ran cron failure now job).last_error ≡ failure)
  unfolding complete
  complete-later s ref job failure now e h =
      let found = get_elem?-modify s.heap ref ref (ran cron failure now) in
      elim (Option-cases job.cron_expr) [
        | inl n ↦ (ground (arith, found), ground (arith, found, h n), refl, refl)
        | inr (x, n) ↦ (ground (arith, found), ground (arith, found, next_later x now), refl, refl)
      ]

  -- A pass with no calls between its jobs: each due job, in order, with its error and the clock at its
  -- end.
  unfoldable pub pass : CronScheduler cron → List ℕ → List (Option String × ℕ) → CronScheduler cron
  pass s [] outcomes = s
  pass s (ref ∷ refs) [] = s
  pass s (ref ∷ refs) ((failure, now) ∷ outcomes) =
      pass (complete cron s ref failure now) refs outcomes

  abbrev pub runs_of : List (CronJob cron) → ℕ → ℕ
  runs_of heap ref = elim (get_elem? heap ref) [ none ↦ 0 | some job ↦ job.runs ]

  -- How often a reference stands in a list.
  unfoldable pub times_in : ℕ → List ℕ → ℕ
  times_in ref [] = 0
  times_in ref (r ∷ refs) = if eqb r ref then suc (times_in ref refs) else times_in ref refs

  complete-runs :
      (s : CronScheduler cron) (r ref : ℕ) (failure : Option String) (now : ℕ)
      → ref < length s.heap
      → runs_of (complete cron s r failure now).heap ref
        ≡ runs_of s.heap ref + (if eqb r ref then 1 else 0)
  unfolding complete
  complete-runs s r ref failure now h =
      let (job, e) = get_elem?-in_range s.heap ref h in
      ground (arith, get_elem?-modify s.heap r ref (ran cron failure now))

  pass-runs :
      (s : CronScheduler cron) (refs : List ℕ) (outcomes : List (Option String × ℕ)) (ref : ℕ)
      → length outcomes ≡ length refs
      → ref < length s.heap
      → runs_of (pass s refs outcomes).heap ref ≡ runs_of s.heap ref + times_in ref refs
  unfolding pass times_in
  pass-runs s [] outcomes ref e h = omega arith
  pass-runs s (r ∷ refs) [] ref e h = absurd (omega arith)
  pass-runs s (r ∷ refs) ((failure, now) ∷ outcomes) ref e h =
      let s' = complete cron s r failure now in
      let same : ref < length s'.heap =
        unfold complete in omega (arith, length-modify s.heap r (ran cron failure now)) in
      ground (arith, complete-runs s r ref failure now h, pass-runs s' refs outcomes ref, same)

  times_in-keep :
      (p : ℕ → Bool) (ref : ℕ) (refs : List ℕ)
      → times_in ref (keep p refs) ≡ (if p ref then times_in ref refs else 0)
  unfolding times_in keep
  times_in-keep p ref [] = ground arith
  times_in-keep p ref (r ∷ refs) = elim (Bool-cases (eqb r ref)) [
    | inl e ↦
        let same : r ≡ ref = ground arith in rw same (ground (arith, times_in-keep p ref refs))
    | inr e ↦ ground (arith, times_in-keep p ref refs)
  ]

  -- In a pass that no call interrupts, a job that stands once in the table runs exactly once if it is
  -- enabled and its time has come when the pass starts, and otherwise not at all.
  pub pass-once :
      (s : CronScheduler cron) (start : ℕ) (outcomes : List (Option String × ℕ)) (ref : ℕ)
      → length outcomes ≡ length (due_jobs cron s start)
      → ref < length s.heap
      → times_in ref (values s.jobs) ≡ 1
      → runs_of (pass s (due_jobs cron s start) outcomes).heap ref
        ≡ runs_of s.heap ref + (if is_due cron s.heap start ref then 1 else 0)
  unfolding due_jobs
  pass-once s start outcomes ref e h one = ground (
    arith,
    pass-runs s (keep (is_due cron s.heap start) (values s.jobs)) outcomes ref e h,
    times_in-keep (is_due cron s.heap start) ref (values s.jobs),
  )

  soonest-le :
      (heap : List (CronJob cron)) (now bound : ℕ) (refs : List ℕ)
      → soonest cron heap now bound refs ≤ bound
  unfolding soonest
  soonest-le heap now bound [] = omega arith
  soonest-le heap now bound (ref ∷ refs) = ground (arith, soonest-le heap now bound refs)

  soonest-le_job :
      (heap : List (CronJob cron)) (now bound : ℕ) (refs : List ℕ) (ref : ℕ) (job : CronJob cron)
      → 0 < times_in ref refs
      → get_elem? heap ref ≡ some job
      → job.enabled ≡ true
      → soonest cron heap now bound refs ≤ job.next_run_at - now
  unfolding soonest times_in
  soonest-le_job heap now bound [] ref job h e on = absurd (omega arith)
  soonest-le_job heap now bound (r ∷ refs) ref job h e on = elim (Bool-cases (eqb r ref)) [
    | inl same ↦
        let eq : r ≡ ref = ground arith in
        let there : get_elem? heap r ≡ some job = ap (get_elem? heap) eq ∙ e in
        ground (arith, there)
    | inr other ↦ ground (arith, soonest-le_job heap now bound refs ref job)
  ]

  -- The loop sleeps between fifty milliseconds and a second, and never past the time of an enabled job
  -- of the table, unless that time is nearer than fifty milliseconds.
  sleep_bounds :
      (s : CronScheduler cron) (now ref : ℕ) (job : CronJob cron)
      → 0 < times_in ref (values s.jobs)
      → get_elem? s.heap ref ≡ some job
      → job.enabled ≡ true
      → (50 ≤ sleep_until_next cron s now)
        × (sleep_until_next cron s now ≤ second)
        × (sleep_until_next cron s now ≤ max 50 (job.next_run_at - now))
  unfolding sleep_until_next
  sleep_bounds s now ref job h e on = omega (
    arith,
    soonest-le s.heap now second (values s.jobs),
    soonest-le_job s.heap now second (values s.jobs) ref job h e on,
  )
