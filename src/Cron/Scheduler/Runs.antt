-- ===== src/Cron/Scheduler/Runs.antt =====
-- The invariant over every run of the loop and its clients.
use plugin_baselithbot.Common.{
  ℕ, String, ◌≡◌, refl, Bool, true, false, Option, none, some, List, [], ◌∷◌, arith,
}
use plugin_baselithbot.Dict.{values}
use plugin_baselithbot.Cron.Scheduler.{
  CronLibrary, CronScheduler, add_interval, add_cron, set_interval, due_jobs, complete,
}
use plugin_baselithbot.Cron.Scheduler.Loop.{
  Phase, off, asleep, in_pass, Op, adds_interval, adds_cron, removes, sets_enabled, sets_interval,
  triggers, starts, stops, loops, completes, World, new_world, with_sched, first_of_two, start,
  next_world, loop_head, complete_first, step, run_world,
}
use plugin_baselithbot.Cron.Scheduler.Invariant.{
  InHeap, refs_of, IsValid, wake-IsValid, add_interval-IsValid, add_cron-IsValid, remove-IsValid,
  set_enabled-IsValid, trigger-IsValid, complete-IsValid, due_jobs-InHeap, set_interval-IsValid,
}

module _ (cron : CronLibrary) where
  open cron use {parse}

  abbrev pub WorldIsValid : World cron → Type 0
  WorldIsValid w = IsValid cron w.sched (refs_of cron w.phase)

  with_sched-IsValid :
      (w : World cron) (o : Option (CronScheduler cron))
      → WorldIsValid w
      → ((s : CronScheduler cron) → o ≡ some s → IsValid cron s (refs_of cron w.phase))
      → WorldIsValid (with_sched cron w o)
  with_sched-IsValid w none v h = v
  with_sched-IsValid w (some s) v h = h s refl

  first_of_two-some :
      (o : Option (CronScheduler cron × Bool)) (s : CronScheduler cron)
      → first_of_two cron o ≡ some s
      → (b : Bool) × (o ≡ some (s, b))
  first_of_two-some none s e = cc
  first_of_two-some (some (s', b)) s e = (b, ground arith)

  -- With other due jobs that are in the heap.
  with_due :
      (s : CronScheduler cron) (due due' : List ℕ)
      → IsValid cron s due
      → InHeap cron s.heap due'
      → IsValid cron s due'
  with_due s due due' v a = record { known = v.known; alive = a; spaced_all = v.spaced_all }

  next_world-IsValid :
      (w : World cron) (s : CronScheduler cron) (due : List ℕ)
      → IsValid cron s due
      → WorldIsValid (next_world cron w s due)
  next_world-IsValid w s [] v = wake-IsValid cron s [] v false
  next_world-IsValid w s (ref ∷ refs) v = v

  loop_head-IsValid :
      (sched : CronScheduler cron) (phase : Phase) (stop_set : Bool) (now : ℕ)
      → IsValid cron sched (refs_of cron phase)
      → WorldIsValid
          (loop_head cron (record { sched = sched; phase = phase; stop_set = stop_set }) now)
  unfolding loop_head
  loop_head-IsValid sched off stop_set now v = v
  loop_head-IsValid sched asleep true now v = v
  loop_head-IsValid sched asleep false now v =
      next_world-IsValid (record { sched = sched; phase = asleep; stop_set = false }) sched
        (due_jobs cron sched now)
        (with_due sched [] (due_jobs cron sched now) v (due_jobs-InHeap cron sched [] v now))
  loop_head-IsValid sched (in_pass due) stop_set now v = v

  complete_first-IsValid :
      (sched : CronScheduler cron) (phase : Phase) (stop_set : Bool) (failure : Option String)
      (now : ℕ)
      → IsValid cron sched (refs_of cron phase)
      → WorldIsValid (
          complete_first cron
            (record { sched = sched; phase = phase; stop_set = stop_set })
            failure
            now)
  unfolding complete_first
  complete_first-IsValid sched off stop_set failure now v = v
  complete_first-IsValid sched asleep stop_set failure now v = v
  complete_first-IsValid sched (in_pass []) stop_set failure now v =
      wake-IsValid cron sched [] v false
  complete_first-IsValid sched (in_pass (ref ∷ refs)) stop_set failure now v =
      let v' = complete-IsValid cron sched (ref ∷ refs) v ref failure now in
      next_world-IsValid
        (record { sched = sched; phase = in_pass (ref ∷ refs); stop_set = stop_set })
        (complete cron sched ref failure now) refs
        (with_due (complete cron sched ref failure now) (ref ∷ refs) refs v' v'.alive.1)

  start-IsValid :
      (sched : CronScheduler cron) (phase : Phase) (stop_set : Bool)
      → IsValid cron sched (refs_of cron phase)
      → WorldIsValid (start cron (record { sched = sched; phase = phase; stop_set = stop_set }))
  unfolding start
  start-IsValid sched off stop_set v = wake-IsValid cron sched [] v false
  start-IsValid sched asleep stop_set v = v
  start-IsValid sched (in_pass due) stop_set v = v

  pub step-IsValid : (w : World cron) (op : Op) → WorldIsValid w → WorldIsValid (step cron w op)
  unfolding step
  step-IsValid w (adds_interval name seconds description enabled now) v =
      with_sched-IsValid w (add_interval cron w.sched name seconds description enabled now) v (
        add_interval-IsValid cron w.sched (refs_of cron w.phase) v name seconds description enabled
          now)
  step-IsValid w (adds_cron name expr description enabled now) v =
      with_sched-IsValid w (add_cron cron w.sched name expr description enabled now) v
        (add_cron-IsValid cron w.sched (refs_of cron w.phase) v name expr description enabled now)
  step-IsValid w (removes name) v = remove-IsValid cron w.sched (refs_of cron w.phase) v name
  step-IsValid w (sets_enabled name enabled now) v =
      set_enabled-IsValid cron w.sched (refs_of cron w.phase) v name enabled now
  step-IsValid w (sets_interval name seconds now) v =
      with_sched-IsValid w (first_of_two cron (set_interval cron w.sched name seconds now)) v
        (λ s e.
          let (changed, h) = first_of_two-some (set_interval cron w.sched name seconds now) s e in
          set_interval-IsValid cron w.sched (refs_of cron w.phase) v name seconds now s changed h)
  step-IsValid w (triggers name now) v =
      trigger-IsValid cron w.sched (refs_of cron w.phase) v name now
  step-IsValid w starts v = start-IsValid w.sched w.phase w.stop_set v
  step-IsValid w stops v = wake-IsValid cron w.sched (refs_of cron w.phase) v true
  step-IsValid w (loops now) v = loop_head-IsValid w.sched w.phase w.stop_set now v
  step-IsValid w (completes failure now) v =
      complete_first-IsValid w.sched w.phase w.stop_set failure now v

  run_world-IsValid_from :
      (w : World cron) (ops : List Op) → WorldIsValid w → WorldIsValid (run_world cron w ops)
  unfolding run_world
  run_world-IsValid_from w [] v = v
  run_world-IsValid_from w (op ∷ ops) v =
      run_world-IsValid_from (step cron w op) ops (step-IsValid w op v)

  -- After any calls and loop steps of a new scheduler, in whatever order, every job of the table and
  -- every job that a pass has still to run is an object of the heap, and every interval job, in the
  -- table or not, has an interval of at least a second.
  pub run_world-IsValid : (ops : List Op) → WorldIsValid (run_world cron (new_world cron) ops)
  unfolding values
  run_world-IsValid ops =
      run_world-IsValid_from (new_world cron) ops
        (record { known = tt; alive = tt; spaced_all = tt })
