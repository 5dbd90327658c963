-- ===== src/Cron/Scheduler/Loop.antt =====
-- The task of the scheduler among the calls of its clients. The loop is off, asleep, or in a pass with
-- the due jobs that are still to be run; clients may call between any two of its steps.
use plugin_baselithbot.Common.{
  ℕ, String, Bool, true, false, Option, none, some, List, [], ◌∷◌, if◌then◌else◌,
}
use plugin_baselithbot.Cron.Scheduler.{
  CronLibrary, CronScheduler, init, add_interval, add_cron, remove_job, set_enabled, set_interval,
  trigger, due_jobs, complete,
}

pub data Phase : Type 0 where
  off asleep : Phase
  in_pass : List ℕ → Phase

pub data Op : Type 0 where
  adds_interval : String → ℕ → String → Bool → ℕ → Op
  adds_cron : String → String → String → Bool → ℕ → Op
  removes : String → Op
  sets_enabled : String → Bool → ℕ → Op
  sets_interval : String → ℕ → ℕ → Op
  triggers : String → ℕ → Op
  starts stops : Op
  -- the head of the loop, with the clock that it reads
  loops : ℕ → Op
  -- the end of a job of the pass, with its error and the clock
  completes : Option String → ℕ → Op

module _ (cron : CronLibrary) where
  pub record World : Type 0 where
    pub sched : CronScheduler cron
    pub phase : Phase
    pub stop_set : Bool

  abbrev pub new_world : World
  new_world = record { sched = init cron; phase = off; stop_set = false }

  -- A call that raises changes nothing.
  abbrev pub with_sched : World → Option (CronScheduler cron) → World
  with_sched w none = w
  with_sched w (some s) = record w { sched = s }

  abbrev pub first_of_two : Option (CronScheduler cron × Bool) → Option (CronScheduler cron)
  first_of_two none = none
  first_of_two (some (s, b)) = some s

  -- Whether the task is there and not done.
  unfoldable pub is_running : World → Bool
  is_running w = elim w.phase [ off ↦ false | asleep ↦ true | in_pass due ↦ true ]

  -- `start`: an event loop that runs is left alone.
  unfoldable pub start : World → World
  unfolding is_running
  start w =
      if is_running w
      then w
      else record w { sched = record w.sched { wake = false }; phase = asleep; stop_set = false }

  -- The loop with these due jobs left: with none it clears the wake event and sleeps.
  abbrev pub next_world : World → CronScheduler cron → List ℕ → World
  next_world w s [] = record w { sched = record s { wake = false }; phase = asleep }
  next_world w s (ref ∷ refs) = record w { sched = s; phase = in_pass (ref ∷ refs) }

  -- The head of `while not self._stop.is_set()`.
  unfoldable pub loop_head : World → ℕ → World
  loop_head w now = elim w.phase [
    | off ↦ w
    | asleep ↦
        if w.stop_set
        then record w { phase = off }
        else next_world w w.sched (due_jobs cron w.sched now)
    | in_pass due ↦ w
  ]

  -- The first due job of the pass ends.
  unfoldable pub complete_first : World → Option String → ℕ → World
  complete_first w failure now = elim w.phase [
    | off ↦ w
    | asleep ↦ w
    | in_pass due ↦ elim due [
      | [] ↦ next_world w w.sched []
      | ref ∷ refs ↦ next_world w (complete cron w.sched ref failure now) refs
    ]
  ]

  unfoldable pub step : World → Op → World
  unfolding start loop_head complete_first
  step w (adds_interval name seconds description enabled now) =
      with_sched w (add_interval cron w.sched name seconds description enabled now)
  step w (adds_cron name expr description enabled now) =
      with_sched w (add_cron cron w.sched name expr description enabled now)
  step w (removes name) = record w { sched = (remove_job cron w.sched name).0 }
  step w (sets_enabled name enabled now) = record w {
    sched = (set_enabled cron w.sched name enabled now).0;
  }
  step w (sets_interval name seconds now) =
      with_sched w (first_of_two (set_interval cron w.sched name seconds now))
  step w (triggers name now) = record w { sched = (trigger cron w.sched name now).0 }
  step w starts = start w
  step w stops = record w { sched = record w.sched { wake = true }; stop_set = true }
  step w (loops now) = loop_head w now
  step w (completes failure now) = complete_first w failure now

  unfoldable pub run_world : World → List Op → World
  run_world w [] = w
  run_world w (op ∷ ops) = run_world (step w op) ops
