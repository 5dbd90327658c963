-- ===== src/Cron/Scheduler/Invariant.antt =====
-- What holds of the scheduler after any calls and any steps of its loop.
use plugin_baselithbot.Clock.{second}
use plugin_baselithbot.Common.{
  ℕ, ◌≤◌, ◌<◌, String, ◌≡◌, inl, inr, Bool, none, List, [], ◌∷◌, ◌++◌, arith, ◌==◌, Bool-cases, ◌+◌,
  subst, true, some, ltb, ltb_false→le, Option-cases, Option,
}
use plugin_baselithbot.Lists.{length, length-append, keep, All, All-append}
use plugin_baselithbot.Heap.{modify, length-modify, All-modify}
use plugin_baselithbot.Dict.{Dict, put, remove, values, get}
use plugin_baselithbot.Cron.Scheduler.{
  CronLibrary, CronJob, CronScheduler, store, add_interval, add_cron, remove_job, switched,
  set_enabled, spaced, is_cron, set_interval, due_now, trigger, is_due, due_jobs, ran, complete,
}
use plugin_baselithbot.Cron.Scheduler.Loop.{Phase, off, asleep, in_pass}

module _ (cron : CronLibrary) where
  open cron use {Expr, parse, next_after, next_later}

  -- An interval job runs at most once a second.
  abbrev pub IsSpaced : CronJob cron → Type 0
  IsSpaced job = job.cron_expr ≡ none → second ≤ job.interval

  -- Every reference is to an object of the heap.
  abbrev pub InHeap : List (CronJob cron) → List ℕ → Type 0
  InHeap heap refs = All (λ r. r < length heap) refs

  abbrev pub refs_of : Phase → List ℕ
  refs_of off = []
  refs_of asleep = []
  refs_of (in_pass due) = due

  pub record IsValid (s : CronScheduler cron) (due : List ℕ) : Type 0 where
    pub known : InHeap s.heap (values s.jobs)
    pub alive : InHeap s.heap due
    pub spaced_all : All IsSpaced s.heap

  InHeap-grow :
      (a b : List (CronJob cron)) (refs : List ℕ)
      → length a ≤ length b
      → InHeap a refs
      → InHeap b refs
  InHeap-grow a b [] h k = tt
  InHeap-grow a b (r ∷ refs) h k = (omega arith, InHeap-grow a b refs h k.1)

  values-put :
      (n : ℕ) (d : Dict ℕ) (k : String) (v : ℕ)
      → v < n
      → All (λ r. r < n) (values d)
      → All (λ r. r < n) (values (put d k v))
  unfolding values put
  values-put n [] k v h a = (h, tt)
  values-put n ((j, w) ∷ d) k v h a = elim (Bool-cases (j == k)) [
    | inl e ↦ rw e (h, a.1)
    | inr e ↦ rw e (a.0, values-put n d k v h a.1)
  ]

  values-remove :
      (n : ℕ) (d : Dict ℕ) (k : String)
      → All (λ r. r < n) (values d)
      → All (λ r. r < n) (values (remove d k))
  unfolding values remove
  values-remove n [] k a = tt
  values-remove n ((j, w) ∷ d) k a = elim (Bool-cases (j == k)) [
    | inl e ↦ rw e (values-remove n d k a.1)
    | inr e ↦ rw e (a.0, values-remove n d k a.1)
  ]

  keep-All :
      (p : ℕ → Bool) (n : ℕ) (refs : List ℕ)
      → All (λ r. r < n) refs
      → All (λ r. r < n) (keep p refs)
  unfolding keep
  keep-All p n [] a = tt
  keep-All p n (r ∷ refs) a = elim (Bool-cases (p r)) [
    | inl e ↦ rw e (a.0, keep-All p n refs a.1)
    | inr e ↦ rw e (keep-All p n refs a.1)
  ]

  module _ (s : CronScheduler cron) (due : List ℕ) (v : IsValid s due) where
    pub store-IsValid :
        (name : String) (job : CronJob cron) → IsSpaced job → IsValid (store cron s name job) due
    unfolding store
    store-IsValid name job spaced_job =
        let longer : length s.heap ≤ length (s.heap ++ job ∷ []) =
          omega (arith, length-append s.heap (job ∷ [])) in
        record {
          known =
              values-put (length (s.heap ++ job ∷ [])) s.jobs name (length s.heap)
                (omega (arith, length-append s.heap (job ∷ [])))
                (InHeap-grow s.heap (s.heap ++ job ∷ []) (values s.jobs) longer v.known);
          alive = InHeap-grow s.heap (s.heap ++ job ∷ []) due longer v.alive;
          spaced_all = All-append IsSpaced s.heap (job ∷ []) v.spaced_all (spaced_job, tt);
        }

    -- A change of one object that keeps the spacing keeps the whole.
    pub modify-IsValid :
        (ref : ℕ) (f : CronJob cron → CronJob cron) (wake : Bool)
        → ((job : CronJob cron) → IsSpaced job → IsSpaced (f job))
        → IsValid (record s { heap = modify s.heap ref f; wake = wake }) due
    modify-IsValid ref f wake keeps =
        let same : length s.heap ≤ length (modify s.heap ref f) =
          omega (arith, length-modify s.heap ref f) in
        record {
          known = InHeap-grow s.heap (modify s.heap ref f) (values s.jobs) same v.known;
          alive = InHeap-grow s.heap (modify s.heap ref f) due same v.alive;
          spaced_all = All-modify IsSpaced s.heap ref f keeps v.spaced_all;
        }

    pub wake-IsValid : (wake : Bool) → IsValid (record s { wake = wake }) due
    wake-IsValid wake = record { known = v.known; alive = v.alive; spaced_all = v.spaced_all }

    pub add_interval-IsValid :
        (name : String) (seconds : ℕ) (description : String) (enabled : Bool) (now : ℕ)
        (s' : CronScheduler cron)
        → add_interval cron s name seconds description enabled now ≡ some s'
        → IsValid s' due
    unfolding add_interval
    add_interval-IsValid name seconds description enabled now s' e =
        elim (Bool-cases (ltb seconds second)) [
          | inl low ↦ absurd (ground arith)
          | inr high ↦
              subst (λ x. IsValid x due) (ground arith)
                (store-IsValid name
                  (record {
                    name = name;
                    interval = seconds;
                    next_run_at = now + seconds;
                    enabled = enabled;
                    runs = 0;
                    last_error = none;
                    last_run_at = none;
                    description = description;
                    cron_text = none;
                    cron_expr = none;
                  })
                  (λ _. ltb_false→le seconds second high))
        ]

    pub add_cron-IsValid :
        (name expr description : String) (enabled : Bool) (now : ℕ) (s' : CronScheduler cron)
        → add_cron cron s name expr description enabled now ≡ some s'
        → IsValid s' due
    unfolding add_cron
    add_cron-IsValid name expr description enabled now s' e = elim (Option-cases (parse expr)) [
      | inl bad ↦ absurd (ground arith)
      | inr (x, good) ↦
          subst (λ x. IsValid x due) (ground arith)
            (store-IsValid name
              (record {
                name = name;
                interval = 0;
                next_run_at = next_after x now;
                enabled = enabled;
                runs = 0;
                last_error = none;
                last_run_at = none;
                description = description;
                cron_text = some expr;
                cron_expr = some x;
              })
              (λ n. absurd (ground arith)))
    ]

    pub remove-IsValid : (name : String) → IsValid (remove_job cron s name).0 due
    unfolding remove_job
    remove-IsValid name = record {
      known = values-remove (length s.heap) s.jobs name v.known;
      alive = v.alive;
      spaced_all = v.spaced_all;
    }

    pub set_enabled-IsValid :
        (name : String) (enabled : Bool) (now : ℕ)
        → IsValid (set_enabled cron s name enabled now).0 due
    unfolding set_enabled
    set_enabled-IsValid name enabled now = elim (Option-cases (get s.jobs name)) [
      | inl e ↦ rw (e, set_enabled) v
      | inr (ref, e) ↦
          rw (e, set_enabled)
            (modify-IsValid ref (switched cron enabled now) true (λ job h n. ground (arith, h)))
    ]

    pub set_interval-IsValid :
        (name : String) (seconds now : ℕ) (s' : CronScheduler cron) (changed : Bool)
        → set_interval cron s name seconds now ≡ some (s', changed)
        → IsValid s' due
    unfolding set_interval
    set_interval-IsValid name seconds now s' changed e = elim (Bool-cases (ltb seconds second)) [
      | inl low ↦ absurd (ground arith)
      | inr high ↦ elim (Option-cases (get s.jobs name)) [
        | inl n ↦ subst (λ x. IsValid x due) (ground arith) v
        | inr (ref, n) ↦ elim (Bool-cases (is_cron cron s ref)) [
          | inl c ↦ subst (λ x. IsValid x due) (ground arith) v
          | inr c ↦
              subst (λ x. IsValid x due) (ground arith)
                (modify-IsValid ref (spaced cron seconds now) true
                  (λ job h n. ltb_false→le seconds second high))
        ]
      ]
    ]

    pub trigger-IsValid : (name : String) (now : ℕ) → IsValid (trigger cron s name now).0 due
    unfolding trigger
    trigger-IsValid name now = elim (Option-cases (get s.jobs name)) [
      | inl e ↦ rw (e, trigger) v
      | inr (ref, e) ↦ rw (e, trigger) (modify-IsValid ref (due_now cron now) true (λ job h. h))
    ]

    pub complete-IsValid :
        (ref : ℕ) (failure : Option String) (now : ℕ)
        → IsValid (complete cron s ref failure now) due
    unfolding complete
    complete-IsValid ref failure now =
        modify-IsValid ref (ran cron failure now) s.wake (λ job h n. ground (arith, h))

    pub due_jobs-InHeap : (now : ℕ) → InHeap s.heap (due_jobs cron s now)
    unfolding due_jobs
    due_jobs-InHeap now = keep-All (is_due cron s.heap now) (length s.heap) (values s.jobs) v.known
