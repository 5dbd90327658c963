-- ===== src/Policies/RateLimit/Refines.antt =====
-- The limiter refines its specification, call after call, and so keeps the bound of every window.
use mathlib.Core.List.{append-nil}
use plugin_baselithbot.Lists.{All, All-append}
use plugin_baselithbot.Common.{
  ℕ, ◌-◌, ◌≤◌, String, ◌≡◌, inl, inr, ◌&&◌, List, [], ◌∷◌, ◌++◌, arith, ◌==◌, if◌then◌else◌,
  Bool-cases, refl, eq_iff, eq_refl,
}
use plugin_baselithbot.Policies.RateLimit.{RateLimiter, drop_before, consume, events_of, run, init}
use plugin_baselithbot.Policies.RateLimit.Spec.{
  Entry, times, admits, times-append, decide_all, Ascending, Sorted, admits-eq, accepted,
  count_within, history-accepted, history_bound,
}
use plugin_baselithbot.Policies.RateLimit.Window.{
  consume-HasBounds, Tracks, drop_before-append_one, Sorted-append_one, All-le_trans,
  consume-window, consume-events, found-eq, length-found, consume-admits, init-Tracks,
}

module _ (l : RateLimiter) (log : List Entry) (start : ℕ) (t : Tracks l log start) (key : String)
    (now : ℕ) (later : start ≤ now) where
  abbrev next_log : List Entry
  next_log = if admits l.window l.max_events log key now then log ++ (key, now) ∷ [] else log

  times_next :
      (k : String)
      → times k next_log ≡ (
          if admits l.window l.max_events log key now && key == k
          then times k log ++ now ∷ []
          else times k log)
  unfolding times
  times_next k = ground (arith, times-append k log ((key, now) ∷ []), append-nil (times k log))

  next_own : events_of (consume l key now).0 key ≡ drop_before (now - l.window) (times key next_log)
  next_own =
      rw (times_next key, consume-events l key now t.bounds key, eq_refl key)
        (ground (
          arith,
          found-eq l log start t key now later,
          length-found l log start t key now later,
          admits-eq l.window l.max_events log key now,
          drop_before-append_one (now - l.window) now (times key log),
        ))

  next-at_key :
      (k : String)
      → (c : ℕ) × (c ≤ now - l.window)
        × (events_of (consume l key now).0 k ≡ drop_before c (times k next_log))
  next-at_key k = elim (Bool-cases (key == k)) [
    | inl e ↦ (now - l.window, omega arith, rw (← (eq_iff key k).0 e) next_own)
    | inr e ↦
        let (c, early, h) = t.at_key k in
        (c, omega arith, ground (arith, times_next k, consume-events l key now t.bounds k))
  ]

  next-Sorted : (k : String) → Sorted (times k next_log)
  next-Sorted k = elim (Bool-cases (admits l.window l.max_events log key now && key == k)) [
    | inl e ↦
        rw (times_next k, e)
          (Sorted-append_one (times k log) now (t.sorted k)
            (All-le_trans start now (times k log) later (t.before k)))
    | inr e ↦ rw (times_next k, e) (t.sorted k)
  ]

  next-before : (k : String) → All (λ u. u ≤ now) (times k next_log)
  next-before k = elim (Bool-cases (admits l.window l.max_events log key now && key == k)) [
    | inl e ↦
        rw (times_next k, e)
          (All-append (λ u. u ≤ now) (times k log) (now ∷ [])
            (All-le_trans start now (times k log) later (t.before k)) (omega arith, tt))
    | inr e ↦ rw (times_next k, e) (All-le_trans start now (times k log) later (t.before k))
  ]

  next-Tracks : Tracks (consume l key now).0 next_log now
  next-Tracks = record {
    at_key = λ k. rw (consume-window l key now t.bounds).0 (next-at_key k);
    sorted = next-Sorted;
    before = next-before;
    bounds = consume-HasBounds l key now t.bounds;
  }

run-decide_all :
    (l : RateLimiter) (log : List Entry) (start : ℕ) (calls : List (String × ℕ))
    → Tracks l log start
    → Ascending start calls
    → run l calls ≡ decide_all l.window l.max_events log calls
unfolding run decide_all
run-decide_all l log start [] t h = refl
run-decide_all l log start ((key, now) ∷ calls) t h = ground (
  arith,
  consume-admits l log start t key now h.0,
  consume-window l key now t.bounds,
  run-decide_all (consume l key now).0 (next_log l log start t key now h.0) now calls
      (next-Tracks l log start t key now h.0) h.1,
)

-- For calls at times that do not fall, the answers of a new limiter are those of the specification
-- over the whole history: a call is accepted exactly when fewer than `max_events` accepted calls
-- of its key lie in the window before it.
pub run-refines :
    (window max_events : ℕ) (calls : List (String × ℕ))
    → Ascending 0 calls
    → run (init window max_events) calls ≡ decide_all window max_events [] calls
run-refines window max_events calls h =
    run-decide_all (init window max_events) [] 0 calls (init-Tracks window max_events) h

-- For calls at times that do not fall, among the calls that a new limiter accepts no more than
-- `max_events` of one key lie in any closed window of the configured length.
pub run-window_bound :
    (window max_events : ℕ) (calls : List (String × ℕ)) (key : String) (end_time : ℕ)
    → Ascending 0 calls
    → count_within
        (end_time - window)
        end_time
        (times key (accepted calls (run (init window max_events) calls)))
      ≤ max_events
unfolding times count_within
run-window_bound window max_events calls key end_time h =
    rw (run-refines window max_events calls h) (
      rw (← history-accepted window max_events [] calls)
        (history_bound window max_events [] calls key end_time (omega arith)))
