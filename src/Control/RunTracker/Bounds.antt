-- ===== src/Control/RunTracker/Bounds.antt =====
-- What the dashboard reads from the tracker after any calls.
use mathlib.Core.List.{reverse, reverse-cons}
use plugin_baselithbot.Common.{
  ℕ, ◌≤◌, ◌<◌, String, ◌≡◌, refl, ap, inl, inr, Option, some, List, [], ◌∷◌, arith, Option-cases,
}
use plugin_baselithbot.Lists.{length, length-append, take_last, length-take_last-le}
use plugin_baselithbot.Slices.{ℤ, pos, at_least_zero, slice_from-zero, slice_from-pos}
use plugin_baselithbot.Dict.{get, values}
use plugin_baselithbot.Control.RunTracker.{
  RunTaskState, RunTaskTracker, init, new_state, start, progressed, finished, update, step, finish,
  latest, recent,
}
use plugin_baselithbot.Control.RunTracker.Recency.{
  Call, starts, steps, finishes, perform, perform_all, IsValid, start-touch, update-touch,
  latest-touch, touch-IsValid,
}

module _ {D : Type 0} where
  start-IsValid :
      (t : RunTaskTracker D) (run_id goal : String) (start_url : Option String) (max_steps : ℕ)
      (extract_fields : List String) (now : ℕ)
      → IsValid t
      → IsValid (start t run_id goal start_url max_steps extract_fields now).0
  unfolding start
  start-IsValid t run_id goal start_url max_steps extract_fields now v =
      let state = new_state {D = D} run_id goal start_url max_steps extract_fields now in
      let (runs, _, size) = start-touch t run_id goal start_url max_steps extract_fields now in
      let w = touch-IsValid t run_id state v in
      record { distinct = rw runs w.distinct; bounded = rw (runs, size) w.bounded }

  update-IsValid :
      (t : RunTaskTracker D) (run_id : String) (f : RunTaskState D → RunTaskState D)
      → IsValid t
      → IsValid (update t run_id f).0
  unfolding update
  update-IsValid t run_id f v = elim (Option-cases (get t.runs run_id)) [
    | inl e ↦ rw (e, update) v
    | inr (s, e) ↦ rw (update-touch t run_id f s v e) (touch-IsValid t run_id (f s) v)
  ]

  perform-IsValid : (t : RunTaskTracker D) (c : Call D) → IsValid t → IsValid (perform t c)
  unfolding perform step finish
  perform-IsValid t (starts run_id goal start_url max_steps extract_fields now) v =
      start-IsValid t run_id goal start_url max_steps extract_fields now v
  perform-IsValid t (steps run_id p) v = update-IsValid t run_id (progressed p) v
  perform-IsValid t (finishes run_id o now) v = update-IsValid t run_id (finished o now) v

  perform_all-IsValid_from :
      (t : RunTaskTracker D) (cs : List (Call D)) → IsValid t → IsValid (perform_all t cs)
  unfolding perform_all
  perform_all-IsValid_from t [] v = v
  perform_all-IsValid_from t (c ∷ cs) v =
      perform_all-IsValid_from (perform t c) cs (perform-IsValid t c v)

  -- After any calls on a new tracker each run is held once and there are no more than `max_runs`.
  pub perform_all-IsValid :
      (max_runs : ℕ) (cs : List (Call D)) → IsValid (perform_all (init max_runs) cs)
  perform_all-IsValid max_runs cs =
      perform_all-IsValid_from (init max_runs) cs (record { distinct = tt; bounded = omega arith })

  -- In a valid tracker that may hold a run, a run that was just started is the latest, and so is a run
  -- that is tracked and was just stepped or finished.
  latest_after :
      (t : RunTaskTracker D) (run_id goal : String) (start_url : Option String) (max_steps : ℕ)
      (extract_fields : List String) (now : ℕ) (f : RunTaskState D → RunTaskState D)
      (s : RunTaskState D)
      → IsValid t
      → 0 < t.max_runs
      → get t.runs run_id ≡ some s
      → (latest (start t run_id goal start_url max_steps extract_fields now).0
          ≡ some (new_state run_id goal start_url max_steps extract_fields now))
        × (latest (update t run_id f).0 ≡ some (f s))
  unfolding latest start
  latest_after t run_id goal start_url max_steps extract_fields now f s v room e =
      let state = new_state {D = D} run_id goal start_url max_steps extract_fields now in
      (
        rw (start-touch t run_id goal start_url max_steps extract_fields now).0
            (latest-touch t.max_runs t.runs run_id state room),
        rw (update-touch t run_id f s v e) (latest-touch t.max_runs t.runs run_id (f s) room),
      )

  length-reverse : (xs : List (RunTaskState D)) → length (reverse xs) ≡ length xs
  length-reverse [] = refl
  length-reverse (x ∷ xs) =
      omega (
        arith,
        ap length (reverse-cons x xs),
        length-append (reverse xs) (x ∷ []),
        length-reverse xs,
      )

  -- With a positive limit `recent` returns the newest runs up to that many, newest first.
  recent_positive :
      (t : RunTaskTracker D) (n : ℕ)
      → 0 < n
      → (recent t (pos n) ≡ reverse (take_last n (values t.runs))) × (length (recent t (pos n)) ≤ n)
  unfolding recent
  recent_positive t n h =
      let e = slice_from-pos n (values t.runs) h in
      (
        rw e,
        rw e (
            omega (
              arith,
              length-reverse (take_last n (values t.runs)),
              length-take_last-le n (values t.runs),
            )),
      )

  -- With a limit of zero or below `recent` returns every run that is tracked, where a caller asks for
  -- none.
  recent_nonpositive :
      (t : RunTaskTracker D) (limit : ℤ)
      → at_least_zero limit ≡ pos 0
      → recent t limit ≡ reverse (values t.runs)
  unfolding recent
  recent_nonpositive t limit e = rw e (ap reverse (slice_from-zero (values t.runs)))
