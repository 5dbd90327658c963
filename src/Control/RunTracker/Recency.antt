-- ===== src/Control/RunTracker/Recency.antt =====
-- The tracker is a list of runs by how recently they were touched, cut to the newest `max_runs`.
use plugin_baselithbot.Common.{
  ℕ, ◌≤◌, String, ◌≡◌, refl, sym, ◌∙◌, inl, inr, Option, some, List, [], ◌∷◌, ◌++◌, arith, eq_refl,
  ltb, ltb→lt, ltb_false→le, Bool-cases, zero, suc, ◌<◌, if◌then◌else◌,
}
use plugin_baselithbot.Lists.{
  length, take_last, take_last_of_le, take_last-cons, length-append, length-take_last-le,
  take_last-append_one,
}
use plugin_baselithbot.Dict.{
  Dict, get, put, remove, adjust, move_to_end, get-put, get-adjust, move_to_end_of_some, get-remove,
  last_value, last_value-append_one,
}
use plugin_baselithbot.Dict.Keys.{
  IsDistinct, remove-put, remove-adjust, remove-IsDistinct, append_one-IsDistinct, length-remove,
  take_last-IsDistinct,
}
use plugin_baselithbot.Control.RunTracker.{
  running, RunTaskState, RunTaskTracker, Progress, Outcome, trim, new_state, start, update, step,
  finish, completed, failed, progressed, finished,
}

-- A call on the tracker; the clock is part of the call.
pub data Call (D : Type 0) : Type 0 where
  starts : String → String → Option String → ℕ → List String → ℕ → Call D
  steps : String → Progress D → Call D
  finishes : String → Outcome D → ℕ → Call D

module _ {D : Type 0} where
  -- The specification: the run becomes the newest, and the oldest beyond the limit are forgotten.
  abbrev pub touch : ℕ → Dict (RunTaskState D) → String → RunTaskState D → Dict (RunTaskState D)
  touch max_runs runs run_id state = take_last max_runs (remove runs run_id ++ (run_id, state) ∷ [])

  unfoldable pub perform : RunTaskTracker D → Call D → RunTaskTracker D
  perform t (starts run_id goal start_url max_steps extract_fields now) =
      (start t run_id goal start_url max_steps extract_fields now).0
  perform t (steps run_id p) = (step t run_id p).0
  perform t (finishes run_id o now) = (finish t run_id o now).0

  unfoldable pub perform_all : RunTaskTracker D → List (Call D) → RunTaskTracker D
  perform_all t [] = t
  perform_all t (c ∷ cs) = perform_all (perform t c) cs

  trim-take_last : (n : ℕ) (runs : Dict (RunTaskState D)) → trim n runs ≡ take_last n runs
  unfolding trim
  trim-take_last n [] = sym (take_last_of_le n [] (omega arith))
  trim-take_last n (e ∷ runs) = elim (Bool-cases (ltb n (length (e ∷ runs)))) [
    | inl full ↦ rw full (trim-take_last n runs ∙ sym (take_last-cons n e runs (ltb→lt _ _ full)))
    | inr room ↦ rw room (sym (take_last_of_le n (e ∷ runs) (ltb_false→le _ _ room)))
  ]

  put-move_to_end :
      (runs : Dict (RunTaskState D)) (k : String) (s : RunTaskState D)
      → move_to_end (put runs k s) k ≡ remove runs k ++ (k, s) ∷ []
  put-move_to_end runs k s =
      move_to_end_of_some (put runs k s) k s (rw (get-put runs k k s, eq_refl k))
      ∙ rw (remove-put runs k s)

  adjust-move_to_end :
      (runs : Dict (RunTaskState D)) (k : String) (s : RunTaskState D)
      (f : RunTaskState D → RunTaskState D)
      → get runs k ≡ some s
      → move_to_end (adjust runs k f) k ≡ remove runs k ++ (k, f s) ∷ []
  adjust-move_to_end runs k s f e =
      move_to_end_of_some (adjust runs k f) k (f s) (rw (get-adjust runs k k f, eq_refl k, e))
      ∙ rw (remove-adjust runs k f)

  pub record IsValid (t : RunTaskTracker D) : Type 0 where
    pub distinct : IsDistinct t.runs
    pub bounded : length t.runs ≤ t.max_runs

  -- Starting a run, new or known, makes it the newest in its initial state and forgets the oldest runs
  -- beyond the limit.
  pub start-touch :
      (t : RunTaskTracker D) (run_id goal : String) (start_url : Option String) (max_steps : ℕ)
      (extract_fields : List String) (now : ℕ)
      → let (t', state) = start t run_id goal start_url max_steps extract_fields now in
        (t'.runs ≡ touch t.max_runs t.runs run_id state)
        × (state.status ≡ running)
        × (t'.max_runs ≡ t.max_runs)
  unfolding start
  start-touch t run_id goal start_url max_steps extract_fields now = (
    trim-take_last t.max_runs (
          move_to_end
            (put t.runs run_id (new_state run_id goal start_url max_steps extract_fields now))
            run_id)
        ∙ rw (
            put-move_to_end t.runs run_id
              (new_state run_id goal start_url max_steps extract_fields now)),
    refl,
    refl,
  )

  pub update-runs :
      (t : RunTaskTracker D) (run_id : String) (f : RunTaskState D → RunTaskState D)
      (s : RunTaskState D)
      → get t.runs run_id ≡ some s
      → update t run_id f
        ≡ (record t { runs = remove t.runs run_id ++ (run_id, f s) ∷ [] }, some (f s))
  unfolding update
  update-runs t run_id f s e = ground (arith, adjust-move_to_end t.runs run_id s f e)

  length-moved :
      (t : RunTaskTracker D) (run_id : String) (s s' : RunTaskState D)
      → IsValid t
      → get t.runs run_id ≡ some s
      → length (remove t.runs run_id ++ (run_id, s') ∷ []) ≡ length t.runs
  length-moved t run_id s s' v e = omega (
    arith,
    length-append (remove t.runs run_id) ((run_id, s') ∷ []),
    length-remove t.runs run_id s v.distinct e,
  )

  pub update-touch :
      (t : RunTaskTracker D) (run_id : String) (f : RunTaskState D → RunTaskState D)
      (s : RunTaskState D)
      → IsValid t
      → get t.runs run_id ≡ some s
      → update t run_id f ≡ (record t { runs = touch t.max_runs t.runs run_id (f s) }, some (f s))
  update-touch t run_id f s v e =
      update-runs t run_id f s e
      ∙ rw (
          take_last_of_le t.max_runs (remove t.runs run_id ++ (run_id, f s) ∷ [])
            (omega (arith, length-moved t run_id s (f s) v e, v.bounded)))

  -- In a valid tracker, `step` for a run that is tracked returns the run with the progress entered and
  -- makes it the newest; `finish` does so with the outcome, and the status is then completed exactly
  -- when the run succeeded, else failed.
  step-finish-touch :
      (t : RunTaskTracker D) (run_id : String) (p : Progress D) (o : Outcome D) (now : ℕ)
      (s : RunTaskState D)
      → IsValid t
      → get t.runs run_id ≡ some s
      → (step t run_id p ≡ (
        record t { runs = touch t.max_runs t.runs run_id (progressed p s) },
        some (progressed p s),
      ))
        × (finish t run_id o now ≡ (
          record t { runs = touch t.max_runs t.runs run_id (finished o now s) },
          some (finished o now s),
        ))
        × ((progressed p s).status ≡ s.status)
        × ((finished o now s).status ≡ (if o.success then completed else failed))
  unfolding step finish
  step-finish-touch t run_id p o now s v e = (
    update-touch t run_id (progressed p) s v e,
    update-touch t run_id (finished o now) s v e,
    refl,
    refl,
  )

  -- The newest run is the latest, if the tracker may hold a run.
  pub latest-touch :
      (n : ℕ) (runs : Dict (RunTaskState D)) (run_id : String) (s : RunTaskState D)
      → 0 < n
      → last_value (touch n runs run_id s) ≡ some s
  latest-touch zero runs run_id s h = absurd (omega arith)
  latest-touch (suc n) runs run_id s h =
      rw (take_last-append_one n (remove runs run_id) (run_id, s))
        (last_value-append_one (take_last n (remove runs run_id)) run_id s)

  pub touch-IsValid :
      (t : RunTaskTracker D) (run_id : String) (s : RunTaskState D)
      → IsValid t
      → IsValid (record t { runs = touch t.max_runs t.runs run_id s })
  touch-IsValid t run_id s v = record {
    distinct = take_last-IsDistinct t.max_runs (remove t.runs run_id ++ (run_id, s) ∷ []) (
        append_one-IsDistinct (remove t.runs run_id) run_id s
          (remove-IsDistinct t.runs run_id v.distinct)
          (rw (get-remove t.runs run_id run_id, eq_refl run_id)));
    bounded = length-take_last-le t.max_runs (remove t.runs run_id ++ (run_id, s) ∷ []);
  }
