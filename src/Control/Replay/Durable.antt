-- ===== src/Control/Replay/Durable.antt =====
-- control/replay.py: batched commits. Any calls of a new store are compared with the tables that the
-- same statements give when each takes effect at once.
use plugin_baselithbot.Lists.{length, length-append}
use plugin_baselithbot.Control.Replay.Rows.{
  StepRow, Tables, no_rows, replace_run, update_run, replace_step, old_runs, drop_runs,
}
use plugin_baselithbot.Control.Replay.{
  Json, Fernet, step_commit_batch, ReplayStore, init, commit, flush, encrypt_screenshot, start_run,
  insert_step_row, cutoff, prune_older_than, add_step, finish_run,
}
use plugin_baselithbot.Control.Replay.Reads.{list_runs, get_run, get_run_step_screenshot}
use plugin_baselithbot.Slices.{ℤ}
use plugin_baselithbot.Common.{
  ℕ, suc, ◌≤◌, ◌<◌, String, ◌≡◌, refl, sym, ap, ◌∙◌, inl, inr, Bool, Option, List, [], ◌∷◌, ◌++◌,
  arith, leb, eqb, Bool-cases,
}

module _ (json : Json) (fernet : Option Fernet) where
  open json use {Data, dumps}

  pub data Call : Type 0 where
    starts : String → String → Option String → ℕ → String → ℕ → Call
    adds : String → ℕ → String → String → String → Option String → Data → ℕ → ℕ → Call
    finishes : String → Bool → String → Option String → Data → ℕ → Call
    prunes : ℤ → ℕ → Call
    lists : ℕ → String → Call
    reads : String → Bool → String → Call
    shows : String → ℕ → String → Call

  unfoldable pub step : ReplayStore → Call → ReplayStore
  step s (starts run_id goal start_url max_steps tenant_id now) =
      start_run s run_id goal start_url max_steps tenant_id now
  step s (adds run_id step_index action reasoning current_url shot extracted nonce now) =
      add_step json fernet s run_id step_index action reasoning current_url shot extracted nonce now
  step s (finishes run_id success final_url error extracted now) =
      finish_run json fernet s run_id success final_url error extracted now
  step s (prunes retention now) = (prune_older_than s retention now).0
  step s (lists limit tenant_id) = (list_runs s limit tenant_id).0
  step s (reads run_id include tenant_id) = (get_run json fernet s run_id include tenant_id).0
  step s (shows run_id step_index tenant_id) =
      (get_run_step_screenshot json fernet s run_id step_index tenant_id).0

  unfoldable pub call_all : ReplayStore → List Call → ReplayStore
  call_all s [] = s
  call_all s (c ∷ cs) = call_all (step s c) cs

  -- The statements of the calls, each with its effect at once: the row of a step enters the table, and
  -- nothing is batched.
  unfoldable pub write : Tables → Call → Tables
  unfolding replace_run replace_step update_run encrypt_screenshot
  write t (starts run_id goal start_url max_steps tenant_id now) =
      (start_run (commit t) run_id goal start_url max_steps tenant_id now).live
  write t (adds run_id step_index action reasoning current_url shot extracted nonce now) =
      replace_step t (record {
        run_id = run_id;
        step_index = step_index;
        ts = now;
        action = action;
        reasoning = reasoning;
        current_url = current_url;
        screenshot = encrypt_screenshot fernet nonce shot;
        extracted_json = dumps extracted;
      })
  write t (finishes run_id success final_url error extracted now) =
      (finish_run json fernet (commit t) run_id success final_url error extracted now).live
  write t (prunes retention now) = drop_runs t (old_runs t.runs (cutoff now retention))
  write t (lists limit tenant_id) = t
  write t (reads run_id include tenant_id) = t
  write t (shows run_id step_index tenant_id) = t

  unfoldable pub write_all : Tables → List Call → Tables
  write_all t [] = t
  write_all t (c ∷ cs) = write_all (write t c) cs

  -- What is not committed: rows of steps, no more than are counted, and fewer than a batch.
  unfoldable pub replay_rows : Tables → List StepRow → Tables
  replay_rows t [] = t
  replay_rows t (r ∷ rs) = replay_rows (replace_step t r) rs

  pub record IsValid (s : ReplayStore) : Type 0 where
    pub lost : List StepRow
    pub counted : length lost ≤ s.pending_step_writes
    pub fewer : s.pending_step_writes < step_commit_batch
    pub replayed : s.live ≡ replay_rows s.disk lost

  commit-IsValid : (t : Tables) → IsValid (commit t)
  unfolding replay_rows
  commit-IsValid t = record {
    lost = [];
    counted = omega arith;
    fewer = omega arith;
    replayed = refl;
  }

  replay_rows-append :
      (t : Tables) (rows : List StepRow) (r : StepRow)
      → replay_rows t (rows ++ r ∷ []) ≡ replace_step (replay_rows t rows) r
  unfolding replay_rows
  replay_rows-append t [] r = refl
  replay_rows-append t (x ∷ rows) r = replay_rows-append (replace_step t x) rows r

  nil_of_none : (rows : List StepRow) → length rows ≤ 0 → rows ≡ []
  nil_of_none [] h = refl
  nil_of_none (r ∷ rows) h = absurd (omega arith)

  -- A flush commits all that the writer sees.
  pub flush-commits : (s : ReplayStore) → IsValid s → (flush s).disk ≡ s.live
  unfolding flush replay_rows
  flush-commits s v = elim (Bool-cases (leb 1 s.pending_step_writes)) [
    | inl e ↦ rw e
    | inr e ↦
        let none_lost : length v.lost ≤ 0 = ground (arith, v.counted) in
        rw e
          (sym (v.replayed ∙ ap (λ rows. replay_rows s.disk rows) (nil_of_none v.lost none_lost)))
  ]

  pub live-flush : (s : ReplayStore) → (flush s).live ≡ s.live
  unfolding flush
  live-flush s = ground arith

  flush-IsValid : (s : ReplayStore) → IsValid s → IsValid (flush s)
  unfolding flush
  flush-IsValid s v = elim (Bool-cases (leb 1 s.pending_step_writes)) [
    | inl e ↦ rw e (commit-IsValid s.live)
    | inr e ↦ rw e v
  ]

  insert-IsValid : (s : ReplayStore) (r : StepRow) → IsValid s → IsValid (insert_step_row s r)
  unfolding insert_step_row
  insert-IsValid s r v = elim (Bool-cases (leb step_commit_batch (suc s.pending_step_writes))) [
    | inl e ↦ rw e (commit-IsValid (replace_step s.live r))
    | inr e ↦ rw e (record {
      lost = v.lost ++ r ∷ [];
      counted = omega (arith, length-append v.lost (r ∷ []), v.counted);
      fewer = ground arith;
      replayed = ap (λ t. replace_step t r) v.replayed ∙ sym (replay_rows-append s.disk v.lost r);
    })
  ]

  prune-IsValid :
      (s : ReplayStore) (retention : ℤ) (now : ℕ)
      → IsValid s
      → IsValid (prune_older_than s retention now).0
  unfolding prune_older_than replay_rows
  prune-IsValid s retention now v =
      let ids = old_runs s.live.runs (cutoff now retention) in
      elim (Bool-cases (eqb (length ids) 0)) [
        | inl e ↦ rw e v
        | inr e ↦
            rw e (record { lost = []; counted = omega arith; fewer = v.fewer; replayed = refl })
      ]

  pub step-IsValid : (s : ReplayStore) (c : Call) → IsValid s → IsValid (step s c)
  unfolding step start_run finish_run add_step list_runs get_run get_run_step_screenshot
  step-IsValid s (starts run_id goal start_url max_steps tenant_id now) v = commit-IsValid _
  step-IsValid s (adds run_id step_index action reasoning current_url shot extracted nonce now) v =
      insert-IsValid s _ v
  step-IsValid s (finishes run_id success final_url error extracted now) v = commit-IsValid _
  step-IsValid s (prunes retention now) v = prune-IsValid s retention now v
  step-IsValid s (lists limit tenant_id) v = flush-IsValid s v
  step-IsValid s (reads run_id include tenant_id) v = flush-IsValid s v
  step-IsValid s (shows run_id step_index tenant_id) v = flush-IsValid s v

  call_all-IsValid_from : (s : ReplayStore) (cs : List Call) → IsValid s → IsValid (call_all s cs)
  unfolding call_all
  call_all-IsValid_from s [] v = v
  call_all-IsValid_from s (c ∷ cs) v = call_all-IsValid_from (step s c) cs (step-IsValid s c v)

  replay_rows-runs : (t : Tables) (rows : List StepRow) → (replay_rows t rows).runs ≡ t.runs
  unfolding replay_rows replace_step
  replay_rows-runs t [] = refl
  replay_rows-runs t (r ∷ rows) = replay_rows-runs (replace_step t r) rows

  pub call_all-IsValid : (cs : List Call) → IsValid (call_all init cs)
  call_all-IsValid cs = call_all-IsValid_from init cs (commit-IsValid no_rows)

  -- After any calls on a new store, a crash loses at most four rows of steps and no row of a run: the
  -- table of runs is committed, and all tables are the committed ones with at most four rows of steps
  -- entered.
  pub crash_loses-le :
      (cs : List Call)
      → let s = call_all init cs in
        (s.disk.runs ≡ s.live.runs)
        × ((lost : List StepRow) × (length lost ≤ 4) × (s.live ≡ replay_rows s.disk lost))
  crash_loses-le cs =
      let v = call_all-IsValid cs in
      (
        sym (ap (λ t. t.runs) v.replayed ∙ replay_rows-runs (call_all init cs).disk v.lost),
        (v.lost, omega (arith, v.counted, v.fewer), v.replayed),
      )
