-- ===== src/Control/Replay/Retention.antt =====
-- control/replay.py: which runs and steps `prune_older_than` drops, and the one row per run.
use plugin_baselithbot.Control.Replay.Consistent.{live-prune}
use plugin_baselithbot.Dict.Keys.{
  IsDistinct, adjust-IsDistinct, retain-IsDistinct, get-retain, contains-keys, remove-IsDistinct,
  append_one-IsDistinct,
}
use plugin_baselithbot.Dict.{Dict, get, retain, remove, get-remove}
use plugin_baselithbot.Lists.{length, keep, contains}
use plugin_baselithbot.Control.Replay.Rows.{
  RunRow, StepRow, Tables, replace_run, update_run, replace_step, old_runs, drop_runs,
}
use plugin_baselithbot.Control.Replay.{
  Json, Fernet, ReplayStore, start_run, cutoff, prune_older_than, finish_run,
}
use plugin_baselithbot.Control.Replay.Durable.{
  Call, starts, adds, finishes, prunes, lists, reads, shows, write, write_all,
}
use plugin_baselithbot.Slices.{ℤ}
use plugin_baselithbot.Common.{
  ℕ, String, ◌≡◌, refl, Bool, false, not, Option, none, some, List, [], ◌∷◌, arith, ltb,
  if◌then◌else◌, eq_refl,
}

-- Whether the row of a run is older than the cutoff; a run without a row is not.
abbrev pub is_old : Dict RunRow → ℕ → String → Bool
is_old runs cutoff id = elim (get runs id) [ none ↦ false | some row ↦ ltb row.started_at cutoff ]

old_runs-contains :
    (runs : Dict RunRow) (cutoff : ℕ) (id : String)
    → IsDistinct runs
    → contains id (old_runs runs cutoff) ≡ is_old runs cutoff id
unfolding old_runs
old_runs-contains runs cutoff id d = ground (
  arith,
  contains-keys (retain (λ j row. ltb row.started_at cutoff) runs) id,
  get-retain (λ j row. ltb row.started_at cutoff) runs id d,
)

keep-ext :
    (p q : StepRow → Bool) (rows : List StepRow)
    → ((r : StepRow) → p r ≡ q r)
    → keep p rows ≡ keep q rows
unfolding keep
keep-ext p q [] h = refl
keep-ext p q (r ∷ rows) h = rw (h r, keep-ext p q rows h)

-- With one row per run, pruning drops exactly the runs that started before the cutoff and exactly
-- the steps of those runs, and it leaves the other rows as they are; the number that it returns
-- is that of the runs older than the cutoff.
pub prune_older_than-exact :
    (s : ReplayStore) (retention : ℤ) (now : ℕ)
    → IsDistinct s.live.runs
    → let (s', dropped) = prune_older_than s retention now in
      let old = is_old s.live.runs (cutoff now retention) in
      ((id : String) → get s'.live.runs id ≡ (if old id then none else get s.live.runs id))
      × (s'.live.steps ≡ keep (λ r. not (old r.run_id)) s.live.steps)
      × (dropped ≡ length (old_runs s.live.runs (cutoff now retention)))
unfolding prune_older_than
prune_older_than-exact s retention now d =
    let ids = old_runs s.live.runs (cutoff now retention) in
    let old = is_old s.live.runs (cutoff now retention) in
    let tables : (prune_older_than s retention now).0.live ≡ drop_runs s.live ids =
      live-prune s retention now in
    let c : (id : String) → contains id ids ≡ old id =
      λ id. old_runs-contains s.live.runs (cutoff now retention) id d in
    (
      λ id.
          rw tables
            (ground (arith, get-retain (λ j row. not (contains j ids)) s.live.runs id d, c id)),
      rw tables (
          keep-ext (λ r. not (contains r.run_id ids)) (λ r. not (old r.run_id)) s.live.steps
            (λ r. rw (c r.run_id))),
      ground arith,
    )

module _ (json : Json) (fernet : Option Fernet) where
  replace-IsDistinct :
      (t : Tables) (id : String) (row : RunRow)
      → IsDistinct t.runs
      → IsDistinct (replace_run t id row).runs
  unfolding replace_run
  replace-IsDistinct t id row d =
      append_one-IsDistinct (remove t.runs id) id row (remove-IsDistinct t.runs id d)
        (rw (get-remove t.runs id id, eq_refl))

  write-IsDistinct :
      (t : Tables) (c : Call json fernet)
      → IsDistinct t.runs
      → IsDistinct (write json fernet t c).runs
  unfolding write start_run finish_run update_run replace_step
  write-IsDistinct t (starts run_id goal start_url max_steps tenant_id now) d =
      replace-IsDistinct t run_id _ d
  write-IsDistinct t (adds run_id step_index action reasoning url shot extracted nonce now) d = d
  write-IsDistinct t (finishes run_id success final_url error extracted now) d =
      adjust-IsDistinct t.runs run_id _ d
  write-IsDistinct t (prunes retention now) d = retain-IsDistinct _ t.runs d
  write-IsDistinct t (lists limit tenant_id) d = d
  write-IsDistinct t (reads run_id include tenant_id) d = d
  write-IsDistinct t (shows run_id step_index tenant_id) d = d

  pub write_all-IsDistinct :
      (t : Tables) (cs : List (Call json fernet))
      → IsDistinct t.runs
      → IsDistinct (write_all json fernet t cs).runs
  unfolding write_all
  write_all-IsDistinct t [] d = d
  write_all-IsDistinct t (c ∷ cs) d =
      write_all-IsDistinct (write json fernet t c) cs (write-IsDistinct t c d)
