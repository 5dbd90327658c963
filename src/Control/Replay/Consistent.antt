-- ===== src/Control/Replay/Consistent.antt =====
-- control/replay.py: the reader's connection sees every write of the writer's.
use plugin_baselithbot.Dict.{Dict, retain}
use plugin_baselithbot.Lists.{length, keep, contains}
use plugin_baselithbot.Control.Replay.Rows.{
  RunRow, StepRow, Tables, no_rows, replace_step, old_runs, drop_runs,
}
use plugin_baselithbot.Control.Replay.{
  Json, Fernet, ReplayStore, init, flush, start_run, insert_step_row, cutoff, prune_older_than,
  add_step, finish_run,
}
use plugin_baselithbot.Control.Replay.Reads.{
  newest_first, take, listed, list_runs, read_run, get_run, read_screenshot,
  get_run_step_screenshot,
}
use plugin_baselithbot.Control.Replay.Durable.{
  Call, starts, adds, finishes, prunes, lists, reads, shows, step, call_all, write, write_all,
  flush-commits, live-flush, call_all-IsValid,
}
use plugin_baselithbot.Slices.{ℤ}
use plugin_baselithbot.Common.{
  ℕ, max, String, ◌≡◌, refl, sym, ap, ◌∙◌, inl, inr, Bool, not, Option, List, [], ◌∷◌, arith, eqb,
  Bool-cases,
}

keep_all : (rows : List StepRow) → keep (λ r. not (contains r.run_id [])) rows ≡ rows
unfolding keep contains
keep_all [] = refl
keep_all (r ∷ rows) = ap (λ rs. r ∷ rs) (keep_all rows)

retain_all : (runs : Dict RunRow) → retain (λ id row. not (contains id [])) runs ≡ runs
unfolding retain contains
retain_all [] = refl
retain_all ((id, row) ∷ runs) = ap (λ rs. (id, row) ∷ rs) (retain_all runs)

drop_none : (t : Tables) (ids : List String) → length ids ≡ 0 → drop_runs t ids ≡ t
drop_none t [] h = rw (keep_all t.steps, retain_all t.runs)
drop_none t (id ∷ ids) h = absurd (omega arith)

pub live-prune :
    (s : ReplayStore) (retention : ℤ) (now : ℕ)
    → (prune_older_than s retention now).0.live
      ≡ drop_runs s.live (old_runs s.live.runs (cutoff now retention))
unfolding prune_older_than
live-prune s retention now =
    let ids = old_runs s.live.runs (cutoff now retention) in
    elim (Bool-cases (eqb (length ids) 0)) [
      | inl e ↦ rw e (sym (drop_none s.live ids (ground arith)))
      | inr e ↦ rw e
    ]

module _ (json : Json) (fernet : Option Fernet) where
  open json use {Data}

  live-insert : (s : ReplayStore) (r : StepRow) → (insert_step_row s r).live ≡ replace_step s.live r
  unfolding insert_step_row
  live-insert s r = ground arith

  live-step :
      (s : ReplayStore) (c : Call json fernet)
      → (step json fernet s c).live ≡ write json fernet s.live c
  unfolding step write start_run finish_run add_step list_runs get_run get_run_step_screenshot
  live-step s (starts run_id goal start_url max_steps tenant_id now) = refl
  live-step s (adds run_id step_index action reasoning current_url shot extracted nonce now) =
      live-insert s _
  live-step s (finishes run_id success final_url error extracted now) = refl
  live-step s (prunes retention now) = live-prune s retention now
  live-step s (lists limit tenant_id) = live-flush json fernet s
  live-step s (reads run_id include tenant_id) = live-flush json fernet s
  live-step s (shows run_id step_index tenant_id) = live-flush json fernet s

  live-call_all :
      (s : ReplayStore) (cs : List (Call json fernet))
      → (call_all json fernet s cs).live ≡ write_all json fernet s.live cs
  unfolding call_all write_all
  live-call_all s [] = refl
  live-call_all s (c ∷ cs) =
      live-call_all (step json fernet s c) cs ∙ ap (λ t. write_all json fernet t cs) (live-step s c)

  flushed :
      (cs : List (Call json fernet))
      → (flush (call_all json fernet init cs)).disk ≡ write_all json fernet no_rows cs
  flushed cs =
      flush-commits json fernet (call_all json fernet init cs) (call_all-IsValid json fernet cs)
      ∙ live-call_all init cs

  -- After any calls on a new store, each read answers from the tables that the statements of all these
  -- calls give: no write is missed because it waits in a batch.
  pub reads-write_all :
      (cs : List (Call json fernet)) (run_id tenant_id : String) (include : Bool)
      (step_index limit : ℕ)
      → let s = call_all json fernet init cs in
        let t = write_all json fernet no_rows cs in
        ((get_run json fernet s run_id include tenant_id).1
          ≡ read_run json fernet t run_id include tenant_id)
        × ((get_run_step_screenshot json fernet s run_id step_index tenant_id).1
            ≡ read_screenshot json fernet t run_id step_index tenant_id)
        × ((list_runs s limit tenant_id).1
            ≡ take (newest_first (listed t t.runs tenant_id)) (max 1 limit))
  unfolding get_run get_run_step_screenshot list_runs
  reads-write_all cs run_id tenant_id include step_index limit = rw (flushed cs) (refl, refl, refl)
