-- ===== src/Control/Replay/Rows.antt =====
-- control/replay.py: the two tables of the schema and what the statements do to them. A table of runs
-- is in the order of its rows, with the primary key run_id; the steps have the key (run_id,
-- step_index).
use plugin_baselithbot.Dict.{Dict, remove, adjust, retain, keys}
use plugin_baselithbot.Lists.{keep, contains}
use plugin_baselithbot.Common.{
  ℕ, String, Bool, not, ◌&&◌, Option, List, [], ◌∷◌, ◌++◌, ◌==◌, ltb, eqb,
}

pub data RunStatus : Type 0 where
  running completed failed : RunStatus

pub record RunRow : Type 0 where
  pub tenant_id : String
  pub goal : String
  pub start_url : Option String
  pub max_steps : ℕ
  pub status : RunStatus
  pub started_at : ℕ
  pub completed_at : Option ℕ
  pub final_url : Option String
  pub error : Option String
  pub extracted_json : Option String

pub record StepRow : Type 0 where
  pub run_id : String
  pub step_index : ℕ
  pub ts : ℕ
  pub action : String
  pub reasoning : String
  pub current_url : String
  pub screenshot : Option String
  pub extracted_json : String

pub record Tables : Type 0 where
  pub runs : Dict RunRow
  pub steps : List StepRow

abbrev pub no_rows : Tables
no_rows = record { runs = []; steps = [] }

-- INSERT OR REPLACE INTO runs: the row with the key, if any, goes, and the new row is the last one.
unfoldable pub replace_run : Tables → String → RunRow → Tables
replace_run t run_id row = record t { runs = remove t.runs run_id ++ (run_id, row) ∷ [] }

-- UPDATE runs SET ... WHERE run_id=?
unfoldable pub update_run : Tables → String → (RunRow → RunRow) → Tables
update_run t run_id f = record t { runs = adjust t.runs run_id f }

abbrev pub has_key : String → ℕ → StepRow → Bool
has_key run_id step_index row = row.run_id == run_id && eqb row.step_index step_index

-- INSERT OR REPLACE INTO steps
unfoldable pub replace_step : Tables → StepRow → Tables
replace_step t row = record t {
  steps = keep (λ r. not (has_key row.run_id row.step_index r)) t.steps ++ row ∷ [];
}

-- SELECT run_id FROM runs WHERE started_at < ?
unfoldable pub old_runs : Dict RunRow → ℕ → List String
old_runs runs cutoff = keys (retain (λ id row. ltb row.started_at cutoff) runs)

-- DELETE FROM steps and FROM runs WHERE run_id IN (...)
abbrev pub drop_runs : Tables → List String → Tables
drop_runs t run_ids = record {
  runs = retain (λ id row. not (contains id run_ids)) t.runs;
  steps = keep (λ r. not (contains r.run_id run_ids)) t.steps;
}
