-- ===== src/Tests/Archive.antt =====
-- Inputs for the replay store.
use plugin_baselithbot.Strings.{after_prefix}
use plugin_baselithbot.Dict.{get, remove}
use plugin_baselithbot.Lists.{length, keep, All}
use plugin_baselithbot.Control.Replay.Rows.{
  running, RunRow, StepRow, Tables, no_rows, replace_run, replace_step,
}
use plugin_baselithbot.Control.Replay.{
  Json, Fernet, ReplayStore, init, commit, start_run, insert_step_row, add_step,
}
use plugin_baselithbot.Control.Replay.Reads.{
  newest_first, take, listed, list_runs, read_run, get_run, read_screenshot,
  get_run_step_screenshot,
}
use plugin_baselithbot.Control.Replay.Durable.{
  Call, starts, adds, step, call_all, write_all, replay_rows, crash_loses-le,
}
use plugin_baselithbot.Control.Replay.Consistent.{reads-write_all}
use plugin_baselithbot.Control.Replay.Screenshots.{screenshot-add_step, tenants_apart}
use plugin_baselithbot.Common.{
  ◌≡◌, refl, ◌≤◌, max, String, true, Option, none, some, List, [], ◌∷◌, map,
}

-- JSON texts as they are.
abbrev texts : Json
texts = record { Data = String; empty = ""; dumps = λ d. d; loads = λ t. some t }

-- A cipher that leaves the text as it is.
abbrev plain_key : Fernet
plain_key = record { encrypt = λ n t. t; decrypt = λ t. some t; decrypt-encrypt = λ n t. refl }

abbrev key : Option Fernet
key = some plain_key

-- A run of a tenant with six steps, of which the first five are committed together.
abbrev calls : List (Call texts key)
calls =
    starts "r1" "buy milk" none 20 "acme" 100
    ∷ adds "r1" 0 "open" "" "http://a" (some "iVBOR") "{}" 0 101
    ∷ adds "r1" 1 "click" "" "http://a" none "{}" 0 102
    ∷ adds "r1" 2 "click" "" "http://b" none "{}" 0 103
    ∷ adds "r1" 3 "click" "" "http://b" none "{}" 0 104
    ∷ adds "r1" 4 "click" "" "http://b" none "{}" 0 105
    ∷ adds "r1" 5 "click" "" "http://b" none "{}" 0 106
    ∷ []

abbrev saved : ReplayStore
saved = call_all texts key init calls

abbrev milk_run : RunRow
milk_run = record {
  tenant_id = "acme";
  goal = "buy milk";
  start_url = none;
  max_steps = 20;
  status = running;
  started_at = 100;
  completed_at = none;
  final_url = none;
  error = none;
  extracted_json = none;
}

one_pending : saved.pending_step_writes ≡ 1
unfolding call_all step start_run add_step insert_step_row
one_pending = refl

committed_steps : map (λ r. r.step_index) saved.disk.steps ≡ 0 ∷ 1 ∷ 2 ∷ 3 ∷ 4 ∷ []
unfolding call_all step start_run add_step insert_step_row replace_run replace_step remove keep
committed_steps = refl

saved_run : get saved.live.runs "r1" ≡ some milk_run
unfolding call_all step start_run add_step insert_step_row replace_run replace_step remove get
saved_run = refl

crash_loses-le_example :
    (saved.disk.runs ≡ saved.live.runs)
    × ((lost : List StepRow) × (length lost ≤ 4)
        × (saved.live ≡ replay_rows texts key saved.disk lost))
crash_loses-le_example = crash_loses-le texts key calls

abbrev written : Tables
written = write_all texts key no_rows calls

reads-write_all_example :
    ((get_run texts key saved "r1" true "acme").1 ≡ read_run texts key written "r1" true "acme")
    × ((get_run_step_screenshot texts key saved "r1" 0 "acme").1
        ≡ read_screenshot texts key written "r1" 0 "acme")
    × ((list_runs saved 10 "acme").1
        ≡ take (newest_first (listed written written.runs "acme")) (max 1 10))
reads-write_all_example = reads-write_all texts key calls "r1" "acme" true 0 10

screenshot-add_step_example :
    (get_run_step_screenshot texts key
      (add_step texts key saved "r1" 6 "click" "" "http://b" (some "iVBOR") "{}" 0 107)
      "r1"
      6
      "acme").1
    ≡ some "iVBOR"
unfolding after_prefix
screenshot-add_step_example =
    screenshot-add_step texts key calls "r1" "acme" milk_run 6 "click" "" "http://b" "iVBOR" "{}" 0
      107 saved_run refl refl

tenants_apart_example :
    ((get_run texts key saved "r1" true "other").1 ≡ none)
    × ((get_run_step_screenshot texts key saved "r1" 0 "other").1 ≡ none)
    × All (λ l. l.row.tenant_id ≡ "other") (list_runs saved 10 "other").1
tenants_apart_example =
    tenants_apart texts key calls "r1" "other" milk_run true 0 10 saved_run (λ e. cc)

abbrev two_runs : ReplayStore
two_runs = commit (record {
  runs = ("r1", milk_run) ∷ ("r2", record milk_run { started_at = 900 }) ∷ [];
  steps = [];
})
