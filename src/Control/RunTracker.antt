-- ===== src/Control/RunTracker.antt =====
-- control/run_tracker.py: the live run-task tracker. The models that it hands out are copies, here
-- values. `D` is the type of the extracted data.
pub mod Recency
pub mod Bounds
use plugin_baselithbot.Common.{
  ℕ, String, Bool, Option, none, some, List, [], ◌∷◌, ltb, if◌then◌else◌,
}
use plugin_baselithbot.Lists.{length}
use plugin_baselithbot.Slices.{ℤ, neg, at_least_zero, slice_from}
use plugin_baselithbot.Dict.{Dict, get, put, adjust, move_to_end, values, last_value}
use mathlib.Core.List.{reverse}

pub data RunTaskStatus : Type 0 where
  running completed failed : RunTaskStatus

pub record RunTaskState (D : Type 0) : Type 0 where
  pub run_id : String
  pub status : RunTaskStatus
  pub goal : String
  pub start_url : Option String
  pub max_steps : ℕ
  pub extract_fields : List String
  pub started_at : ℕ
  pub completed_at : Option ℕ
  pub steps_taken : ℕ
  pub current_url : String
  pub final_url : String
  pub last_action : Option String
  pub last_reasoning : Option String
  pub extracted_data : Option D
  pub history : List String
  pub error : Option String
  pub last_screenshot_b64 : Option String

pub record RunTaskTracker (D : Type 0) : Type 0 where
  pub max_runs : ℕ
  pub runs : Dict (RunTaskState D)

-- The arguments of `step`.
pub record Progress (D : Type 0) : Type 0 where
  pub steps_taken : ℕ
  pub current_url : String
  pub action : String
  pub reasoning : String
  pub history : List String
  pub extracted_data : D
  pub last_screenshot_b64 : Option String

-- The arguments of `finish`.
pub record Outcome (D : Type 0) : Type 0 where
  pub success : Bool
  pub final_url : String
  pub steps_taken : ℕ
  pub extracted_data : D
  pub history : List String
  pub error : Option String
  pub last_screenshot_b64 : Option String

module _ {D : Type 0} where
  abbrev pub init : ℕ → RunTaskTracker D
  init max_runs = record { max_runs = max_runs; runs = [] }

  -- The loop of `_trim`, which pops the first entry while there are too many.
  unfoldable pub trim : ℕ → Dict (RunTaskState D) → Dict (RunTaskState D)
  trim max_runs [] = []
  trim max_runs (e ∷ runs) =
      if ltb max_runs (length (e ∷ runs)) then trim max_runs runs else e ∷ runs

  -- An empty dictionary of extracted data is `none`.
  abbrev pub new_state : String → String → Option String → ℕ → List String → ℕ → RunTaskState D
  new_state run_id goal start_url max_steps extract_fields now = record {
    run_id = run_id;
    status = running;
    goal = goal;
    start_url = start_url;
    max_steps = max_steps;
    extract_fields = extract_fields;
    started_at = now;
    completed_at = none;
    steps_taken = 0;
    current_url = "";
    final_url = "";
    last_action = none;
    last_reasoning = none;
    extracted_data = none;
    history = [];
    error = none;
    last_screenshot_b64 = none;
  }

  unfoldable pub start :
      RunTaskTracker D
      → String
      → String
      → Option String
      → ℕ
      → List String
      → ℕ
      → RunTaskTracker D × RunTaskState D
  unfolding trim
  start t run_id goal start_url max_steps extract_fields now =
      let state = new_state run_id goal start_url max_steps extract_fields now in
      (record t { runs = trim t.max_runs (move_to_end (put t.runs run_id state) run_id) }, state)

  abbrev pub progressed : Progress D → RunTaskState D → RunTaskState D
  progressed p s = record s {
    steps_taken = p.steps_taken;
    current_url = p.current_url;
    last_action = some p.action;
    last_reasoning = some p.reasoning;
    history = p.history;
    extracted_data = some p.extracted_data;
    last_screenshot_b64 = p.last_screenshot_b64;
  }

  abbrev pub finished : Outcome D → ℕ → RunTaskState D → RunTaskState D
  finished o now s = record s {
    status = if o.success then completed else failed;
    completed_at = some now;
    steps_taken = o.steps_taken;
    current_url = o.final_url;
    final_url = o.final_url;
    extracted_data = some o.extracted_data;
    history = o.history;
    error = o.error;
    last_screenshot_b64 = o.last_screenshot_b64;
  }

  -- What `step` and `finish` share: a change of the run that is there, which becomes the latest.
  unfoldable pub update :
      RunTaskTracker D
      → String
      → (RunTaskState D → RunTaskState D)
      → RunTaskTracker D × Option (RunTaskState D)
  update t run_id f = elim (get t.runs run_id) [
    | none ↦ (t, none)
    | some s ↦ (record t { runs = move_to_end (adjust t.runs run_id f) run_id }, some (f s))
  ]

  unfoldable pub step :
      RunTaskTracker D → String → Progress D → RunTaskTracker D × Option (RunTaskState D)
  unfolding update
  step t run_id p = update t run_id (progressed p)

  unfoldable pub finish :
      RunTaskTracker D → String → Outcome D → ℕ → RunTaskTracker D × Option (RunTaskState D)
  unfolding update
  finish t run_id o now = update t run_id (finished o now)

  unfoldable pub get_run : RunTaskTracker D → String → Option (RunTaskState D)
  get_run t run_id = get t.runs run_id

  unfoldable pub latest : RunTaskTracker D → Option (RunTaskState D)
  latest t = last_value t.runs

  unfoldable pub recent : RunTaskTracker D → ℤ → List (RunTaskState D)
  recent t limit = reverse (slice_from (neg (at_least_zero limit)) (values t.runs))
