-- ===== src/Control/Replay/Reads.antt =====
-- control/replay.py: what the dashboard reads. Every read flushes the writer under the writer's lock and
-- then selects on the reader's connection under the reader's. These are two steps, `flush` and the
-- reading of the tables (`listed`, `read_run`, `read_screenshot`), between which another thread may
-- write; `list_runs`, `get_run` and `get_run_step_screenshot` are the calls in which none does.
use plugin_baselithbot.Text.{is_empty, truthy}
use plugin_baselithbot.Dict.{Dict, get}
use plugin_baselithbot.Lists.{length, keep, contains}
use plugin_baselithbot.Control.Replay.Rows.{RunRow, StepRow, Tables, has_key}
use plugin_baselithbot.Control.Replay.{Json, Fernet, ReplayStore, flush, decrypt_screenshot}
use plugin_baselithbot.Common.{
  ℕ, zero, suc, max, String, Bool, ◌||◌, Option, none, some, List, [], ◌∷◌, map, ◌==◌, leb,
  if◌then◌else◌, is_some,
}

-- A step with its screenshot decrypted and its data parsed.
pub record StepView (D : Type 0) : Type 0 where
  pub row : StepRow
  pub shown : Option String
  pub extracted_data : D

pub record RunView (D : Type 0) : Type 0 where
  pub row : RunRow
  pub extracted_data : D
  pub step_count : ℕ
  pub screenshot_steps : ℕ
  pub first_step_ts : Option ℕ
  pub last_step_ts : Option ℕ
  pub distinct_url_count : ℕ
  pub steps : List (StepView D)

-- ORDER BY step_index
unfoldable pub insert_by_index : StepRow → List StepRow → List StepRow
insert_by_index r [] = r ∷ []
insert_by_index r (x ∷ xs) =
    if leb r.step_index x.step_index then r ∷ x ∷ xs else x ∷ insert_by_index r xs

unfoldable pub by_index : List StepRow → List StepRow
unfolding insert_by_index
by_index [] = []
by_index (r ∷ rs) = insert_by_index r (by_index rs)

-- SELECT ... FROM steps WHERE run_id=? ORDER BY step_index
abbrev pub steps_of : Tables → String → List StepRow
steps_of t run_id = by_index (keep (λ r. r.run_id == run_id) t.steps)

-- SELECT * FROM runs WHERE run_id=? AND tenant_id=?
unfoldable pub run_of_tenant : Tables → String → String → Option RunRow
run_of_tenant t run_id tenant_id = elim (get t.runs run_id) [
  | none ↦ none
  | some row ↦ if row.tenant_id == tenant_id then some row else none
]

-- len(distinct_urls), of the URLs that are not empty
abbrev pub distinct_urls : List StepRow → List String
distinct_urls [] = []
distinct_urls (r ∷ rs) =
    let rest = distinct_urls rs in
    if is_empty r.current_url || contains r.current_url rest then rest else r.current_url ∷ rest

abbrev pub last_ts : List StepRow → Option ℕ
last_ts [] = none
last_ts (r ∷ []) = some r.ts
last_ts (r ∷ q ∷ rs) = last_ts (q ∷ rs)

abbrev pub first_ts : List StepRow → Option ℕ
first_ts [] = none
first_ts (r ∷ rs) = some r.ts

-- A row of `list_runs`.
pub record ListedRun : Type 0 where
  pub run_id : String
  pub row : RunRow
  pub step_count : ℕ

-- ORDER BY started_at DESC: rows of the same time are in the table's order.
unfoldable pub insert_newest : ListedRun → List ListedRun → List ListedRun
insert_newest r [] = r ∷ []
insert_newest r (x ∷ xs) =
    if leb x.row.started_at r.row.started_at then r ∷ x ∷ xs else x ∷ insert_newest r xs

unfoldable pub newest_first : List ListedRun → List ListedRun
unfolding insert_newest
newest_first [] = []
newest_first (r ∷ rs) = insert_newest r (newest_first rs)

abbrev pub take : List ListedRun → ℕ → List ListedRun
take [] n = []
take (x ∷ xs) zero = []
take (x ∷ xs) (suc n) = x ∷ take xs n

abbrev pub listed : Tables → Dict RunRow → String → List ListedRun
listed t [] tenant_id = []
listed t ((id, row) ∷ runs) tenant_id =
    if row.tenant_id == tenant_id
    then record { run_id = id; row = row; step_count = length (keep (λ r. r.run_id == id) t.steps) }
      ∷ listed t runs tenant_id
    else listed t runs tenant_id

-- A limit below one is one.
unfoldable pub list_runs : ReplayStore → ℕ → String → ReplayStore × List ListedRun
unfolding flush newest_first
list_runs s limit tenant_id =
    let s' = flush s in
    (s', take (newest_first (listed s'.disk s'.disk.runs tenant_id)) (max 1 limit))

module _ (json : Json) (fernet : Option Fernet) where
  open json use {Data, empty, dumps, loads}

  -- json.loads of a text that is not empty, and {} for one that does not parse
  unfoldable pub parsed : Option String → Data
  parsed none = empty
  parsed (some text) =
      if is_empty text then empty else elim (loads text) [ none ↦ empty | some d ↦ d ]

  unfoldable pub view_step : Bool → StepRow → StepView Data
  unfolding parsed decrypt_screenshot
  view_step include r = record {
    row = record r { screenshot = none };
    shown = if include then decrypt_screenshot fernet r.screenshot else none;
    extracted_data = parsed (some r.extracted_json);
  }

  -- `if raw_shot` of a hydrated row, and screenshot_b64 IS NOT NULL without hydration
  abbrev pub has_shot : Bool → StepRow → Bool
  has_shot include r = if include then truthy r.screenshot else is_some r.screenshot

  unfoldable pub view_run : Bool → RunRow → List StepRow → RunView Data
  unfolding view_step
  view_run include row rows = record {
    row = record row { extracted_json = none };
    extracted_data = parsed row.extracted_json;
    step_count = length rows;
    screenshot_steps = length (keep (has_shot include) rows);
    first_step_ts = first_ts rows;
    last_step_ts = last_ts rows;
    distinct_url_count = length (distinct_urls rows);
    steps = map (view_step include) rows;
  }

  -- What `get_run` selects and computes from the tables it reads.
  unfoldable pub read_run : Tables → String → Bool → String → Option (RunView Data)
  unfolding run_of_tenant view_run by_index
  read_run t run_id include tenant_id = elim (run_of_tenant t run_id tenant_id) [
    | none ↦ none
    | some row ↦ some (view_run include row (steps_of t run_id))
  ]

  unfoldable pub get_run :
      ReplayStore → String → Bool → String → ReplayStore × Option (RunView Data)
  unfolding flush read_run
  get_run s run_id include tenant_id =
      let s' = flush s in (s', read_run s'.disk run_id include tenant_id)

  -- The step of the run, with the EXISTS on the run's tenant.
  unfoldable pub read_screenshot : Tables → String → ℕ → String → Option String
  unfolding run_of_tenant decrypt_screenshot
  read_screenshot t run_id step_index tenant_id = elim (keep (has_key run_id step_index) t.steps) [
    | [] ↦ none
    | r ∷ rs ↦ elim (run_of_tenant t run_id tenant_id) [
      | none ↦ none
      | some row ↦ decrypt_screenshot fernet r.screenshot
    ]
  ]

  unfoldable pub get_run_step_screenshot :
      ReplayStore → String → ℕ → String → ReplayStore × Option String
  unfolding flush read_screenshot
  get_run_step_screenshot s run_id step_index tenant_id =
      let s' = flush s in (s', read_screenshot s'.disk run_id step_index tenant_id)
