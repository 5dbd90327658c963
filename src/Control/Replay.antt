-- ===== src/Control/Replay.antt =====
-- control/replay.py: the SQLite store of the runs and their steps. The database is two copies of its
-- tables: what the writer's connection sees, and what is committed, which is what the reader's
-- connection sees and what a crash leaves.
pub mod Rows
pub mod Reads
pub mod Durable
pub mod Consistent
pub mod Retention
pub mod Screenshots
use plugin_baselithbot.Strings.{joined, after_prefix}
use plugin_baselithbot.Lists.{length}
use plugin_baselithbot.Control.Replay.Rows.{
  running, completed, failed, StepRow, Tables, no_rows, replace_run, update_run, replace_step,
  old_runs, drop_runs,
}
use plugin_baselithbot.Common.{
  ℕ, suc, ◌+◌, ◌-◌, String, ◌≡◌, Bool, Option, none, some, [], ◌∷◌, leb, eqb, if◌then◌else◌,
}
use Prim.Native.Char.{code}
use plugin_baselithbot.Slices.{ℤ, pos, negsuc}

-- `json.dumps(data, default=str)` and `json.loads`, where `none` is the `JSONDecodeError`.
pub record Json : Type 1 where
  pub Data : Type 0
  pub empty : Data
  pub dumps : Data → String
  pub loads : String → Option Data

-- `cryptography.fernet`: a token depends on the clock and on random bytes, here a number; `none` is any
-- exception. With its key a token gives back its text.
pub record Fernet : Type 0 where
  pub encrypt : ℕ → String → String
  pub decrypt : String → Option String
  pub decrypt-encrypt : (n : ℕ) (text : String) → decrypt (encrypt n text) ≡ some text

abbrev pub step_commit_batch : ℕ
step_commit_batch = 5

pub record ReplayStore : Type 0 where
  pub live : Tables
  pub disk : Tables
  pub pending_step_writes : ℕ

abbrev pub init : ReplayStore
init = record { live = no_rows; disk = no_rows; pending_step_writes = 0 }

-- self._conn.commit(); self._pending_step_writes = 0
abbrev pub commit : Tables → ReplayStore
commit t = record { live = t; disk = t; pending_step_writes = 0 }

-- `_flush_for_reader`, `_flush_pending_steps_locked`, and what `close` does before it closes
unfoldable pub flush : ReplayStore → ReplayStore
flush s = if leb 1 s.pending_step_writes then commit s.live else s

abbrev pub encrypted_prefix : String
encrypted_prefix = "enc:"

unfoldable pub encrypt_screenshot : Option Fernet → ℕ → Option String → Option String
encrypt_screenshot fernet n none = none
encrypt_screenshot none n (some value) = some value
encrypt_screenshot (some f) n (some value) = elim (after_prefix encrypted_prefix value) [
  | some rest ↦ some value
  | none ↦ some (joined encrypted_prefix (f.encrypt n value))
]

unfoldable pub decrypt_screenshot : Option Fernet → Option String → Option String
decrypt_screenshot fernet none = none
decrypt_screenshot fernet (some value) = elim (after_prefix encrypted_prefix value) [
  | none ↦ some value
  | some token ↦ elim fernet [ none ↦ none | some f ↦ f.decrypt token ]
]

unfoldable pub start_run :
    ReplayStore → String → String → Option String → ℕ → String → ℕ → ReplayStore
unfolding replace_run
start_run s run_id goal start_url max_steps tenant_id now = commit (
    replace_run s.live run_id (record {
      tenant_id = tenant_id;
      goal = goal;
      start_url = start_url;
      max_steps = max_steps;
      status = running;
      started_at = now;
      completed_at = none;
      final_url = none;
      error = none;
      extracted_json = none;
    }))

-- The row of a step and the count of the batch.
unfoldable pub insert_step_row : ReplayStore → StepRow → ReplayStore
unfolding replace_step
insert_step_row s row =
    let live = replace_step s.live row in
    let pending = suc s.pending_step_writes in
    if leb step_commit_batch pending
    then commit live
    else record s { live = live; pending_step_writes = pending }

-- `prune_older_than`, with the number of runs that it drops
abbrev pub cutoff : ℕ → ℤ → ℕ
cutoff now (pos n) = now - n
cutoff now (negsuc n) = now + suc n

unfoldable pub prune_older_than : ReplayStore → ℤ → ℕ → ReplayStore × ℕ
unfolding old_runs
prune_older_than s retention_seconds now =
    let run_ids = old_runs s.live.runs (cutoff now retention_seconds) in
    if eqb (length run_ids) 0 then (s, 0) else (
      record s { live = drop_runs s.live run_ids; disk = drop_runs s.live run_ids },
      length run_ids,
    )

module _ (json : Json) (fernet : Option Fernet) where
  open json use {Data, empty, dumps, loads}

  unfoldable pub add_step :
      ReplayStore
      → String
      → ℕ
      → String
      → String
      → String
      → Option String
      → Data
      → ℕ
      → ℕ
      → ReplayStore
  unfolding encrypt_screenshot insert_step_row
  add_step s run_id step_index action reasoning current_url screenshot extracted nonce now =
      insert_step_row s (record {
        run_id = run_id;
        step_index = step_index;
        ts = now;
        action = action;
        reasoning = reasoning;
        current_url = current_url;
        screenshot = encrypt_screenshot fernet nonce screenshot;
        extracted_json = dumps extracted;
      })

  unfoldable pub finish_run :
      ReplayStore → String → Bool → String → Option String → Data → ℕ → ReplayStore
  unfolding update_run
  finish_run s run_id success final_url error extracted now = commit (
      update_run s.live run_id (λ row. record row {
        status = if success then completed else failed;
        completed_at = some now;
        final_url = some final_url;
        error = error;
        extracted_json = some (dumps extracted);
      }))
