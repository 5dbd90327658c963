-- ===== src/ComputerUse/Audit.antt =====
-- computer_use/config.py, `AuditLogger`: redacted entries, written in batches. The file may hold entries
-- when it is opened, and is only appended to.
pub mod Kept
pub mod Complete
use plugin_baselithbot.Lists.{is_nil, length}
use plugin_baselithbot.Common.{
  ℕ, zero, suc, ◌-◌, max, String, Bool, true, false, not, ◌||◌, List, [], ◌∷◌, ◌++◌, leb,
  if◌then◌else◌,
}
use plugin_baselithbot.Security.Redaction.{Payload, dict, Fields, redact_payload, max_depth}

pub record Entry : Type 0 where
  pub ts : ℕ
  pub action : String
  pub fields : Payload

-- `has_path` is whether `_path` is set, and `file` the lines of that file.
pub record AuditLogger : Type 0 where
  pub has_path : Bool
  pub file : List Entry
  pub buffer : List Entry
  pub batch_size : ℕ
  pub flush_interval : ℕ
  pub last_flush : ℕ

-- The flush interval is given in milliseconds, of which 100 are the least.
unfoldable pub init : Bool → List Entry → ℕ → ℕ → ℕ → AuditLogger
init has_path file batch_size flush_interval_seconds now = record {
  has_path = has_path;
  file = file;
  buffer = [];
  batch_size = max 1 batch_size;
  flush_interval = max 100 flush_interval_seconds;
  last_flush = now;
}

-- How the append of a flush ends: the file takes all lines, or an `OSError` is raised after some of them,
-- which may be none. A line that is torn in its middle is left out.
pub data Writing : Type 0 where
  goes_through : Writing
  breaks_off : ℕ → Writing

abbrev pub first_lines : ℕ → List Entry → List Entry
first_lines n [] = []
first_lines zero (e ∷ es) = []
first_lines (suc n) (e ∷ es) = e ∷ first_lines n es

-- `_flush_locked`, with whether it returns; false is the `OSError`, which leaves the buffer as it is.
unfoldable pub flush : Writing → AuditLogger → ℕ → AuditLogger × Bool
flush w a now =
    if is_nil a.buffer || not a.has_path
    then (record a { buffer = []; last_flush = now }, true)
    else elim w [
      | goes_through ↦ (record a { file = a.file ++ a.buffer; buffer = []; last_flush = now }, true)
      | breaks_off n ↦ (record a { file = a.file ++ first_lines n a.buffer }, false)
    ]

abbrev pub entry_of : String → Fields → ℕ → Entry
entry_of action fields now = record {
  ts = now;
  action = action;
  fields = redact_payload max_depth (dict fields);
}

-- `record`, with whether it returns
unfoldable pub record_writing : Writing → AuditLogger → String → Fields → ℕ → AuditLogger × Bool
unfolding flush
record_writing w a action fields now =
    if not a.has_path
    then (a, true)
    else let a' = record a { buffer = a.buffer ++ entry_of action fields now ∷ [] } in
      if leb a.batch_size (length a'.buffer) || leb a.flush_interval (now - a.last_flush)
      then flush w a' now
      else (a', true)

-- `record` for the classes that log their actions: their log can be written.
unfoldable pub record_action : AuditLogger → String → Fields → ℕ → AuditLogger
unfolding record_writing
record_action a action fields now = (record_writing goes_through a action fields now).0
