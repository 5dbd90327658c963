-- ===== src/Observability/Usage.antt =====
-- observability/usage.py: the ledger of usage, a bounded ring of events with an append-only file of
-- lines. Costs are whole millionths of a dollar, which `round(x, 6)` leaves as they are; the metadata
-- of an event, which the ledger does not read, is left out.
pub mod Totals
pub mod Replay
use plugin_baselithbot.Text.{is_empty, strip}
use plugin_baselithbot.Dict.{Dict, get, put}
use plugin_baselithbot.Lists.{length, push_bounded, keep}
use plugin_baselithbot.Slices.{ℤ, neg, slice_from}
use plugin_baselithbot.Common.{
  ℕ, suc, ◌+◌, String, ◌≡◌, Bool, true, false, ◌&&◌, ◌||◌, Option, none, some, List, [], ◌∷◌, ◌++◌,
  ◌==◌, leb, eqb, if◌then◌else◌,
}

pub record UsageEvent : Type 0 where
  pub ts : ℕ
  pub session_id : Option String
  pub agent_id : Option String
  pub channel : Option String
  pub model : Option String
  pub prompt_tokens : ℕ
  pub completion_tokens : ℕ
  pub total_tokens : ℕ
  pub cost_usd : ℕ
  pub latency_ms : ℕ

-- `model_dump_json` and `model_validate_json` of pydantic, where `none` is the `ValueError`.
pub record EventJson : Type 0 where
  pub dump : UsageEvent → String
  pub validate : String → Option UsageEvent

-- The line of the event is a text that stripping leaves, and it gives back the event.
pub record IsReadable (json : EventJson) (e : UsageEvent) : Type 0 where
  pub validated : json.validate (json.dump e) ≡ some e
  pub stripped : strip (json.dump e) ≡ json.dump e
  pub filled : is_empty (json.dump e) ≡ false

-- `file` is `none` without a path, and otherwise the lines of the file; a file that is not there has none.
pub record UsageLedger : Type 0 where
  pub ring : List UsageEvent
  pub ring_buffer_size : ℕ
  pub file : Option (List String)

-- A file that is there keeps its lines: it is only ever appended to.
abbrev pub init : Option (List String) → ℕ → UsageLedger
init file ring_buffer_size = record { ring = []; ring_buffer_size = ring_buffer_size; file = file }

-- The total of an event that has none is the sum of its parts.
unfoldable pub with_total : UsageEvent → UsageEvent
with_total e =
    if eqb e.total_tokens 0 && (leb 1 e.prompt_tokens || leb 1 e.completion_tokens)
    then record e { total_tokens = e.prompt_tokens + e.completion_tokens }
    else e

unfoldable pub recent : UsageLedger → ℤ → List UsageEvent
recent l limit = slice_from (neg limit) l.ring

abbrev pub total : (UsageEvent → ℕ) → List UsageEvent → ℕ
total f [] = 0
total f (e ∷ es) = f e + total f es

-- The average latency is the fraction of a sum and a number; of no latencies it is zero over zero.
pub record Summary : Type 0 where
  pub events_in_buffer : ℕ
  pub total_tokens : ℕ
  pub total_cost_usd : ℕ
  pub latency_sum : ℕ
  pub latency_number : ℕ

unfoldable pub summary : UsageLedger → Summary
summary l =
    let timed = keep (λ e. leb 1 e.latency_ms) l.ring in
    record {
      events_in_buffer = length l.ring;
      total_tokens = total (λ e. e.total_tokens) l.ring;
      total_cost_usd = total (λ e. e.cost_usd) l.ring;
      latency_sum = total (λ e. e.latency_ms) timed;
      latency_number = length timed;
    }

pub record Aggregate : Type 0 where
  pub events : ℕ
  pub tokens : ℕ
  pub cost_usd : ℕ

unfoldable pub aggregate : (UsageEvent → Bool) → UsageLedger → Aggregate
aggregate predicate l =
    let es = keep predicate l.ring in
    record {
      events = length es;
      tokens = total (λ e. e.total_tokens) es;
      cost_usd = total (λ e. e.cost_usd) es;
    }

abbrev pub is_text : String → Option String → Bool
is_text s none = false
is_text s (some t) = t == s

unfoldable pub by_session : UsageLedger → String → Aggregate
unfolding aggregate
by_session l session_id = aggregate (λ e. is_text session_id e.session_id) l

unfoldable pub by_agent : UsageLedger → String → Aggregate
unfolding aggregate
by_agent l agent_id = aggregate (λ e. is_text agent_id e.agent_id) l

unfoldable pub by_channel : UsageLedger → String → Aggregate
unfolding aggregate
by_channel l channel = aggregate (λ e. is_text channel e.channel) l

-- ev.model or "unknown"
abbrev pub model_key : Option String → String
model_key none = "unknown"
model_key (some m) = if is_empty m then "unknown" else m

abbrev pub no_usage : Aggregate
no_usage = record { events = 0; tokens = 0; cost_usd = 0 }

abbrev pub usage_of : Dict Aggregate → String → Aggregate
usage_of models key = elim (get models key) [ none ↦ no_usage | some a ↦ a ]

-- An event enters the row of its model.
unfoldable pub with_event : Dict Aggregate → UsageEvent → Dict Aggregate
with_event models e =
    let key = model_key e.model in
    let a = usage_of models key in
    put models key (record {
      events = suc a.events;
      tokens = a.tokens + e.total_tokens;
      cost_usd = a.cost_usd + e.cost_usd;
    })

abbrev pub breakdown : List UsageEvent → Dict Aggregate → Dict Aggregate
breakdown [] models = models
breakdown (e ∷ es) models = breakdown es (with_event models e)

unfoldable pub by_model_breakdown : UsageLedger → Dict Aggregate
unfolding with_event
by_model_breakdown l = breakdown l.ring []

module _ (json : EventJson) where
  open json use {dump, validate}

  -- `record`, where `writes` is whether the file takes the line: if it does not, the `OSError` is raised,
  -- which is the false of the result, with the event in the ring. A line that is torn in its middle
  -- is left out.
  unfoldable pub record_event : UsageLedger → UsageEvent → Bool → UsageLedger × Bool
  unfolding with_total
  record_event l event writes =
      let e = with_total event in
      let kept = record l { ring = push_bounded l.ring_buffer_size l.ring e } in
      elim l.file [
        | none ↦ (kept, true)
        | some lines ↦
            if writes
            then (record kept { file = some (lines ++ dump e ∷ []) }, true)
            else (kept, false)
      ]

  -- The event of a line; a line that is blank or does not parse is passed over.
  unfoldable pub parsed : String → Option UsageEvent
  parsed line = let text = strip line in if is_empty text then none else validate text

  -- The lines, with the events read so far; a limit of zero is no limit.
  unfoldable pub read_lines : List String → ℕ → List UsageEvent → List UsageEvent
  read_lines [] limit events = events
  read_lines (line ∷ lines) limit events = elim (parsed line) [
    | none ↦ read_lines lines limit events
    | some e ↦
        let events' = events ++ e ∷ [] in
        let rest = read_lines lines limit events' in
        if leb 1 limit && leb limit (length events') then events' else rest
  ]

  -- `replay`, with zero for no limit
  unfoldable pub replay : UsageLedger → ℕ → List UsageEvent
  unfolding read_lines parsed
  replay l limit = elim l.file [ none ↦ [] | some lines ↦ read_lines lines limit [] ]
