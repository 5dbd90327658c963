-- ===== src/Tests/Ledger.antt =====
-- Inputs for the ledger of usage.
use plugin_baselithbot.Text.{strip}
use plugin_baselithbot.Lists.{take_last}
use plugin_baselithbot.Observability.Usage.{
  UsageEvent, EventJson, IsReadable, UsageLedger, init, with_total, replay,
}
use plugin_baselithbot.Observability.Usage.Replay.{recorded, written, record_all, replay-record_all}
use plugin_baselithbot.Common.{
  ℕ, ◌≡◌, refl, String, Bool, true, false, Option, none, some, List, [], ◌∷◌, ◌++◌,
}

abbrev call_of : Option String → ℕ → UsageEvent
call_of model tokens = record {
  ts = 1;
  session_id = none;
  agent_id = none;
  channel = none;
  model = model;
  prompt_tokens = tokens;
  completion_tokens = 2;
  total_tokens = 0;
  cost_usd = 10;
  latency_ms = 0;
}

abbrev big : UsageEvent
big = with_total (call_of (some "m") 8)

-- A text format of one event.
abbrev one_line : EventJson
one_line = record {
  dump = λ e. "{1}";
  validate = λ line. some (record (call_of (some "m") 8) { total_tokens = 10 });
}

abbrev readable : IsReadable one_line big
unfolding strip with_total
readable = record { validated = refl; stripped = refl; filled = refl }

-- The file takes the first of two lines, behind one that it holds.
abbrev calls : List (UsageEvent × Bool)
calls = (call_of (some "m") 8, true) ∷ (call_of (some "m") 8, false) ∷ []

replay-record_all_example :
    let new = init (some ("{0}" ∷ [])) 1 in
    let l = record_all one_line new calls in
    (replay one_line l 0 ≡ replay one_line new 0 ++ written calls)
    × (l.ring ≡ take_last 1 (recorded calls))
replay-record_all_example = replay-record_all one_line ("{0}" ∷ []) 1 calls (readable, tt)

abbrev three_calls : UsageLedger
three_calls = record { ring = big ∷ call_of none 0 ∷ big ∷ []; ring_buffer_size = 10; file = none }
