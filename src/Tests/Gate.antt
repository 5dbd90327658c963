-- ===== src/Tests/Gate.antt =====
-- Inputs for the approval gate.
use plugin_baselithbot.Common.{
  ℕ, ◌≤◌, ◌≡◌, refl, true, false, none, some, List, [], ◌∷◌, ◌++◌, arith,
}
use plugin_baselithbot.Lists.{take_last, contains, occurrences}
use plugin_baselithbot.Dict.{adjust, get, put, adjust}
use plugin_baselithbot.Control.Approvals.{
  denied, ApprovalRequest, is_pending, ApprovalGate, init, new_request, submit, on_timeout,
  resolved, resolve, subscribe, unsubscribe,
}
use plugin_baselithbot.Control.Approvals.Broadcast.{Listener, broadcast}
use plugin_baselithbot.Control.Approvals.Delivery.{DistinctQueues}
use plugin_baselithbot.Control.Approvals.Schedule.{
  World, approves, decided, Op, submits, resolves, wakes, times_out, start, step, run, status_of,
}
use plugin_baselithbot.Control.Approvals.Invariant.{IsValid, run-IsValid}
use plugin_baselithbot.Control.Approvals.Decisions.{
  run-keeps_decided, approves_id, is_approved, run-needs_approve,
}
use plugin_baselithbot.Control.Approvals.Liveness.{submit_returns}
use plugin_baselithbot.Control.Approvals.Returns.{late_timer_history}

-- Two requests; the first is approved, the timer of the second fires.
abbrev session : List (Op ℕ)
session =
    submits "r1" "shell" "run" 7 5000 100
    ∷ submits "r2" "mouse" "click" 8 5000 200
    ∷ resolves "r1" approves none 300
    ∷ wakes "r1"
    ∷ times_out "r2" 6000
    ∷ []

abbrev opened : ApprovalGate ℕ
opened = record {
  requests = ("r1", new_request "r1" "shell" "run" 7 5000 100) ∷ [];
  table = "r1" ∷ [];
  history = [];
  history_size = 10;
  listeners = [];
}

abbrev denied_request : ApprovalRequest ℕ
denied_request = resolved (new_request "r1" "shell" "run" 7 5000 100) denied none 300

abbrev decided_world : World ℕ
decided_world = record {
  gate = record opened { requests = ("r1", denied_request) ∷ []; table = []; history = "r1" ∷ [] };
  parked = "r1" ∷ [];
  returned = [];
}

session_returns : (run (start 10) session).returned ≡ "r1" ∷ "r2" ∷ []
unfolding run step init submit resolve on_timeout broadcast get put adjust contains take_last
    subscribe unsubscribe
session_returns = refl

run-needs_approve_example : is_approved (get (run (start 10) session).gate.requests "r2") ≡ false
unfolding approves_id
run-needs_approve_example = run-needs_approve 10 session "r2" refl

run-keeps_decided_example :
    get
      (run decided_world (resolves "r1" approves none 400 ∷ times_out "r1" 6000 ∷ [])).gate.requests
      "r1"
    ≡ some denied_request
unfolding get
run-keeps_decided_example =
    run-keeps_decided decided_world (resolves "r1" approves none 400 ∷ times_out "r1" 6000 ∷ [])
      "r1" denied_request refl refl

run-IsValid_example : IsValid (run (start 10) session)
run-IsValid_example = run-IsValid 10 session

late_timer_history_example :
    let g' = on_timeout (resolve opened "r1" (decided approves) none 300).0 "r1" 5100 in
    (status_of g' "r1" ≡ some (decided approves)) × (2 ≤ occurrences "r1" g'.history)
unfolding contains get
late_timer_history_example =
    late_timer_history opened "r1" approves none 300 5100 refl (omega arith)

abbrev queues : List (Listener ℕ)
queues =
    (record { queue = 1; messages = [] })
    ∷ (record { queue = 2; messages = (record { event_type = "old"; payload = 0 }) ∷ [] })
    ∷ []

queues-distinct : DistinctQueues queues
queues-distinct = omega arith

-- A third request in the session; its timer fires after that of another request.
submit_returns_example :
    let w = run (start 10) (
      session
      ++ submits "r3" "shell" "ls" 9 5000 7000 ∷ (times_out "r2" 7500 ∷ [])
      ++ times_out "r3" 12000 ∷ []) in
    (contains "r3" w.returned ≡ true)
    × (r : ApprovalRequest ℕ) × (get w.gate.requests "r3" ≡ some r)
    × (is_pending r.status ≡ false)
unfolding run step init submit resolve on_timeout broadcast get put adjust contains take_last
    subscribe unsubscribe
submit_returns_example =
    submit_returns 10 session (times_out "r2" 7500 ∷ []) "r3" "shell" "ls" 9 5000 7000 12000 refl
