-- ===== src/Control/Approvals/Schedule.antt =====
-- The event loop over the gate: the submitters that are parked on their wait, and the steps that the
-- loop may take in any order. A parked submitter wakes when its event is set, and its timer may raise
-- `TimeoutError` at any time while it is parked, also after a decision that it has not yet seen.
use plugin_baselithbot.Common.{
  ℕ, String, Bool, false, ◌&&◌, Option, none, some, List, [], ◌∷◌, ◌++◌, if◌then◌else◌, is_some,
}
use plugin_baselithbot.Lists.{contains}
use plugin_baselithbot.Dict.{get}
use plugin_baselithbot.Control.Approvals.{
  ApprovalStatus, approved, denied, ApprovalGate, drop_key, init, submit, on_timeout, resolve,
  subscribe, unsubscribe,
}

pub record World (P : Type 0) : Type 0 where
  pub gate : ApprovalGate P
  pub parked : List String
  pub returned : List String

pub data Decision : Type 0 where
  approves denies : Decision

abbrev pub decided : Decision → ApprovalStatus
decided approves = approved
decided denies = denied

pub data Op (P : Type 0) : Type 0 where
  submits : String → String → String → P → ℕ → ℕ → Op P
  resolves : String → Decision → Option String → ℕ → Op P
  wakes : String → Op P
  times_out : String → ℕ → Op P
  subscribes unsubscribes : ℕ → Op P

module _ {P : Type 0} where
  abbrev pub start : ℕ → World P
  start history_size = record { gate = init history_size; parked = []; returned = [] }

  abbrev pub is_set : ApprovalGate P → String → Bool
  is_set g id = elim (get g.requests id) [ none ↦ false | some r ↦ r.event_set ]

  -- The submitter's coroutine ends: the call of `submit` returns its request.
  unfoldable pub return_to : World P → String → ApprovalGate P → World P
  return_to w id g = record {
    gate = g;
    parked = drop_key id w.parked;
    returned = w.returned ++ id ∷ [];
  }

  -- A step that the loop cannot take changes nothing: ids are fresh (`uuid4`), only a parked
  -- submitter wakes or times out, and it wakes only when its event is set.
  unfoldable pub step : World P → Op P → World P
  unfolding return_to
  step w (submits id capability action params timeout now) =
      if is_some (get w.gate.requests id) then w else record w {
        gate = submit w.gate id capability action params timeout now;
        parked = w.parked ++ id ∷ [];
      }
  step w (resolves id d reason now) = record w {
    gate = (resolve w.gate id (decided d) reason now).0;
  }
  step w (wakes id) = if contains id w.parked && is_set w.gate id then return_to w id w.gate else w
  step w (times_out id now) =
      if contains id w.parked then return_to w id (on_timeout w.gate id now) else w
  step w (subscribes queue) = record w { gate = subscribe w.gate queue }
  step w (unsubscribes queue) = record w { gate = unsubscribe w.gate queue }

  unfoldable pub run : World P → List (Op P) → World P
  run w [] = w
  run w (op ∷ ops) = run (step w op) ops

  abbrev pub status_of : ApprovalGate P → String → Option ApprovalStatus
  status_of g id = elim (get g.requests id) [ none ↦ none | some r ↦ some r.status ]
