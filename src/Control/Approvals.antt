-- ===== src/Control/Approvals.antt =====
-- control/approvals.py: the human-in-the-loop gate. Requests are shared objects: the submitter, the
-- table of pending requests and the history hold references, here the request's id, into one store.
pub mod Broadcast
pub mod Effects
pub mod Delivery
pub mod Sound
pub mod Schedule
pub mod Invariant
pub mod Decisions
pub mod Returns
pub mod Liveness
use plugin_baselithbot.Common.{
  ℕ, ◌+◌, max, String, Bool, true, false, Option, none, some, List, [], ◌∷◌, ◌++◌, ◌==◌, ltb,
  if◌then◌else◌, map,
}
use plugin_baselithbot.Clock.{second}
use plugin_baselithbot.Lists.{length, take_last, contains}
use plugin_baselithbot.Dict.{Dict, get, put, adjust}
use plugin_baselithbot.Control.Approvals.Broadcast.{Listener, remove_listener, broadcast}

pub data ApprovalStatus : Type 0 where
  pending approved denied timed_out : ApprovalStatus

-- `event_set` is the state of the `asyncio.Event` that the submitter waits for.
pub record ApprovalRequest (P : Type 0) : Type 0 where
  pub id : String
  pub capability : String
  pub action : String
  pub params : P
  pub submitted_at : ℕ
  pub timeout_seconds : ℕ
  pub status : ApprovalStatus
  pub resolved_at : Option ℕ
  pub reason : Option String
  pub event_set : Bool

abbrev pub is_pending : ApprovalStatus → Bool
is_pending pending = true
is_pending _ = false

-- What the dashboard is shown of a request.
pub record Snapshot (P : Type 0) : Type 0 where
  pub id : String
  pub capability : String
  pub action : String
  pub params : P
  pub submitted_at : ℕ
  pub timeout_seconds : ℕ
  pub status : ApprovalStatus
  pub resolved_at : Option ℕ
  pub reason : Option String
  pub expires_at : ℕ

-- `table` keeps the keys of `_pending`, whose values are the requests of those ids.
pub record ApprovalGate (P : Type 0) : Type 0 where
  pub requests : Dict (ApprovalRequest P)
  pub table : List String
  pub history : List String
  pub history_size : ℕ
  pub listeners : List (Listener (Snapshot P))

-- self._pending.pop(id, None)
unfoldable pub drop_key : String → List String → List String
drop_key id [] = []
drop_key id (k ∷ ks) = if k == id then drop_key id ks else k ∷ drop_key id ks

-- self._pending[id] = ...
unfoldable pub add_key : String → List String → List String
unfolding contains
add_key id ks = if contains id ks then ks else ks ++ id ∷ []

module _ {P : Type 0} where
  abbrev pub snapshot : ApprovalRequest P → Snapshot P
  snapshot r = record {
    id = r.id;
    capability = r.capability;
    action = r.action;
    params = r.params;
    submitted_at = r.submitted_at;
    timeout_seconds = r.timeout_seconds;
    status = r.status;
    resolved_at = r.resolved_at;
    reason = r.reason;
    expires_at = r.submitted_at + r.timeout_seconds;
  }

  unfoldable pub init : ℕ → ApprovalGate P
  init history_size = record {
    requests = [];
    table = [];
    history = [];
    history_size = max 10 history_size;
    listeners = [];
  }

  unfoldable pub move_to_history : ApprovalGate P → String → ApprovalGate P
  unfolding drop_key
  move_to_history g id =
      let history = g.history ++ id ∷ [] in
      record g {
        table = drop_key id g.table;
        history =
            if ltb g.history_size (length history)
            then take_last g.history_size history
            else history;
      }

  unfoldable pub announce : ApprovalGate P → String → String → ApprovalGate P
  announce g event_type id = elim (get g.requests id) [
    | none ↦ g
    | some r ↦ record g { listeners = broadcast g.listeners event_type (snapshot r) }
  ]

  abbrev pub new_request : String → String → String → P → ℕ → ℕ → ApprovalRequest P
  new_request id capability action params timeout_seconds now = record {
    id = id;
    capability = capability;
    action = action;
    params = params;
    submitted_at = now;
    timeout_seconds = max second timeout_seconds;
    status = pending;
    resolved_at = none;
    reason = none;
    event_set = false;
  }

  -- The first part of `submit`, up to the wait; `id` is what `uuid.uuid4().hex` returns.
  unfoldable pub submit : ApprovalGate P → String → String → String → P → ℕ → ℕ → ApprovalGate P
  unfolding announce add_key
  submit g id capability action params timeout_seconds now =
      let r = new_request id capability action params timeout_seconds now in
      announce (record g { requests = put g.requests id r; table = add_key id g.table })
        "approval.pending" id

  abbrev pub expired : ApprovalRequest P → ℕ → ApprovalRequest P
  expired r now =
      if is_pending r.status
      then record r { status = timed_out; resolved_at = some now; reason = some "timeout" }
      else r

  -- The handler of `TimeoutError` in `submit`.
  unfoldable pub on_timeout : ApprovalGate P → String → ℕ → ApprovalGate P
  unfolding move_to_history announce
  on_timeout g id now =
      announce
        (move_to_history (record g { requests = adjust g.requests id (λ r. expired r now) }) id)
        "approval.resolved" id

  abbrev pub resolved : ApprovalRequest P → ApprovalStatus → Option String → ℕ → ApprovalRequest P
  resolved r status reason now = record r {
    status = status;
    resolved_at = some now;
    reason = reason;
    event_set = true;
  }

  unfoldable pub resolve_found :
      ApprovalGate P
      → ApprovalRequest P
      → String
      → ApprovalStatus
      → Option String
      → ℕ
      → ApprovalGate P × Bool
  unfolding move_to_history announce
  resolve_found g r id status reason now =
      let requests = adjust g.requests id (λ x. resolved x status reason now) in
      if is_pending r.status
      then (
        announce (move_to_history (record g { requests = requests }) id) "approval.resolved" id,
        true,
      )
      else (g, false)

  -- self._pending.get(id)
  abbrev pub pending_request : ApprovalGate P → String → Option (ApprovalRequest P)
  pending_request g id = if contains id g.table then get g.requests id else none

  unfoldable pub resolve :
      ApprovalGate P → String → ApprovalStatus → Option String → ℕ → ApprovalGate P × Bool
  unfolding resolve_found contains
  resolve g id status reason now = elim (pending_request g id) [
    | none ↦ (g, false)
    | some r ↦ resolve_found g r id status reason now
  ]

  abbrev pub approve : ApprovalGate P → String → Option String → ℕ → ApprovalGate P × Bool
  approve g id reason now = resolve g id approved reason now

  abbrev pub deny : ApprovalGate P → String → Option String → ℕ → ApprovalGate P × Bool
  deny g id reason now = resolve g id denied reason now

  unfoldable pub subscribe : ApprovalGate P → ℕ → ApprovalGate P
  subscribe g queue = record g {
    listeners = g.listeners ++ (record { queue = queue; messages = [] }) ∷ [];
  }

  unfoldable pub unsubscribe : ApprovalGate P → ℕ → ApprovalGate P
  unsubscribe g queue = record g { listeners = remove_listener g.listeners queue }

  unfoldable pub lookup_all : Dict (ApprovalRequest P) → List String → List (ApprovalRequest P)
  lookup_all requests [] = []
  lookup_all requests (id ∷ ids) = elim (get requests id) [
    | none ↦ lookup_all requests ids
    | some r ↦ r ∷ lookup_all requests ids
  ]

  unfoldable pub pending_list : ApprovalGate P → List (ApprovalRequest P)
  unfolding lookup_all
  pending_list g = lookup_all g.requests g.table

  -- The pending requests and the last fifty of the history, for the dashboard.
  unfoldable pub snapshot_view : ApprovalGate P → List (Snapshot P) × List (Snapshot P)
  unfolding lookup_all
  snapshot_view g = (
    map snapshot (lookup_all g.requests g.table),
    map snapshot (lookup_all g.requests (take_last 50 g.history)),
  )
