-- ===== src/Control/Approvals/Returns.antt =====
-- What the callers of the gate are told.
use plugin_baselithbot.Common.{
  ℕ, String, ◌≡◌, inl, inr, true, false, Option, some, List, arith, Option-cases, ◌≤◌, eq_refl,
  refl,
}
use plugin_baselithbot.Lists.{contains, occurrences, occurrences-take_last_twice}
use plugin_baselithbot.Dict.{get, get-adjust}
use plugin_baselithbot.Control.Approvals.{
  ApprovalRequest, is_pending, ApprovalGate, resolve, timed_out, expired, on_timeout, resolved,
}
use plugin_baselithbot.Control.Approvals.Effects.{
  is_open, resolve-miss, contains-drop_key, on_timeout-effect, open-request, resolve-effect,
}
use plugin_baselithbot.Control.Approvals.Schedule.{
  World, Decision, decided, Op, start, is_set, run, status_of, approves, denies,
}
use plugin_baselithbot.Control.Approvals.Invariant.{run-IsValid}

decided-final : (d : Decision) → is_pending (decided d) ≡ false
decided-final approves = refl
decided-final denies = refl

module _ {P : Type 0} where
  -- After any steps from a new gate, a call of `submit` that has returned hands back a request with
  -- a final status: approved, denied or timed out, never pending.
  pub returned-IsFinal :
      (history_size : ℕ) (ops : List (Op P)) (id : String)
      → let w = run (start history_size) ops in
        contains id w.returned ≡ true
        → (r : ApprovalRequest P) × (get w.gate.requests id ≡ some r)
          × (is_pending r.status ≡ false)
  returned-IsFinal history_size ops id h =
      let w : World P = run (start history_size) ops in
      let s = (run-IsValid history_size ops).sound id in
      elim (Option-cases (get w.gate.requests id)) [
        | inl e ↦ absurd (ground arith)
        | inr (r, e) ↦ (r, e, ground arith)
      ]

  -- If the id is in the table with a pending request, then `approve` or `deny` succeeds: it sets the
  -- status and the event, takes the id out of the table, and any later call of either for that id
  -- fails and changes nothing.
  pub resolve_once :
      (g : ApprovalGate P) (id : String) (d e : Decision) (reason reason' : Option String)
      (now later : ℕ)
      → is_open g id ≡ true
      → let (g', found) = resolve g id (decided d) reason now in
        (found ≡ true)
        × (is_set g' id ≡ true)
        × (status_of g' id ≡ some (decided d))
        × (contains id g'.table ≡ false)
        × (resolve g' id (decided e) reason' later ≡ (g', false))
  resolve_once g id d e reason reason' now later o =
      let (requests, table, _, _, found) = resolve-effect g id (decided d) reason now o in
      let (r, _, here, _, _) = open-request g id o in
      let gone : contains id (resolve g id (decided d) reason now).0.table ≡ false =
        rw (table, contains-drop_key id id g.table, eq_refl id) in
      let stored : get (resolve g id (decided d) reason now).0.requests id
          ≡ some (resolved r (decided d) reason now) =
        rw (
          requests,
          get-adjust g.requests id id (λ x. resolved x (decided d) reason now),
          eq_refl id,
          here,
        ) in
      (
        found,
        ground (arith, stored),
        ground (arith, stored),
        gone,
        resolve-miss (resolve g id (decided d) reason now).0 id (decided e) reason' later
            (ground (arith, gone)),
      )

  -- If the timer of a submitter fires while its request is pending, the request is refused: its status
  -- is timed out with the reason "timeout", it leaves the table, and any later call of `approve` or
  -- `deny` for it fails and changes nothing.
  pub timeout_refuses :
      (g : ApprovalGate P) (id : String) (d : Decision) (reason : Option String) (now later : ℕ)
      → is_open g id ≡ true
      → let g' = on_timeout g id now in
        (status_of g' id ≡ some timed_out)
        × (contains id g'.table ≡ false)
        × (resolve g' id (decided d) reason later ≡ (g', false))
  timeout_refuses g id d reason now later o =
      let (requests, table, _, _) = on_timeout-effect g id now in
      let (r, _, here, p, _) = open-request g id o in
      let gone : contains id (on_timeout g id now).table ≡ false =
        rw (table, contains-drop_key id id g.table, eq_refl id) in
      (
        ground (
          arith,
          requests,
          get-adjust g.requests id id (λ x. expired x now),
          eq_refl id,
          here,
          p,
        ),
        gone,
        resolve-miss (on_timeout g id now) id (decided d) reason later (ground (arith, gone)),
      )

  -- In a gate with room for two in its history, a timer that fires before the submitter has seen the
  -- decision of `approve` or `deny` keeps that decision, but enters the request in the history a
  -- second time.
  pub late_timer_history :
      (g : ApprovalGate P) (id : String) (d : Decision) (reason : Option String) (now later : ℕ)
      → is_open g id ≡ true
      → 2 ≤ g.history_size
      → let g' = on_timeout (resolve g id (decided d) reason now).0 id later in
        (status_of g' id ≡ some (decided d)) × (2 ≤ occurrences id g'.history)
  late_timer_history g id d reason now later o room =
      let g₁ = (resolve g id (decided d) reason now).0 in
      let (requests, table, history, size, _) = resolve-effect g id (decided d) reason now o in
      let (requests₂, _, history₂, _) = on_timeout-effect g₁ id later in
      let (r, _, here, _, _) = open-request g id o in
      (
        ground (
          arith,
          requests₂,
          requests,
          get-adjust g₁.requests id id (λ x. expired x later),
          get-adjust g.requests id id (λ x. resolved x (decided d) reason now),
          eq_refl id,
          here,
          decided-final d,
        ),
        rw (history₂, size, history) (occurrences-take_last_twice g.history_size id g.history room),
      )
