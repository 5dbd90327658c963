-- ===== src/Control/Approvals/Decisions.antt =====
-- A decision is made once, by one call, and never changes.
use plugin_baselithbot.Common.{
  ℕ, String, ◌≡◌, refl, inl, inr, Bool, true, false, ◌||◌, Option, none, some, List, [], ◌∷◌, arith,
  ◌==◌, eq_iff, Bool-cases,
}
--USE Lists
use plugin_baselithbot.Dict.{get, get-put, get-adjust}
use plugin_baselithbot.Control.Approvals.{
  ApprovalStatus, approved, denied, ApprovalRequest, is_pending, ApprovalGate, init, new_request,
  expired, on_timeout, resolved, resolve, subscribe, unsubscribe,
}
use plugin_baselithbot.Control.Approvals.Effects.{
  submit-effect, on_timeout-effect, is_open, open-request, resolve-effect, resolve-miss,
}
use plugin_baselithbot.Control.Approvals.Schedule.{
  World, approves, denies, decided, Op, submits, resolves, wakes, times_out, subscribes,
  unsubscribes, start, step, run,
}

module _ {P : Type 0} where
  -- What a step makes of the request of an id that is there.
  abbrev pub Keeps : World P → Op P → String → ApprovalRequest P → Type 0
  Keeps w op id r = get (step w op).gate.requests id ≡ some r

  resolve-keeps :
      (g : ApprovalGate P) (j : String) (st : ApprovalStatus) (reason : Option String) (now : ℕ)
      (id : String) (r : ApprovalRequest P)
      → get g.requests id ≡ some r
      → is_pending r.status ≡ false
      → get (resolve g j st reason now).0.requests id ≡ some r
  resolve-keeps g j st reason now id r e p = elim (Bool-cases (is_open g j)) [
    | inl o ↦ ground (
      arith,
      resolve-effect g j st reason now o,
      open-request g j o,
      get-adjust g.requests j id (λ x. resolved x st reason now),
      eq_iff j id,
    )
    | inr o ↦ rw (resolve-miss g j st reason now o) e
  ]

  on_timeout-keeps :
      (g : ApprovalGate P) (j : String) (now : ℕ) (id : String) (r : ApprovalRequest P)
      → get g.requests id ≡ some r
      → is_pending r.status ≡ false
      → get (on_timeout g j now).requests id ≡ some r
  on_timeout-keeps g j now id r e p =
      ground (arith, on_timeout-effect g j now, get-adjust g.requests j id (λ x. expired x now))

  step-Keeps :
      (w : World P) (op : Op P) (id : String) (r : ApprovalRequest P)
      → get w.gate.requests id ≡ some r
      → is_pending r.status ≡ false
      → Keeps w op id r
  unfolding step subscribe unsubscribe
  step-Keeps w (submits j capability action params timeout now) id r e p = ground (
    arith,
    submit-effect w.gate j capability action params timeout now,
    get-put w.gate.requests j id (new_request j capability action params timeout now),
    eq_iff j id,
  )
  step-Keeps w (resolves j d reason now) id r e p =
      resolve-keeps w.gate j (decided d) reason now id r e p
  step-Keeps w (wakes j) id r e p = ground arith
  step-Keeps w (times_out j now) id r e p = ground (arith, on_timeout-keeps w.gate j now id r e p)
  step-Keeps w (subscribes queue) id r e p = e
  step-Keeps w (unsubscribes queue) id r e p = e

  -- Once a request is approved, denied or timed out, no steps of the event loop change anything of
  -- it: its status, its reason and the time of its resolution stay.
  pub run-keeps_decided :
      (w : World P) (ops : List (Op P)) (id : String) (r : ApprovalRequest P)
      → get w.gate.requests id ≡ some r
      → is_pending r.status ≡ false
      → get (run w ops).gate.requests id ≡ some r
  unfolding run
  run-keeps_decided w [] id r e p = e
  run-keeps_decided w (op ∷ ops) id r e p =
      run-keeps_decided (step w op) ops id r (step-Keeps w op id r e p) p

  -- Whether the steps hold a call of `approve` for the id.
  unfoldable pub approves_id : String → List (Op P) → Bool
  approves_id id [] = false
  approves_id id (resolves j approves reason now ∷ ops) = j == id || approves_id id ops
  approves_id id (op ∷ ops) = approves_id id ops

  abbrev pub is_approved : Option (ApprovalRequest P) → Bool
  is_approved none = false
  is_approved (some r) = elim r.status [ approved ↦ true | _ ↦ false ]

  step-unapproved :
      (w : World P) (op : Op P) (id : String)
      → approves_id id (op ∷ []) ≡ false
      → is_approved (get w.gate.requests id) ≡ false
      → is_approved (get (step w op).gate.requests id) ≡ false
  unfolding step subscribe unsubscribe approves_id
  step-unapproved w (submits j capability action params timeout now) id n a = ground (
    arith,
    submit-effect w.gate j capability action params timeout now,
    get-put w.gate.requests j id (new_request j capability action params timeout now),
  )
  step-unapproved w (resolves j approves reason now) id n a = elim (Bool-cases (is_open w.gate j)) [
    | inl o ↦ ground (
      arith,
      resolve-effect w.gate j approved reason now o,
      get-adjust w.gate.requests j id (λ x. resolved x approved reason now),
    )
    | inr o ↦ rw (resolve-miss w.gate j approved reason now o) a
  ]
  step-unapproved w (resolves j denies reason now) id n a = elim (Bool-cases (is_open w.gate j)) [
    | inl o ↦ ground (
      arith,
      resolve-effect w.gate j denied reason now o,
      get-adjust w.gate.requests j id (λ x. resolved x denied reason now),
    )
    | inr o ↦ rw (resolve-miss w.gate j denied reason now o) a
  ]
  step-unapproved w (wakes j) id n a = ground arith
  step-unapproved w (times_out j now) id n a =
      ground (
        arith,
        on_timeout-effect w.gate j now,
        get-adjust w.gate.requests j id (λ x. expired x now),
      )
  step-unapproved w (subscribes queue) id n a = a
  step-unapproved w (unsubscribes queue) id n a = a

  approves_id-cons :
      (id : String) (op : Op P) (ops : List (Op P))
      → approves_id id (op ∷ ops) ≡ (approves_id id (op ∷ []) || approves_id id ops)
  unfolding approves_id
  approves_id-cons id (resolves j approves reason now) ops = ground arith
  approves_id-cons id (resolves j denies reason now) ops = refl
  approves_id-cons id op ops = refl

  run-unapproved :
      (w : World P) (ops : List (Op P)) (id : String)
      → approves_id id ops ≡ false
      → is_approved (get w.gate.requests id) ≡ false
      → is_approved (get (run w ops).gate.requests id) ≡ false
  unfolding run
  run-unapproved w [] id n a = a
  run-unapproved w (op ∷ ops) id n a =
      run-unapproved (step w op) ops id (ground (arith, approves_id-cons id op ops))
        (step-unapproved w op id (ground (arith, approves_id-cons id op ops)) a)

  -- After any steps from a new gate, if no step was a call of `approve` for an id, then the request
  -- of that id is not approved: timeouts, denials and wake-ups never approve.
  pub run-needs_approve :
      (history_size : ℕ) (ops : List (Op P)) (id : String)
      → approves_id id ops ≡ false
      → is_approved (get (run (start history_size) ops).gate.requests id) ≡ false
  run-needs_approve history_size ops id n =
      run-unapproved (start history_size) ops id n (unfold init get in refl)
