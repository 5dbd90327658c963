-- ===== src/Control/Approvals/Liveness.antt =====
-- A call of `ApprovalGate.submit` does not wait for ever: its timer ends it.
use plugin_baselithbot.Common.{
  ℕ, Bool, String, ◌≡◌, true, false, ◌||◌, List, [], ◌∷◌, ◌++◌, arith, eq_iff, eq_refl, refl,
  is_some, some,
}
use plugin_baselithbot.Lists.{contains}
use plugin_baselithbot.Dict.{get}
use plugin_baselithbot.Control.Approvals.{ApprovalRequest, ApprovalGate, is_pending, on_timeout}
use plugin_baselithbot.Control.Approvals.Effects.{contains-drop_key, contains-append}
use plugin_baselithbot.Control.Approvals.Schedule.{
  World, Op, submits, resolves, wakes, times_out, subscribes, unsubscribes, start, return_to, step,
  run,
}
use plugin_baselithbot.Control.Approvals.Returns.{returned-IsFinal}

module _ {P : Type 0} where
  -- The call of `submit` for the id waits, or it has returned.
  abbrev called : World P → String → Bool
  called w id = contains id w.parked || contains id w.returned

  return_to-called :
      (w : World P) (j id : String) (g : ApprovalGate P)
      → called w id ≡ true
      → called (return_to w j g) id ≡ true
  unfolding return_to contains
  return_to-called w j id g h =
      ground (
        arith,
        contains-drop_key j id w.parked,
        contains-append id w.returned (j ∷ []),
        eq_iff j id,
      )

  step-called :
      (w : World P) (op : Op P) (id : String) → called w id ≡ true → called (step w op) id ≡ true
  unfolding step
  step-called w (submits j capability action params timeout now) id h =
      ground (arith, contains-append id w.parked (j ∷ []))
  step-called w (resolves j d reason now) id h = h
  step-called w (wakes j) id h = ground (arith, return_to-called w j id w.gate h)
  step-called w (times_out j now) id h =
      ground (arith, return_to-called w j id (on_timeout w.gate j now) h)
  step-called w (subscribes queue) id h = h
  step-called w (unsubscribes queue) id h = h

  run-called :
      (w : World P) (ops : List (Op P)) (id : String)
      → called w id ≡ true
      → called (run w ops) id ≡ true
  unfolding run
  run-called w [] id h = h
  run-called w (op ∷ ops) id h = run-called (step w op) ops id (step-called w op id h)

  run-append : (w : World P) (xs ys : List (Op P)) → run w (xs ++ ys) ≡ run (run w xs) ys
  unfolding run
  run-append w [] ys = refl
  run-append w (x ∷ xs) ys = run-append (step w x) xs ys

  run_around :
      (w : World P) (xs ys : List (Op P)) (op last : Op P)
      → run w (xs ++ op ∷ ys ++ last ∷ []) ≡ step (run (step (run w xs) op) ys) last
  unfolding run
  run_around w xs ys op last =
      rw (run-append w (xs ++ op ∷ ys) (last ∷ []), run-append w xs (op ∷ ys))

  submits-called :
      (w : World P) (id capability action : String) (params : P) (timeout now : ℕ)
      → is_some (get w.gate.requests id) ≡ false
      → called (step w (submits id capability action params timeout now)) id ≡ true
  unfolding step contains
  submits-called w id capability action params timeout now fresh =
      ground (arith, fresh, contains-append id w.parked (id ∷ []), eq_refl id)

  times_out_returns :
      (w : World P) (id : String) (now : ℕ)
      → called w id ≡ true
      → contains id (step w (times_out id now)).returned ≡ true
  unfolding step return_to contains
  times_out_returns w id now h =
      ground (arith, h, contains-append id w.returned (id ∷ []), eq_refl id)

  -- After any steps from a new gate, a call of `submit` with a fresh id and any further steps, decisions
  -- and timers of any requests among them, the firing of the call's own timer leaves the call
  -- returned, with a request whose status is final: approved, denied or timed out.
  pub submit_returns :
      (history_size : ℕ) (before after : List (Op P)) (id capability action : String) (params : P)
      (timeout now later : ℕ)
      → is_some (get (run (start history_size) before).gate.requests id) ≡ false
      → let w = run (start history_size) (
          before
          ++ submits id capability action params timeout now ∷ after
          ++ times_out id later ∷ []) in
        (contains id w.returned ≡ true)
        × (r : ApprovalRequest P) × (get w.gate.requests id ≡ some r)
        × (is_pending r.status ≡ false)
  submit_returns history_size before after id capability action params timeout now later fresh =
      let w₀ : World P = run (start history_size) before in
      let begin : Op P = submits id capability action params timeout now in
      let fire : Op P = times_out id later in
      let waits =
        run-called (step w₀ begin) after id
          (submits-called w₀ id capability action params timeout now fresh) in
      let w : World P = run (start history_size) (before ++ begin ∷ after ++ fire ∷ []) in
      let back : contains id w.returned ≡ true =
        rw (run_around (start history_size) before after begin fire)
          (times_out_returns (run (step w₀ begin) after) id later waits) in
      let (r, here, final) =
        returned-IsFinal history_size (before ++ begin ∷ after ++ fire ∷ []) id back in
      (back, r, here, final)
