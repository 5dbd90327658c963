-- ===== src/Control/Approvals/Invariant.antt =====
-- What holds of the gate and of the parked submitters after any steps of the event loop.
use plugin_baselithbot.Common.{
  ℕ, ◌≤◌, String, refl, inl, inr, ◌&&◌, Option, List, [], ◌∷◌, ◌++◌, arith, eq_refl, Bool-cases,
  Option-cases,
}
use plugin_baselithbot.Lists.{length, length-take_last-le, contains}
use plugin_baselithbot.Dict.{get, get-adjust}
use plugin_baselithbot.Control.Approvals.{
  ApprovalGate, init, submit, expired, on_timeout, resolve, subscribe, unsubscribe,
}
use plugin_baselithbot.Control.Approvals.Effects.{
  contains-drop_key, submit-effect, on_timeout-effect, is_open, resolve-effect, resolve-miss,
}
use plugin_baselithbot.Control.Approvals.Schedule.{
  World, Decision, decided, Op, submits, resolves, wakes, times_out, subscribes, unsubscribes,
  start, is_set, step, run,
}
use plugin_baselithbot.Control.Approvals.Sound.{
  SoundAt, submit-Sound, resolve-Sound, return-Sound, on_timeout-Sound,
}

pub record IsValid {P : Type 0} (w : World P) : Type 0 where
  pub sound : (id : String) → SoundAt w.gate w.parked w.returned id
  pub bounded : length w.gate.history ≤ w.gate.history_size
  pub roomy : 10 ≤ w.gate.history_size

module _ {P : Type 0} where
  -- The bound of the history, and the configured size that no operation changes.
  abbrev HasBounds : ApprovalGate P → Type 0
  HasBounds g = (length g.history ≤ g.history_size) × (10 ≤ g.history_size)

  submit-HasBounds :
      (g : ApprovalGate P) (id capability action : String) (params : P) (timeout now : ℕ)
      → HasBounds g
      → HasBounds (submit g id capability action params timeout now)
  submit-HasBounds g id capability action params timeout now h =
      ground (arith, submit-effect g id capability action params timeout now)

  on_timeout-HasBounds :
      (g : ApprovalGate P) (id : String) (now : ℕ) → HasBounds g → HasBounds (on_timeout g id now)
  on_timeout-HasBounds g id now h =
      ground (
        arith,
        on_timeout-effect g id now,
        length-take_last-le g.history_size (g.history ++ id ∷ []),
      )

  resolve-HasBounds :
      (g : ApprovalGate P) (id : String) (d : Decision) (reason : Option String) (now : ℕ)
      → HasBounds g
      → HasBounds (resolve g id (decided d) reason now).0
  resolve-HasBounds g id d reason now h = elim (Bool-cases (is_open g id)) [
    | inl o ↦ ground (
      arith,
      resolve-effect g id (decided d) reason now o,
      length-take_last-le g.history_size (g.history ++ id ∷ []),
    )
    | inr o ↦ rw (resolve-miss g id (decided d) reason now o) h
  ]

  wake-IsValid : (w : World P) (id : String) → IsValid w → IsValid (step w (wakes id))
  unfolding step
  wake-IsValid w id v = elim (Bool-cases (contains id w.parked && is_set w.gate id)) [
    | inl e ↦
        let s = v.sound id in
        rw e (record {
          sound = λ j.
              return-Sound w.gate w.parked w.returned id (ground arith) (ground arith) j
                (v.sound j);
          bounded = v.bounded;
          roomy = v.roomy;
        })
    | inr e ↦ rw e v
  ]

  timeout-IsValid :
      (w : World P) (id : String) (now : ℕ) → IsValid w → IsValid (step w (times_out id now))
  unfolding step
  timeout-IsValid w id now v = elim (Bool-cases (contains id w.parked)) [
    | inl e ↦
        let s = v.sound id in
        let (requests, table, _, _) = on_timeout-effect w.gate id now in
        let b = on_timeout-HasBounds w.gate id now (v.bounded, v.roomy) in
        rw e (record {
          sound = λ j.
              return-Sound (on_timeout w.gate id now) w.parked w.returned id
                (ground (arith, get-adjust w.gate.requests id id (λ r. expired r now), eq_refl id))
                (ground (arith, contains-drop_key id id w.gate.table, eq_refl id)) j
                (on_timeout-Sound w.gate w.parked w.returned id now j (v.sound j));
          bounded = b.0;
          roomy = b.1;
        })
    | inr e ↦ rw e v
  ]

  submits-IsValid :
      (w : World P) (id capability action : String) (params : P) (timeout now : ℕ)
      → IsValid w
      → IsValid (step w (submits id capability action params timeout now))
  unfolding step
  submits-IsValid w id capability action params timeout now v =
      elim (Option-cases (get w.gate.requests id)) [
        | inl e ↦
            let b =
              submit-HasBounds w.gate id capability action params timeout now
                (v.bounded, v.roomy) in
            rw e (record {
              sound = λ j.
                  submit-Sound w.gate w.parked w.returned id capability action params timeout now e
                    j (v.sound j);
              bounded = b.0;
              roomy = b.1;
            })
        | inr (r, e) ↦ rw e v
      ]

  pub step-IsValid : (w : World P) (op : Op P) → IsValid w → IsValid (step w op)
  unfolding step subscribe unsubscribe
  step-IsValid w (submits id capability action params timeout now) v =
      submits-IsValid w id capability action params timeout now v
  step-IsValid w (resolves id d reason now) v =
      let b = resolve-HasBounds w.gate id d reason now (v.bounded, v.roomy) in
      record {
        sound = λ j. resolve-Sound w.gate w.parked w.returned id d reason now j (v.sound j);
        bounded = b.0;
        roomy = b.1;
      }
  step-IsValid w (wakes id) v = wake-IsValid w id v
  step-IsValid w (times_out id now) v = timeout-IsValid w id now v
  step-IsValid w (subscribes queue) v = record {
    sound = v.sound;
    bounded = v.bounded;
    roomy = v.roomy;
  }
  step-IsValid w (unsubscribes queue) v = record {
    sound = v.sound;
    bounded = v.bounded;
    roomy = v.roomy;
  }

  pub run-IsValid_from : (w : World P) (ops : List (Op P)) → IsValid w → IsValid (run w ops)
  unfolding run
  run-IsValid_from w [] v = v
  run-IsValid_from w (op ∷ ops) v = run-IsValid_from (step w op) ops (step-IsValid w op v)

  pub start-IsValid : (history_size : ℕ) → IsValid {P = P} (start history_size)
  unfolding init get contains
  start-IsValid history_size = record {
    sound = λ id. record { in_table = refl; quiet = refl; known = λ e. cc; closed = λ e. cc };
    bounded = omega arith;
    roomy = omega arith;
  }

  -- After any steps of the event loop from a new gate: the table holds exactly the requests that are
  -- pending, a pending request has no event set, every parked submitter has a request, a request
  -- whose submitter has returned is not in the table, and the history is within its size, which is
  -- at least ten.
  pub run-IsValid : (history_size : ℕ) (ops : List (Op P)) → IsValid (run (start history_size) ops)
  run-IsValid history_size ops =
      run-IsValid_from (start history_size) ops (start-IsValid history_size)
