-- ===== src/Control/Approvals/Sound.antt =====
-- The facts of one id that every step of the event loop keeps.
use plugin_baselithbot.Common.{
  ℕ, String, ◌≡◌, inl, inr, Bool, true, false, ◌&&◌, Option, none, some, List, [], ◌∷◌, ◌++◌, arith,
  eq_iff, Bool-cases, is_some,
}
use plugin_baselithbot.Lists.{contains}
use plugin_baselithbot.Dict.{get, get-put, get-adjust}
use plugin_baselithbot.Control.Approvals.{
  ApprovalRequest, is_pending, ApprovalGate, drop_key, new_request, submit, expired, on_timeout,
  resolved, resolve,
}
use plugin_baselithbot.Control.Approvals.Effects.{
  contains-drop_key, contains-append, contains-add_key, submit-effect, on_timeout-effect, is_open,
  resolve-effect, resolve-miss,
}
use plugin_baselithbot.Control.Approvals.Schedule.{Decision, decided}

-- What the invariant says of one id: its request, whether it is in the table, whether its submitter is
-- parked and whether it has returned.
pub record Sound {P : Type 0} (q : Option (ApprovalRequest P)) (listed parked returned : Bool)
    : Type 0 where
  pub in_table : listed ≡ elim q [ none ↦ false | some r ↦ is_pending r.status ]
  pub quiet : elim q [ none ↦ false | some r ↦ is_pending r.status && r.event_set ] ≡ false
  pub known : parked ≡ true → is_some q ≡ true
  pub closed : returned ≡ true → (is_some q ≡ true) × (listed ≡ false)

abbrev pub SoundAt : {P : Type 0} → ApprovalGate P → List String → List String → String → Type 0
SoundAt g parked returned id =
    Sound (get g.requests id) (contains id g.table) (contains id parked) (contains id returned)

module _ {P : Type 0} where
  pub submit-Sound :
      (g : ApprovalGate P) (parked returned : List String) (id capability action : String)
      (params : P) (timeout now : ℕ)
      → get g.requests id ≡ none
      → (j : String) → SoundAt g parked returned j
      → SoundAt (submit g id capability action params timeout now) (parked ++ id ∷ []) returned j
  unfolding contains
  submit-Sound g parked returned id capability action params timeout now fresh j s =
      let (requests, table, _, _) = submit-effect g id capability action params timeout now in
      rw
        (
          requests,
          table,
          contains-add_key id j g.table,
          contains-append j parked (id ∷ []),
          get-put g.requests id j (new_request id capability action params timeout now),
        )
        (ground (arith, s, eq_iff id j))

  pub resolve-Sound :
      (g : ApprovalGate P) (parked returned : List String) (id : String) (d : Decision)
      (reason : Option String) (now : ℕ) (j : String)
      → SoundAt g parked returned j
      → SoundAt (resolve g id (decided d) reason now).0 parked returned j
  resolve-Sound g parked returned id d reason now j s = elim (Bool-cases (is_open g id)) [
    | inl o ↦
        let (requests, table, _, _, _) = resolve-effect g id (decided d) reason now o in
        rw
          (
            requests,
            table,
            contains-drop_key id j g.table,
            get-adjust g.requests id j (λ x. resolved x (decided d) reason now),
          )
          (ground (arith, s, eq_iff id j))
    | inr o ↦ rw (resolve-miss g id (decided d) reason now o) s
  ]

  pub return-Sound :
      (g : ApprovalGate P) (parked returned : List String) (id : String)
      → is_some (get g.requests id) ≡ true
      → contains id g.table ≡ false
      → (j : String) → SoundAt g parked returned j
      → SoundAt g (drop_key id parked) (returned ++ id ∷ []) j
  unfolding contains
  return-Sound g parked returned id here gone j s =
      rw (contains-drop_key id j parked, contains-append j returned (id ∷ []))
        (ground (arith, s, eq_iff id j))

  pub on_timeout-Sound :
      (g : ApprovalGate P) (parked returned : List String) (id : String) (now : ℕ) (j : String)
      → SoundAt g parked returned j
      → SoundAt (on_timeout g id now) parked returned j
  on_timeout-Sound g parked returned id now j s =
      let (requests, table, _, _) = on_timeout-effect g id now in
      rw
        (
          requests,
          table,
          contains-drop_key id j g.table,
          get-adjust g.requests id j (λ r. expired r now),
        )
        (ground (arith, s, eq_iff id j))
