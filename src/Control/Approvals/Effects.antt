-- ===== src/Control/Approvals/Effects.antt =====
-- What each operation of the gate does to the requests, the table and the history.
use plugin_baselithbot.Common.{
  ℕ, String, ◌≡◌, refl, true, false, ◌||◌, Option, none, some, List, [], ◌∷◌, ◌++◌, arith, ◌==◌,
  eq_iff, if◌then◌else◌, Bool, inl, inr, Option-cases,
}
use plugin_baselithbot.Lists.{take_last, take_last_of_le, contains}
use plugin_baselithbot.Dict.{put, adjust, get}
use plugin_baselithbot.Control.Approvals.{
  ApprovalStatus, pending, ApprovalRequest, ApprovalGate, drop_key, add_key, move_to_history,
  announce, submit, on_timeout, pending_request, resolve, expired, is_pending, new_request,
  resolved,
}

pub contains-drop_key :
    (id j : String) (ks : List String)
    → contains j (drop_key id ks) ≡ (if id == j then false else contains j ks)
unfolding contains drop_key
contains-drop_key id j [] = ground arith
contains-drop_key id j (k ∷ ks) =
    ground (arith, contains-drop_key id j ks, eq_iff k id, eq_iff k j, eq_iff id j)

pub contains-append :
    (j : String) (xs ys : List String) → contains j (xs ++ ys) ≡ (contains j xs || contains j ys)
unfolding contains
contains-append j [] ys = refl
contains-append j (x ∷ xs) ys = ground (arith, contains-append j xs ys)

pub contains-add_key :
    (id j : String) (ks : List String) → contains j (add_key id ks) ≡ (id == j || contains j ks)
unfolding contains add_key
contains-add_key id j ks = ground (arith, contains-append j ks (id ∷ []), eq_iff id j)

module _ {P : Type 0} where
  pub announce-same :
      (g : ApprovalGate P) (event_type id : String)
      → ((announce g event_type id).requests ≡ g.requests)
        × ((announce g event_type id).table ≡ g.table)
        × ((announce g event_type id).history ≡ g.history)
        × ((announce g event_type id).history_size ≡ g.history_size)
  unfolding announce
  announce-same g event_type id = ground arith

  pub submit-effect :
      (g : ApprovalGate P) (id capability action : String) (params : P) (timeout now : ℕ)
      → let g' = submit g id capability action params timeout now in
        (g'.requests ≡ put g.requests id (new_request id capability action params timeout now))
        × (g'.table ≡ add_key id g.table)
        × (g'.history ≡ g.history)
        × (g'.history_size ≡ g.history_size)
  unfolding submit
  submit-effect g id capability action params timeout now = ground arith

  pub move_to_history-effect :
      (g : ApprovalGate P) (id : String)
      → let g' = move_to_history g id in
        (g'.requests ≡ g.requests)
        × (g'.table ≡ drop_key id g.table)
        × (g'.history ≡ take_last g.history_size (g.history ++ id ∷ []))
        × (g'.history_size ≡ g.history_size)
  unfolding move_to_history
  move_to_history-effect g id =
      ground (arith, take_last_of_le g.history_size (g.history ++ id ∷ []))

  pub on_timeout-effect :
      (g : ApprovalGate P) (id : String) (now : ℕ)
      → let g' = on_timeout g id now in
        (g'.requests ≡ adjust g.requests id (λ r. expired r now))
        × (g'.table ≡ drop_key id g.table)
        × (g'.history ≡ take_last g.history_size (g.history ++ id ∷ []))
        × (g'.history_size ≡ g.history_size)
  unfolding on_timeout
  on_timeout-effect g id now = ground (arith, take_last_of_le g.history_size (g.history ++ id ∷ []))

  abbrev pub is_open : ApprovalGate P → String → Bool
  is_open g id = elim (pending_request g id) [ none ↦ false | some r ↦ is_pending r.status ]

  pub open-request :
      (g : ApprovalGate P) (id : String)
      → is_open g id ≡ true
      → (r : ApprovalRequest P) × (pending_request g id ≡ some r)
        × (get g.requests id ≡ some r)
        × (r.status ≡ pending)
        × (contains id g.table ≡ true)
  open-request g id e = elim (Option-cases (pending_request g id)) [
    | inl n ↦ absurd (ground arith)
    | inr (r, h) ↦ (r, h, ground arith, ground arith, ground arith)
  ]

  -- A call of `approve` or `deny` that finds a pending request.
  pub resolve-effect :
      (g : ApprovalGate P) (id : String) (status : ApprovalStatus) (reason : Option String)
      (now : ℕ)
      → is_open g id ≡ true
      → let (g', found) = resolve g id status reason now in
        (g'.requests ≡ adjust g.requests id (λ x. resolved x status reason now))
        × (g'.table ≡ drop_key id g.table)
        × (g'.history ≡ take_last g.history_size (g.history ++ id ∷ []))
        × (g'.history_size ≡ g.history_size)
        × (found ≡ true)
  unfolding resolve
  resolve-effect g id status reason now o =
      let (r, e, _, p, _) = open-request g id o in
      ground (arith, take_last_of_le g.history_size (g.history ++ id ∷ []))

  pub resolve-miss :
      (g : ApprovalGate P) (id : String) (status : ApprovalStatus) (reason : Option String)
      (now : ℕ)
      → is_open g id ≡ false
      → resolve g id status reason now ≡ (g, false)
  unfolding resolve
  resolve-miss g id status reason now e = ground arith
