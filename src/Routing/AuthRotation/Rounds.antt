-- ===== src/Routing/AuthRotation/Rounds.antt =====
-- model_routing/auth_rotation.py: a round of the round robin.
use plugin_baselithbot.Dict.Keys.{IsDistinct, get-retain, contains-keys, adjust-IsDistinct}
use plugin_baselithbot.Dict.{get, retain, Dict, adjust, get-adjust}
use plugin_baselithbot.Lists.{All, contains, length, All-append}
use plugin_baselithbot.Routing.AuthRotation.{
  round_robin, AuthProfile, ProfileStats, AuthProfilePool, rested, eligible, acquire, first_in,
  remove_one, choose, counted, used,
}
use plugin_baselithbot.Routing.AuthRotation.Eligible.{acquire-chosen}
use mathlib.Core.List.{append_assoc, append-nil}
use plugin_baselithbot.Common.{
  ℕ, String, ◌≡◌, refl, ◌∙◌, true, Option, none, some, List, [], ◌∷◌, sym, ap, subst, ◌++◌, map,
  arith, eq_refl, inl, inr, ◌==◌, Bool-cases, ◌≢◌,
}

-- A draw and the two clocks of a call of `acquire`.
pub record Reading : Type 0 where
  pub draw : ℕ
  pub now : ℕ
  pub later : ℕ

-- One call of `acquire` after the other.
unfoldable pub acquire_each : AuthProfilePool → List Reading → List (Option AuthProfile)
acquire_each p [] = []
acquire_each p (t ∷ ts) =
    let (p', profile) = acquire p t.draw t.now t.later in profile ∷ acquire_each p' ts

-- A key that had no error.
abbrev pub IsRested : Dict ProfileStats → String → Type 0
IsRested stats n = (st : ProfileStats) × (get stats n ≡ some st) × (st.last_error_at ≡ none)

-- The policy is round robin, and no key of the deque had an error.
pub record IsCalm (p : AuthProfilePool) : Type 0 where
  pub robin : p.policy ≡ round_robin
  pub distinct : IsDistinct p.stats
  pub calm : All (IsRested p.stats) p.order

rested-contains :
    (p : AuthProfilePool) (now : ℕ) (n : String)
    → IsDistinct p.stats
    → IsRested p.stats n
    → contains n (eligible p now) ≡ true
unfolding eligible
rested-contains p now n d (st, e, r) =
    contains-keys (retain (rested p.cooldown now) p.stats) n
    ∙ rw (get-retain (rested p.cooldown now) p.stats n d) (rw e (rw r))

-- The head of the deque, if it is one of the names.
choose-head :
    (p : AuthProfilePool) (x : String) (order : List String) (n : String) (ns : List String)
    (draw : ℕ)
    → p.policy ≡ round_robin
    → p.order ≡ x ∷ order
    → contains x (n ∷ ns) ≡ true
    → choose p n ns draw ≡ x
unfolding choose first_in
choose-head p x order n ns draw r o c = rw (r, choose) (rw o (rw c))

used-order :
    (p : AuthProfilePool) (x : String) (order : List String) (later : ℕ)
    → p.policy ≡ round_robin
    → p.order ≡ x ∷ order
    → (used p x later).order ≡ order ++ x ∷ []
unfolding used remove_one
used-order p x order later r o = rw (r, used) (rw o (rw (eq_refl x)))

contains-nil : (x : String) → contains x [] ≢ true
unfolding contains
contains-nil x e = cc

acquire-head :
    (p : AuthProfilePool) (x : String) (order : List String) (t : Reading)
    → IsCalm p
    → p.order ≡ x ∷ order
    → acquire p t.draw t.now t.later ≡ (used p x t.later, get p.profiles x)
acquire-head p x order t v o = go (eligible p t.now) refl
  where
    c : contains x (eligible p t.now) ≡ true
    c = rested-contains p t.now x v.distinct (subst (All (IsRested p.stats)) o v.calm).0

    go :
        (names : List String)
        → eligible p t.now ≡ names
        → acquire p t.draw t.now t.later ≡ (used p x t.later, get p.profiles x)
    go [] e = absurd (contains-nil x (subst (λ l. contains x l ≡ true) e c))
    go (n ∷ ns) e =
        acquire-chosen p t.draw t.now t.later n ns e
        ∙ ap (λ y. (used p y t.later, get p.profiles y))
            (choose-head p x order n ns t.draw v.robin o (subst (λ l. contains x l ≡ true) e c))

IsRested-one :
    (stats : Dict ProfileStats) (x : String) (later : ℕ) (n : String)
    → IsRested stats n
    → IsRested (adjust stats x (counted later)) n
IsRested-one stats x later n (st, e, r) = elim (Bool-cases (x == n)) [
  | inl h ↦ (counted later st, rw (get-adjust, h, e), r)
  | inr h ↦ (st, rw (get-adjust, h, e), r)
]

IsRested-counted :
    (stats : Dict ProfileStats) (x : String) (later : ℕ) (names : List String)
    → All (IsRested stats) names
    → All (IsRested (adjust stats x (counted later))) names
IsRested-counted stats x later [] h = tt
IsRested-counted stats x later (n ∷ names) ((st, e, r), h) =
    (IsRested-one stats x later n (st, e, r), IsRested-counted stats x later names h)

used-IsCalm :
    (p : AuthProfilePool) (x : String) (order : List String) (later : ℕ)
    → IsCalm p
    → p.order ≡ x ∷ order
    → IsCalm (used p x later)
unfolding used
used-IsCalm p x order later v o =
    let all =
      IsRested-counted p.stats x later (x ∷ order) (subst (All (IsRested p.stats)) o v.calm) in
    record {
      robin = v.robin;
      distinct = adjust-IsDistinct p.stats x (counted later) v.distinct;
      calm =
          subst (All (IsRested (used p x later).stats)) (sym (used-order p x order later v.robin o))
            (All-append _ order (x ∷ []) all.1 (all.0, tt));
    }

acquire_each-prefix :
    (p : AuthProfilePool) (ts : List Reading) (xs ys : List String)
    → IsCalm p
    → p.order ≡ xs ++ ys
    → length ts ≡ length xs
    → acquire_each p ts ≡ map (get p.profiles) xs
unfolding acquire_each used
acquire_each-prefix p [] [] ys v o h = refl
acquire_each-prefix p (t ∷ ts) [] ys v o h = absurd (omega arith)
acquire_each-prefix p [] (x ∷ xs) ys v o h = absurd (omega arith)
acquire_each-prefix p (t ∷ ts) (x ∷ xs) ys v o h =
    rw (acquire-head p x (xs ++ ys) t v o, acquire_each)
      (ap (λ l. get p.profiles x ∷ l)
        (acquire_each-prefix (used p x t.later) ts xs (ys ++ x ∷ [])
          (used-IsCalm p x (xs ++ ys) t.later v o)
          (used-order p x (xs ++ ys) t.later v.robin o ∙ append_assoc xs ys (x ∷ []))
          (omega arith)))

-- Under round robin and without errors, as many calls of `acquire` as there are keys in the deque hand
-- out each of them once, in the order of the deque, whenever they come.
pub acquire_each-order :
    (p : AuthProfilePool) (ts : List Reading)
    → IsCalm p
    → length ts ≡ length p.order
    → acquire_each p ts ≡ map (get p.profiles) p.order
acquire_each-order p ts v h = acquire_each-prefix p ts p.order [] v (sym (append-nil p.order)) h
