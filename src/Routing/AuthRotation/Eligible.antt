-- ===== src/Routing/AuthRotation/Eligible.antt =====
-- model_routing/auth_rotation.py: which key `acquire` hands out.
use mathlib.Core.Option
use plugin_baselithbot.Routing.AuthRotation.{
  AuthRotationPolicy, round_robin, least_used, random, ProfileStats, AuthProfilePool, eligible,
  least, first_in, drawn, choose, candidates, used, acquire, counted, acquire_from,
}
use plugin_baselithbot.Heap.{get_elem?}
use plugin_baselithbot.Dict.{Dict, get, get-adjust}
use plugin_baselithbot.Lists.{contains}
use plugin_baselithbot.Routing.AuthRotation.{
  round_robin, least_used, random, ProfileStats, AuthProfilePool, least, first_in, drawn, choose,
}
use plugin_baselithbot.Common.{
  ℕ, zero, suc, String, ◌≡◌, inl, inr, true, some, List, [], ◌∷◌, arith, eq_iff, eq_refl,
  Option-cases, refl, ◌≢◌, ◌⊎◌, ◌==◌, if◌then◌else◌, ap,
}

contains-get_elem? :
    (names : List String) (i : ℕ) (n : String)
    → get_elem? names i ≡ some n
    → contains n names ≡ true
unfolding contains
contains-get_elem? [] i n e = cc
contains-get_elem? (x ∷ names) zero n e = ground (arith, eq_iff x n)
contains-get_elem? (x ∷ names) (suc i) n e = ground (arith, contains-get_elem? names i n e)

drawn-contains :
    (names : List String) (draw : ℕ) (default : String)
    → contains default names ≡ true
    → contains (drawn names draw default) names ≡ true
drawn-contains names draw default h = elim (Option-cases (get_elem? names draw)) [
  | inl e ↦ rw (e, drawn) h
  | inr (n, e) ↦ rw (e, drawn) (contains-get_elem? names draw n e)
]

least-contains :
    (d : Dict ProfileStats) (best : String) (names : List String)
    → contains (least d best names) (best ∷ names) ≡ true
unfolding least contains
least-contains d best [] = rw (eq_refl best)
least-contains d best (n ∷ ns) = ground (arith, least-contains d n ns, least-contains d best ns)

first_in-contains :
    (order names : List String) (default : String)
    → contains default names ≡ true
    → contains (first_in order names default) names ≡ true
unfolding first_in
first_in-contains [] names default h = h
first_in-contains (n ∷ ns) names default h = ground (arith, first_in-contains ns names default h)

contains-head : (n : String) (ns : List String) → contains n (n ∷ ns) ≡ true
unfolding contains
contains-head n ns = rw (eq_refl n)

policy-cases : (q : AuthRotationPolicy) → (q ≡ round_robin) ⊎ ((q ≡ least_used) ⊎ (q ≡ random))
policy-cases round_robin = inl refl
policy-cases least_used = inr (inl refl)
policy-cases random = inr (inr refl)

pub choose-contains :
    (p : AuthProfilePool) (n : String) (ns : List String) (draw : ℕ)
    → contains (choose p n ns draw) (n ∷ ns) ≡ true
unfolding choose
choose-contains p n ns draw = elim (policy-cases p.policy) [
  | inl e ↦ rw (e, choose) (first_in-contains p.order (n ∷ ns) n (contains-head n ns))
  | inr (inl e) ↦ rw (e, choose) (least-contains p.stats n ns)
  | inr (inr e) ↦ rw (e, choose) (drawn-contains (n ∷ ns) draw n (contains-head n ns))
]

-- `acquire` with the names to choose from.
pub acquire-chosen :
    (p : AuthProfilePool) (draw now later : ℕ) (n : String) (ns : List String)
    → eligible p now ≡ n ∷ ns
    → acquire p draw now later
      ≡ (used p (choose p n ns draw) later, get p.profiles (choose p n ns draw))
unfolding acquire candidates
acquire-chosen p draw now later n ns e =
    let c : candidates p now ≡ (p, n ∷ ns) = rw (e, candidates) in
    ap (λ x. acquire_from x draw later) c

-- If some key is not at rest, `acquire` hands out the profile of such a key, whatever the policy and
-- the draw; it counts one use of that key and leaves the statistics of all others as they are.
pub acquire-eligible :
    (p : AuthProfilePool) (draw now later : ℕ)
    → eligible p now ≢ []
    → let (p', profile) = acquire p draw now later in
      (chosen : String) × (contains chosen (eligible p now) ≡ true)
      × (profile ≡ get p.profiles chosen)
      × ((n : String)
          → get p'.stats n
            ≡ (if chosen == n then Option.map (counted later) (get p.stats n) else get p.stats n))
unfolding used
acquire-eligible p draw now later h = go (eligible p now) refl
  where
    go :
        (names : List String)
        → eligible p now ≡ names
        → let (p', profile) = acquire p draw now later in
          (chosen : String) × (contains chosen (eligible p now) ≡ true)
          × (profile ≡ get p.profiles chosen)
          × ((n : String)
              → get p'.stats n ≡ (
                  if chosen == n
                  then Option.map (counted later) (get p.stats n)
                  else get p.stats n))
    go [] e = absurd (h e)
    go (n ∷ ns) e = rw (acquire-chosen p draw now later n ns e) (
      choose p n ns draw,
      rw e (choose-contains p n ns draw),
      refl,
      λ m. get-adjust p.stats (choose p n ns draw) m (counted later),
    )
