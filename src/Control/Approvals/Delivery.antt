-- ===== src/Control/Approvals/Delivery.antt =====
-- Who receives a broadcast.
use plugin_baselithbot.Common.{
  ℕ, String, ◌≡◌, refl, ◌≢◌, inl, inr, not, List, [], ◌∷◌, ◌++◌, map, arith, Bool-cases,
}
use plugin_baselithbot.Lists.{keep, All}
use plugin_baselithbot.Control.Approvals.Broadcast.{
  Listener, is_full, offer, remove_listener, dead, remove_all, broadcast, Message,
}

module _ {B : Type 0} where
  -- Each listener is another queue.
  abbrev pub DistinctQueues : List (Listener B) → Type 0
  DistinctQueues [] = Unit
  DistinctQueues (l ∷ ls) = All (λ k. k.queue ≢ l.queue) ls × DistinctQueues ls

  dead-avoids :
      (q : ℕ) (ls : List (Listener B)) → All (λ k. k.queue ≢ q) ls → All (λ k. k ≢ q) (dead ls)
  unfolding dead
  dead-avoids q [] h = tt
  dead-avoids q (l ∷ ls) h = elim (Bool-cases (is_full l)) [
    | inl e ↦ rw e (h.0, dead-avoids q ls h.1)
    | inr e ↦ rw e (dead-avoids q ls h.1)
  ]

  remove_all-cons :
      (l : Listener B) (ls : List (Listener B)) (qs : List ℕ)
      → All (λ k. k ≢ l.queue) qs
      → remove_all (l ∷ ls) qs ≡ l ∷ remove_all ls qs
  unfolding remove_all remove_listener
  remove_all-cons l ls [] h = refl
  remove_all-cons l ls (q ∷ qs) h = ground (arith, remove_all-cons l (remove_listener ls q) qs)

  -- The queue with one more message.
  abbrev pub with_message : Message B → Listener B → Listener B
  with_message m l = record l { messages = l.messages ++ m ∷ [] }

  -- Among distinct queues, a broadcast appends its message to every queue that has room, in the order
  -- of the listeners, and drops exactly the queues that are full.
  pub broadcast-delivers :
      (ls : List (Listener B)) (event_type : String) (payload : B)
      → DistinctQueues ls
      → broadcast ls event_type payload
        ≡ map
            (with_message (record { event_type = event_type; payload = payload }))
            (keep (λ l. not (is_full l)) ls)
  unfolding broadcast keep
  broadcast-delivers [] event_type payload h = refl
  broadcast-delivers (l ∷ ls) event_type payload h =
      let m : Message B = record { event_type = event_type; payload = payload } in
      elim (Bool-cases (is_full l)) [
        | inl e ↦ ground (arith, broadcast-delivers ls event_type payload h.1)
        | inr e ↦ ground (
          arith,
          broadcast-delivers ls event_type payload h.1,
          remove_all-cons (offer m l) (map (offer m) ls) (dead ls)
              (rw (e, offer) (dead-avoids l.queue ls h.0)),
        )
      ]
