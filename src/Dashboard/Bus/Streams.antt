-- ===== src/Dashboard/Bus/Streams.antt =====
-- dashboard/bus.py: what the history and the streams hold after any calls.
use plugin_baselithbot.Lists.{
  length, take_last, take_last_of_le, push_bounded, take_last-take_last, push_bounded-take_last,
}
use plugin_baselithbot.Dashboard.Bus.{
  Event, DashboardEventBus, event_buffer_size, init, remembered, publish, recent, subscribe,
  receive, unsubscribe,
}
use plugin_baselithbot.Slices.{pos, slice_from-pos}
use mathlib.Core.List.{append_assoc, append-nil}
use plugin_baselithbot.Common.{
  ℕ, ◌≤◌, ◌<◌, ◌≡◌, refl, sym, ap, ◌∙◌, inl, inr, List, [], ◌∷◌, ◌++◌, ltb, ltb_false→le,
  Bool-cases,
}

pub data Call (P : Type 0) : Type 0 where
  publishes : Event P → Call P
  subscribes receives unsubscribes : ℕ → Call P

module _ {P : Type 0} where
  unfoldable pub step : DashboardEventBus P → Call P → DashboardEventBus P
  step b (publishes e) = publish b e.event_type e.payload e.ts
  step b (subscribes queue) = subscribe b queue
  step b (receives queue) = receive b queue
  step b (unsubscribes queue) = unsubscribe b queue

  unfoldable pub call_all : DashboardEventBus P → List (Call P) → DashboardEventBus P
  call_all b [] = b
  call_all b (c ∷ cs) = call_all (step b c) cs

  -- The events that the calls publish, in order.
  abbrev pub published : List (Call P) → List (Event P)
  published [] = []
  published (publishes e ∷ cs) = e ∷ published cs
  published (subscribes queue ∷ cs) = published cs
  published (receives queue ∷ cs) = published cs
  published (unsubscribes queue ∷ cs) = published cs

  remembered-push :
      (events : List (Event P)) (e : Event P)
      → remembered events e ≡ push_bounded event_buffer_size events e
  unfolding remembered push_bounded
  remembered-push events e = elim (Bool-cases (ltb event_buffer_size (length (events ++ e ∷ [])))) [
    | inl h ↦ rw h
    | inr h ↦ rw h (
        sym (
          take_last_of_le event_buffer_size (events ++ e ∷ [])
            (ltb_false→le event_buffer_size (length (events ++ e ∷ [])) h)))
  ]

  events-call_all :
      (b : DashboardEventBus P) (cs : List (Call P)) (before : List (Event P))
      → b.events ≡ take_last event_buffer_size before
      → (call_all b cs).events ≡ take_last event_buffer_size (before ++ published cs)
  unfolding call_all step publish subscribe receive unsubscribe
  events-call_all b [] before h = h ∙ ap (take_last event_buffer_size) (sym (append-nil before))
  events-call_all b (publishes e ∷ cs) before h =
      events-call_all (publish b e.event_type e.payload e.ts) cs (before ++ e ∷ []) (
        remembered-push b.events e
        ∙ ap (λ es. push_bounded event_buffer_size es e) h
        ∙ push_bounded-take_last event_buffer_size before e)
      ∙ ap (take_last event_buffer_size) (append_assoc before (e ∷ []) (published cs))
  events-call_all b (subscribes queue ∷ cs) before h =
      events-call_all (subscribe b queue) cs before h
  events-call_all b (receives queue ∷ cs) before h = events-call_all (receive b queue) cs before h
  events-call_all b (unsubscribes queue ∷ cs) before h =
      events-call_all (unsubscribe b queue) cs before h

  -- After any calls of a new bus, with streams that start, read and end in between, the last events
  -- that a client asks for, up to two hundred, are the last ones published.
  pub recent-published :
      (cs : List (Call P)) (limit : ℕ)
      → 0 < limit
      → limit ≤ event_buffer_size
      → recent (call_all init cs) (pos limit) ≡ take_last limit (published cs)
  unfolding recent take_last
  recent-published cs limit h l =
      slice_from-pos limit (call_all init cs).events h
      ∙ ap (take_last limit) (events-call_all init cs [] refl)
      ∙ take_last-take_last limit event_buffer_size (published cs) l
