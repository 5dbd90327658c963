-- ===== src/Dashboard/Bus.antt =====
-- dashboard/bus.py: the fan-out of events to the streams of the dashboard, with a bounded history. A
-- subscriber is the queue of one stream, with what the stream has yielded so far. `P` is the payload.
pub mod Streams
use plugin_baselithbot.Lists.{length, take_last, keep}
use plugin_baselithbot.Slices.{ℤ, neg, slice_from}
use plugin_baselithbot.Common.{
  ℕ, String, not, List, [], ◌∷◌, ◌++◌, map, ltb, leb, eqb, if◌then◌else◌,
}

pub record Event (P : Type 0) : Type 0 where
  pub event_type : String
  pub ts : ℕ
  pub payload : P

pub record Subscriber (P : Type 0) : Type 0 where
  pub queue : ℕ
  pub waiting : List (Event P)
  pub yielded : List (Event P)

pub record DashboardEventBus (P : Type 0) : Type 0 where
  pub subscribers : List (Subscriber P)
  pub events : List (Event P)

-- _EVENT_BUFFER_SIZE
abbrev pub event_buffer_size : ℕ
event_buffer_size = 200

-- asyncio.Queue(maxsize=256)
abbrev pub queue_size : ℕ
queue_size = 256

-- The events of the history that a new stream starts with.
abbrev pub replayed : ℕ
replayed = 50

module _ {P : Type 0} where
  abbrev pub init : DashboardEventBus P
  init = record { subscribers = []; events = [] }

  -- queue.put_nowait(event), where a full queue is left as it is
  unfoldable pub offer : Event P → Subscriber P → Subscriber P
  offer e s =
      if leb queue_size (length s.waiting) then s else record s { waiting = s.waiting ++ e ∷ [] }

  -- The history with a new event; what is beyond the buffer size goes.
  unfoldable pub remembered : List (Event P) → Event P → List (Event P)
  remembered events e =
      let events' = events ++ e ∷ [] in
      if ltb event_buffer_size (length events')
      then take_last event_buffer_size events'
      else events'

  unfoldable pub publish : DashboardEventBus P → String → P → ℕ → DashboardEventBus P
  unfolding offer remembered
  publish b event_type payload now =
      let e : Event P = record { event_type = event_type; ts = now; payload = payload } in
      record { subscribers = map (offer e) b.subscribers; events = remembered b.events e }

  unfoldable pub recent : DashboardEventBus P → ℤ → List (Event P)
  recent b limit = slice_from (neg limit) b.events

  -- The start of a stream: its queue, which has a number of its own, gets the last events. They fit,
  -- so that no `put` waits.
  unfoldable pub subscribe : DashboardEventBus P → ℕ → DashboardEventBus P
  subscribe b queue = record b {
    subscribers =
        b.subscribers
        ++ record { queue = queue; waiting = take_last replayed b.events; yielded = [] } ∷ [];
  }

  -- `event = await queue.get()` and `yield event`, where an event waits
  abbrev pub advance : Subscriber P → Subscriber P
  advance s = elim s.waiting [
    | [] ↦ s
    | e ∷ es ↦ record s { waiting = es; yielded = s.yielded ++ e ∷ [] }
  ]

  abbrev pub advance_queue : ℕ → Subscriber P → Subscriber P
  advance_queue queue s = if eqb s.queue queue then advance s else s

  unfoldable pub receive : DashboardEventBus P → ℕ → DashboardEventBus P
  receive b queue = record b { subscribers = map (advance_queue queue) b.subscribers }

  -- The `finally` of a stream that is closed.
  unfoldable pub unsubscribe : DashboardEventBus P → ℕ → DashboardEventBus P
  unsubscribe b queue = record b { subscribers = keep (λ s. not (eqb s.queue queue)) b.subscribers }
