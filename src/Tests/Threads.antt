-- ===== src/Tests/Threads.antt =====
-- Inputs for the default handler and the event bus.
use plugin_baselithbot.Dict.{get, put, adjust, values}
use plugin_baselithbot.Lists.{take_last}
use plugin_baselithbot.Sessions.{init, create, session_list, history, send, call_all}
use plugin_baselithbot.Inbound.DefaultHandler.{
  Hub, title_of, find_title, session_for, message_of, handle,
}
use plugin_baselithbot.Inbound.DefaultHandler.Threads.{HasThread, handle-routes}
use plugin_baselithbot.Inbound.Dispatcher.{InboundEvent, returns}
use plugin_baselithbot.Sessions.Invariant.{IsValid, call_all-IsValid}
use plugin_baselithbot.Dashboard.Bus.{Event, recent}
use plugin_baselithbot.Dashboard.Bus.Streams.{publishes, subscribes, receives, recent-published}
use plugin_baselithbot.Dashboard.Bus
use plugin_baselithbot.Dashboard.Bus.Streams
use plugin_baselithbot.Slices.{pos}
use plugin_baselithbot.Common.{ℕ, ◌≡◌, refl, String, some, [], ◌∷◌, arith}

abbrev empty_hub : Hub ℕ
empty_hub = record {
  sessions = init 200 64;
  bus = Bus.init;
  readings = ("s1", 10) ∷ ("s2", 20) ∷ [];
}

abbrev hello : InboundEvent ℕ
hello = record { channel = "slack"; sender = some "bob"; text = "hi"; raw = 0; received_at = 5 }

-- The second event of the sender goes to the session of the first, and the second uuid is not used.
same_session : (handle hello (handle hello empty_hub).0).1 ≡ returns "s1"
unfolding handle session_for create find_title session_list send get put adjust title_of values
same_session = refl

abbrev empty_valid : IsValid empty_hub.sessions
unfolding call_all
empty_valid = call_all-IsValid 200 64 []

handle-routes_example :
    let (hub', outcome) = handle hello empty_hub in
    (id : String) × (outcome ≡ returns id)
    × HasThread hub'.sessions (title_of "slack" (some "bob")) id
    × (history hub'.sessions id (pos 1) ≡ message_of hello 10 ∷ [])
unfolding get
handle-routes_example =
    handle-routes empty_hub hello "s1" 10 (("s2", 20) ∷ []) refl empty_valid (omega arith)
      (omega arith) refl

abbrev tick : ℕ → Event ℕ
tick n = record { event_type = "tick"; ts = n; payload = n }

recent-published_example :
    recent
      (Streams.call_all Bus.init
        (publishes (tick 1) ∷ subscribes 7 ∷ publishes (tick 2) ∷ receives 7 ∷ []))
      (pos 1)
    ≡ tick 2 ∷ []
unfolding take_last
recent-published_example =
    recent-published (publishes (tick 1) ∷ subscribes 7 ∷ publishes (tick 2) ∷ receives 7 ∷ []) 1
      (omega arith) (omega arith)
