-- ===== src/Inbound/DefaultHandler.antt =====
-- inbound/default_handler.py: the handler that turns an event of a channel into a message of a session
-- and an event of the dashboard. It has no await inside.
pub mod Threads
use plugin_baselithbot.Strings.{joined, first_chars}
use plugin_baselithbot.Text.{is_empty}
use plugin_baselithbot.Sessions.{
  SessionMessage, Session, SessionManager, create, session_list, send,
}
use plugin_baselithbot.Inbound.Dispatcher.{
  InboundEvent, returns, raises, Handler, InboundDispatcher, register,
}
use plugin_baselithbot.Dashboard.Bus.{DashboardEventBus, publish}
use plugin_baselithbot.Common.{
  ℕ, zero, suc, String, false, Option, none, some, List, [], ◌∷◌, ◌==◌, if◌then◌else◌,
}

-- The metadata of a message; `inbound` is true in all.
pub record Metadata (D : Type 0) : Type 0 where
  pub channel : String
  pub sender : Option String
  pub raw : D

-- The payload of the dashboard's event.
pub record Preview : Type 0 where
  pub channel : String
  pub sender : Option String
  pub session_id : String
  pub text_preview : String

-- The parts of the plugin that the handler changes, with the uuid and the clock that each call of the
-- handler reads, in order; behind the last, they are empty.
pub record Hub (D : Type 0) : Type 0 where
  pub sessions : SessionManager (Metadata D)
  pub bus : DashboardEventBus Preview
  pub readings : List (String × ℕ)

abbrev next_reading : List (String × ℕ) → (String × ℕ) × List (String × ℕ)
next_reading [] = (("", 0), [])
next_reading (t ∷ ts) = (t, ts)

-- event.sender or "anonymous"
abbrev pub sender_name : Option String → String
sender_name none = "anonymous"
sender_name (some s) = if is_empty s then "anonymous" else s

-- "ch:{channel}:{sender}"
unfoldable pub title_of : String → Option String → String
unfolding joined
title_of channel sender = joined "ch:" (joined channel (joined ":" (sender_name sender)))

module _ {D : Type 0} where
  -- The first session with the title.
  unfoldable pub find_title : List (Session (Metadata D)) → String → Option String
  find_title [] title = none
  find_title (s ∷ ss) title = if s.title == title then some s.id else find_title ss title

  -- `_session_for`; `sid` is the id that a new session would get.
  unfoldable pub session_for :
      SessionManager (Metadata D)
      → InboundEvent D
      → String
      → ℕ
      → SessionManager (Metadata D) × String
  unfolding find_title session_list create
  session_for m event sid now =
      let title = title_of event.channel event.sender in
      elim (find_title (session_list m) title) [
        | some id ↦ (m, id)
        | none ↦ let (m', session) = create m sid title false now in (m', session.id)
      ]

  abbrev pub message_of : InboundEvent D → ℕ → SessionMessage (Metadata D)
  message_of event now = record {
    role = "user";
    content = event.text;
    ts = now;
    metadata = record { channel = event.channel; sender = event.sender; raw = event.raw };
  }

  -- `_handle` with the uuid and the clock: what it returns is the id of the session; the exception is
  -- the `KeyError` of `send`.
  unfoldable pub handle_at : String → ℕ → Handler (Hub D) D String
  unfolding session_for send publish first_chars
  handle_at sid now event hub =
      let (m, id) = session_for hub.sessions event sid now in
      elim (send m id (message_of event now) now) [
        | none ↦ (record hub { sessions = m }, raises "KeyError")
        | some m' ↦ (
          record hub {
            sessions = m';
            bus =
                publish hub.bus "channel.inbound"
                  (record {
                    channel = event.channel;
                    sender = event.sender;
                    session_id = id;
                    text_preview = first_chars 120 event.text;
                  })
                  now;
          },
          returns id,
        )
      ]

  unfoldable pub handle : Handler (Hub D) D String
  unfolding handle_at
  handle event hub =
      let ((sid, now), rest) = next_reading hub.readings in
      handle_at sid now event (record hub { readings = rest })

  -- One handler for each known channel.
  unfoldable pub register_default_inbound_handlers :
      List String → InboundDispatcher (Hub D) D String → InboundDispatcher (Hub D) D String
  unfolding register handle
  register_default_inbound_handlers [] d = d
  register_default_inbound_handlers (channel ∷ channels) d =
      register_default_inbound_handlers channels (register d channel handle)
