-- ===== src/Inbound/Dispatcher.antt =====
-- inbound/dispatcher.py: the chains of handlers of the channels. `S` is the state of the program that a
-- handler changes, `D` the payloads and `R` what handlers return. The handlers of a chain run in the
-- order of `asyncio.gather`; a handler with no await inside runs to its end.
use plugin_baselithbot.Dict.{Dict, get, put}
use plugin_baselithbot.Common.{ℕ, suc, String, Option, none, some, List, [], ◌∷◌, ◌++◌}

pub record InboundEvent (D : Type 0) : Type 0 where
  pub channel : String
  pub sender : Option String
  pub text : String
  pub raw : D
  pub received_at : ℕ

-- How a handler ends: with a result, or with an exception and its text.
pub data Outcome (R : Type 0) : Type 0 where
  returns : R → Outcome R
  raises : String → Outcome R

-- The entries of what `dispatch` returns.
pub data Reply (R : Type 0) : Type 0 where
  no_handler : String → Reply R
  replied : R → Reply R
  failed : String → String → Reply R

abbrev pub Handler : Type 0 → Type 0 → Type 0 → Type 0
Handler S D R = InboundEvent D → S → S × Outcome R

pub record InboundDispatcher (S D R : Type 0) : Type 0 where
  pub handlers : Dict (List (Handler S D R))
  pub counters : Dict ℕ

abbrev pub count_of : Dict ℕ → String → ℕ
count_of counters channel = elim (get counters channel) [ none ↦ 0 | some n ↦ n ]

abbrev pub reply_of : {R : Type 0} → String → Outcome R → Reply R
reply_of channel (returns r) = replied r
reply_of channel (raises e) = failed channel e

abbrev pub or_empty : {A : Type 0} → Option (List A) → List A
or_empty none = []
or_empty (some xs) = xs

module _ {S D R : Type 0} where
  abbrev pub init : InboundDispatcher S D R
  init = record { handlers = []; counters = [] }

  abbrev pub chain_of : Dict (List (Handler S D R)) → String → List (Handler S D R)
  chain_of d channel = or_empty (get d channel)

  -- self._handlers.setdefault(channel, []).append(handler)
  unfoldable pub register :
      InboundDispatcher S D R → String → Handler S D R → InboundDispatcher S D R
  register d channel handler = record d {
    handlers = put d.handlers channel (chain_of d.handlers channel ++ handler ∷ []);
  }

  -- await asyncio.gather(*(_run(h) for h in chain))
  unfoldable pub run_chain : List (Handler S D R) → InboundEvent D → S → S × List (Reply R)
  run_chain [] event s = (s, [])
  run_chain (h ∷ hs) event s =
      let (s', outcome) = h event s in
      let (s'', replies) = run_chain hs event s' in (s'', reply_of event.channel outcome ∷ replies)

  abbrev pub answers : List (Handler S D R) → InboundEvent D → S → S × List (Reply R)
  answers [] event s = (s, no_handler event.channel ∷ [])
  answers (h ∷ hs) event s = run_chain (h ∷ hs) event s

  unfoldable pub dispatch :
      InboundDispatcher S D R → InboundEvent D → S → (InboundDispatcher S D R × S) × List (Reply R)
  unfolding run_chain
  dispatch d event s =
      let d' : InboundDispatcher S D R = record d {
        counters = put d.counters event.channel (suc (count_of d.counters event.channel));
      } in
      let (s', replies) = answers (chain_of d.handlers event.channel) event s in ((d', s'), replies)
