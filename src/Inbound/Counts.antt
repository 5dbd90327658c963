-- ===== src/Inbound/Counts.antt =====
-- inbound/dispatcher.py: the counters, and one reply for each handler.
use plugin_baselithbot.Dict.{put, Dict, get, get-put}
use plugin_baselithbot.Lists.{length, length-append}
use plugin_baselithbot.Inbound.Dispatcher.{
  InboundEvent, Handler, InboundDispatcher, chain_of, register, count_of, run_chain, dispatch, init,
  answers, or_empty,
}
use plugin_baselithbot.Common.{
  ℕ, suc, ◌+◌, max, String, ◌≡◌, refl, ap, List, [], ◌∷◌, arith, ◌==◌, if◌then◌else◌, ◌∙◌, inl, inr,
  ◌++◌, eq_iff, Bool-cases,
}

-- Registrations and events, in whatever order.
pub data Call (S D R : Type 0) : Type 0 where
  registers : String → Handler S D R → Call S D R
  dispatches : InboundEvent D → Call S D R

count_of-put :
    (counters : Dict ℕ) (ch channel : String)
    → count_of (put counters ch (suc (count_of counters ch))) channel
      ≡ (if ch == channel then suc (count_of counters channel) else count_of counters channel)
count_of-put counters ch channel =
    ground (arith, get-put counters ch channel (suc (count_of counters ch)), eq_iff ch channel)

module _ {S D R : Type 0} where
  unfoldable pub step : InboundDispatcher S D R × S → Call S D R → InboundDispatcher S D R × S
  step (d, s) (registers channel handler) = (register d channel handler, s)
  step (d, s) (dispatches event) = (dispatch d event s).0

  unfoldable pub call_all :
      InboundDispatcher S D R × S → List (Call S D R) → InboundDispatcher S D R × S
  call_all ds [] = ds
  call_all ds (c ∷ cs) = call_all (step ds c) cs

  -- The events of a channel among the calls, and its registrations.
  unfoldable pub events_of : String → List (Call S D R) → ℕ
  events_of channel [] = 0
  events_of channel (registers ch handler ∷ cs) = events_of channel cs
  events_of channel (dispatches event ∷ cs) =
      if event.channel == channel then suc (events_of channel cs) else events_of channel cs

  unfoldable pub registrations_of : String → List (Call S D R) → ℕ
  registrations_of channel [] = 0
  registrations_of channel (registers ch handler ∷ cs) =
      if ch == channel then suc (registrations_of channel cs) else registrations_of channel cs
  registrations_of channel (dispatches event ∷ cs) = registrations_of channel cs

  length-run_chain :
      (hs : List (Handler S D R)) (event : InboundEvent D) (s : S)
      → length (run_chain hs event s).1 ≡ length hs
  unfolding run_chain
  length-run_chain [] event s = refl
  length-run_chain (h ∷ hs) event s = ap suc (length-run_chain hs event (h event s).0)

  length-answers :
      (hs : List (Handler S D R)) (event : InboundEvent D) (s : S)
      → length (answers hs event s).1 ≡ max 1 (length hs)
  length-answers [] event s = refl
  length-answers (h ∷ hs) event s = omega (arith, length-run_chain (h ∷ hs) event s)

  chain_of-put :
      (d : InboundDispatcher S D R) (ch channel : String) (handler : Handler S D R)
      → length (chain_of (register d ch handler).handlers channel) ≡ (
          if ch == channel
          then suc (length (chain_of d.handlers channel))
          else length (chain_of d.handlers channel))
  unfolding register
  chain_of-put d ch channel handler =
      let hs = chain_of d.handlers ch ++ handler ∷ [] in
      ap (λ o. length (or_empty o)) (get-put d.handlers ch channel hs)
      ∙ elim (Bool-cases (ch == channel)) [
        | inl e ↦
            let same : ch ≡ channel = (eq_iff ch channel).0 e in
            rw e (
              length-append (chain_of d.handlers ch) (handler ∷ [])
              ∙ omega (arith, ap (λ k. length (chain_of d.handlers k)) same))
        | inr e ↦ rw e
      ]

  count-call_all :
      (d : InboundDispatcher S D R) (s : S) (cs : List (Call S D R)) (channel : String)
      → count_of (call_all (d, s) cs).0.counters channel
        ≡ count_of d.counters channel + events_of channel cs
  unfolding call_all step events_of register dispatch
  count-call_all d s [] channel = omega arith
  count-call_all d s (registers ch handler ∷ cs) channel =
      count-call_all (register d ch handler) s cs channel
  count-call_all d s (dispatches event ∷ cs) channel =
      let (d', s') = (dispatch d event s).0 in
      ground (arith, count-call_all d' s' cs channel, count_of-put d.counters event.channel channel)

  chain-call_all :
      (d : InboundDispatcher S D R) (s : S) (cs : List (Call S D R)) (channel : String)
      → length (chain_of (call_all (d, s) cs).0.handlers channel)
        ≡ length (chain_of d.handlers channel) + registrations_of channel cs
  unfolding call_all step registrations_of dispatch
  chain-call_all d s [] channel = omega arith
  chain-call_all d s (registers ch handler ∷ cs) channel = ground (
    arith,
    chain-call_all (register d ch handler) s cs channel,
    chain_of-put d ch channel handler,
  )
  chain-call_all d s (dispatches event ∷ cs) channel =
      let (d', s') = (dispatch d event s).0 in chain-call_all d' s' cs channel

  -- After any registrations and events of a new dispatcher, the counter of a channel is the number of its
  -- events, whether they had a handler or not, and an event gets one reply for each registration of
  -- its channel, whatever the handlers raise, or a single reply if there is none.
  pub dispatch-counts :
      (s : S) (cs : List (Call S D R)) (event : InboundEvent D)
      → let (d, s') = call_all (init, s) cs in
        (count_of d.counters event.channel ≡ events_of event.channel cs)
        × (length (dispatch d event s').1 ≡ max 1 (registrations_of event.channel cs))
  unfolding dispatch get
  dispatch-counts s cs event =
      let (d, s') = call_all (init, s) cs in
      (
        count-call_all init s cs event.channel ∙ omega arith,
        length-answers (chain_of d.handlers event.channel) event s'
            ∙ omega (arith, chain-call_all init s cs event.channel),
      )
