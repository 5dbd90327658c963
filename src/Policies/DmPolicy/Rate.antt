-- ===== src/Policies/DmPolicy/Rate.antt =====
-- The rate limit of a channel, through the whole policy.
use plugin_baselithbot.Common.{
  ℕ, ◌-◌, ◌≤◌, String, ◌≡◌, refl, inl, inr, Bool, Option, some, List, [], ◌∷◌, arith, eq_refl,
  if◌then◌else◌, Bool-cases,
}
--USE Text
--USE Lists
use plugin_baselithbot.Dict.{get, get-put}
use plugin_baselithbot.Policies.DmPolicy.{
  ChannelPolicy, DmPairingPolicy, configure, limiter_key, evaluate,
}
use plugin_baselithbot.Policies.DmPolicy.Decisions.{is_admitted, evaluate-allowed}
use plugin_baselithbot.Policies.RateLimit.{RateLimiter, consume, run}
use plugin_baselithbot.Policies.RateLimit
use plugin_baselithbot.Policies.RateLimit.Spec.{Entry, times, Ascending, accepted, count_within}
use plugin_baselithbot.Policies.RateLimit.Refines.{run-window_bound}

-- A message to the channel: its sender, whether it is a direct message, and its time.
abbrev pub Inbound : Type 0
Inbound = Option String × Bool × ℕ

-- The messages that the channel lets through, each with its limiter key and its time.
unfoldable pub let_through : DmPairingPolicy → String → List Inbound → List Entry
let_through p channel [] = []
let_through p channel ((sender, is_dm, now) ∷ messages) =
    let (p', d) = evaluate p channel sender is_dm now in
    let rest = let_through p' channel messages in
    if d.allowed then (limiter_key channel sender, now) ∷ rest else rest

-- The calls that reach the limiter.
reaching : ChannelPolicy → String → List Inbound → List Entry
reaching policy channel [] = []
reaching policy channel ((sender, is_dm, now) ∷ messages) =
    let rest = reaching policy channel messages in
    if is_admitted policy sender is_dm then (limiter_key channel sender, now) ∷ rest else rest

-- The times of the messages do not fall.
abbrev pub InOrder : ℕ → List Inbound → Type 0
InOrder start [] = Unit
InOrder start ((sender, is_dm, now) ∷ messages) = (start ≤ now) × InOrder now messages

Ascending-weaken : (a b : ℕ) (calls : List Entry) → a ≤ b → Ascending b calls → Ascending a calls
Ascending-weaken a b [] h c = tt
Ascending-weaken a b ((k, t) ∷ calls) h c = (omega arith, c.1)

reaching-Ascending :
    (policy : ChannelPolicy) (channel : String) (start : ℕ) (messages : List Inbound)
    → InOrder start messages
    → Ascending start (reaching policy channel messages)
unfolding reaching
reaching-Ascending policy channel start [] h = tt
reaching-Ascending policy channel start ((sender, is_dm, now) ∷ messages) h =
    let rest = reaching-Ascending policy channel now messages h.1 in
    elim (Bool-cases (is_admitted policy sender is_dm)) [
      | inl e ↦ rw e (h.0, rest)
      | inr e ↦ rw e (Ascending-weaken start now (reaching policy channel messages) h.0 rest)
    ]

let_through-accepted :
    (p : DmPairingPolicy) (channel : String) (messages : List Inbound) (policy : ChannelPolicy)
    (l : RateLimiter)
    → get p.policies channel ≡ some policy
    → get p.limiters channel ≡ some l
    → let_through p channel messages
      ≡ accepted (reaching policy channel messages) (run l (reaching policy channel messages))
unfolding let_through reaching accepted run
let_through-accepted p channel [] policy l e h = refl
let_through-accepted p channel ((sender, is_dm, now) ∷ messages) policy l e h =
    let key = limiter_key channel sender in
    let (allowed, next) = evaluate-allowed p channel sender is_dm now policy l e h in
    let l' = (consume l key now).0 in
    elim (Bool-cases (is_admitted policy sender is_dm)) [
      | inl a ↦
          let same : get (evaluate p channel sender is_dm now).0.policies channel ≡ some policy =
            ground arith in
          let there : get (evaluate p channel sender is_dm now).0.limiters channel ≡ some l' =
            ground (arith, get-put p.limiters channel channel l', eq_refl channel) in
          ground (
            arith,
            let_through-accepted (evaluate p channel sender is_dm now).0 channel messages policy l'
                same there,
          )
      | inr a ↦ ground (arith, let_through-accepted p channel messages policy l e h)
    ]

-- For messages at times that do not fall to a channel that was just configured, no more than the
-- policy's number of messages of one limiter key are let through in any closed window of the policy's
-- length, whatever their senders, their kinds and the refusals between them.
pub let_through-window_bound :
    (p : DmPairingPolicy) (channel : String) (policy : ChannelPolicy) (messages : List Inbound)
    (key : String) (end_time : ℕ)
    → InOrder 0 messages
    → count_within
        (end_time - policy.rate_limit_window_s)
        end_time
        (times key (let_through (configure p channel policy) channel messages))
      ≤ policy.rate_limit_max_events
unfolding configure
let_through-window_bound p channel policy messages key end_time h =
    let l = RateLimit.init policy.rate_limit_window_s policy.rate_limit_max_events in
    rw
      (let_through-accepted (configure p channel policy) channel messages policy l
        (rw (get-put p.policies channel channel policy, eq_refl channel))
        (rw (get-put p.limiters channel channel l, eq_refl channel)))
      (run-window_bound policy.rate_limit_window_s policy.rate_limit_max_events
        (reaching policy channel messages) key end_time
        (reaching-Ascending policy channel 0 messages h))
