-- ===== src/Policies/DmPolicy/Decisions.antt =====
-- When a channel lets a message through.
use plugin_baselithbot.Common.{
  ℕ, String, ◌≡◌, Bool, true, false, not, ◌&&◌, ◌||◌, Option, none, some, [], ◌∷◌, arith,
  if◌then◌else◌, is_some,
}
use plugin_baselithbot.Text.{is_empty}
use plugin_baselithbot.Lists.{contains}
use plugin_baselithbot.Dict.{get, put}
use plugin_baselithbot.Policies.DmPolicy.{
  ChannelPolicy, DmPairingPolicy, limiter_key, refusal, evaluate,
}
use plugin_baselithbot.Policies.RateLimit.{RateLimiter, consume}

-- The conditions on the sender and the kind of message, as the operator reads them.
abbrev pub is_admitted : ChannelPolicy → Option String → Bool → Bool
is_admitted policy none is_dm =
    (not policy.dm_only || is_dm) && elim policy.allowed_senders [ [] ↦ true | _ ∷ _ ↦ false ]
is_admitted policy (some s) is_dm =
    (not policy.dm_only || is_dm)
    && (is_empty s || not (contains s policy.blocked_senders))
    && elim policy.allowed_senders [ [] ↦ true | a ∷ rest ↦ contains s (a ∷ rest) ]

refusal-is_admitted :
    (policy : ChannelPolicy) (sender : Option String) (is_dm : Bool)
    → is_some (refusal policy sender is_dm) ≡ not (is_admitted policy sender is_dm)
unfolding refusal
refusal-is_admitted policy none is_dm = ground arith
refusal-is_admitted policy (some s) is_dm = ground arith

-- On a channel with a policy and a limiter, a message is allowed exactly when it is a direct message or
-- the policy takes others, its sender is not blocked, its sender is on the allowlist if there is one,
-- and the limiter of the channel accepts it. A message that fails a check of the sender or its kind
-- counts no event: it leaves every limiter as it was.
pub evaluate-allowed :
    (p : DmPairingPolicy) (channel : String) (sender : Option String) (is_dm : Bool) (now : ℕ)
    (policy : ChannelPolicy) (l : RateLimiter)
    → get p.policies channel ≡ some policy
    → get p.limiters channel ≡ some l
    → ((evaluate p channel sender is_dm now).1.allowed
        ≡ (is_admitted policy sender is_dm && (consume l (limiter_key channel sender) now).1))
      × (evaluate p channel sender is_dm now).0 ≡ (
          if is_admitted policy sender is_dm
          then record p {
            limiters = put p.limiters channel (consume l (limiter_key channel sender) now).0;
          }
          else p)
unfolding evaluate
evaluate-allowed p channel sender is_dm now policy l e h =
    ground (arith, refusal-is_admitted policy sender is_dm)
