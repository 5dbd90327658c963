-- ===== src/Policies/DmPolicy.antt =====
-- policies/dm_policy.py: the table of channel policies, each with a rate limiter.
pub mod Decisions
pub mod Rate
use Prim.Native.String.{◌++◌ as str_append}
use plugin_baselithbot.Common.{
  ℕ, String, Bool, true, false, not, ◌&&◌, Option, none, some, List, [], ◌∷◌, ◌++◌, if◌then◌else◌,
}
use plugin_baselithbot.Text.{is_empty}
use plugin_baselithbot.Lists.{contains}
use plugin_baselithbot.Dict.{Dict, get, put}
use plugin_baselithbot.Policies.RateLimit.{RateLimiter, consume}
use plugin_baselithbot.Policies.RateLimit

pub record ChannelPolicy : Type 0 where
  pub dm_only : Bool
  pub allowed_senders : List String
  pub blocked_senders : List String
  pub rate_limit_window_s : ℕ
  pub rate_limit_max_events : ℕ

pub record DmPairingPolicy : Type 0 where
  pub policies : Dict ChannelPolicy
  pub limiters : Dict RateLimiter

pub data Reason : Type 0 where
  no_policy dm_only_violated rate_limit_exceeded all_checks_passed : Reason
  sender_blocked : String → Reason
  sender_not_allowed : Option String → Reason

-- `remaining` is the entry of that name in `metadata`.
pub record PolicyDecision : Type 0 where
  pub allowed : Bool
  pub reason : Reason
  pub remaining : Option ℕ

abbrev pub init : DmPairingPolicy
init = record { policies = []; limiters = [] }

unfoldable pub configure : DmPairingPolicy → String → ChannelPolicy → DmPairingPolicy
configure p channel policy = record {
  policies = put p.policies channel policy;
  limiters =
      put p.limiters channel
        (RateLimit.init policy.rate_limit_window_s policy.rate_limit_max_events);
}

abbrev pub decision : Bool → Reason → PolicyDecision
decision allowed reason = record { allowed = allowed; reason = reason; remaining = none }

-- f"{channel}:{sender or '*'}"
unfoldable pub limiter_key : String → Option String → String
limiter_key channel none = str_append channel ":*"
limiter_key channel (some s) =
    if is_empty s then str_append channel ":*" else str_append (str_append channel ":") s

-- The checks of a configured policy that do not count events: the refusal, if there is one.
unfoldable pub refusal : ChannelPolicy → Option String → Bool → Option Reason
unfolding contains
refusal policy sender is_dm =
    if policy.dm_only && not is_dm then some dm_only_violated else elim sender [
      | none ↦ elim policy.allowed_senders [ [] ↦ none | _ ∷ _ ↦ some (sender_not_allowed none) ]
      | some s ↦
          if not (is_empty s) && contains s policy.blocked_senders
          then some (sender_blocked s)
          else elim policy.allowed_senders [
            | [] ↦ none
            | a ∷ rest ↦ if contains s (a ∷ rest) then none else some (sender_not_allowed (some s))
          ]
    ]

-- The last check: the limiter of the channel is a shared object, which the call changes.
unfoldable pub limited :
    DmPairingPolicy → String → Option String → ℕ → DmPairingPolicy × PolicyDecision
unfolding limiter_key
limited p channel sender now = elim (get p.limiters channel) [
  | none ↦ (p, decision true all_checks_passed)
  | some l ↦
      let (l', accepted) = consume l (limiter_key channel sender) now in
      let p' : DmPairingPolicy = record p { limiters = put p.limiters channel l' } in
      if accepted
      then (p', decision true all_checks_passed)
      else (p', record { allowed = false; reason = rate_limit_exceeded; remaining = some 0 })
]

unfoldable pub evaluate :
    DmPairingPolicy → String → Option String → Bool → ℕ → DmPairingPolicy × PolicyDecision
unfolding refusal limited
evaluate p channel sender is_dm now = elim (get p.policies channel) [
  | none ↦ (p, decision true no_policy)
  | some policy ↦ elim (refusal policy sender is_dm) [
    | some reason ↦ (p, decision false reason)
    | none ↦ limited p channel sender now
  ]
]

-- `require` raises `PolicyDenied` with the reason of a refusal.
unfoldable pub require :
    DmPairingPolicy → String → Option String → Bool → ℕ → DmPairingPolicy × Option Reason
unfolding evaluate
require p channel sender is_dm now =
    let (p', d) = evaluate p channel sender is_dm now in
    (p', if d.allowed then none else some d.reason)
