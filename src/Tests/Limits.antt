-- ===== src/Tests/Limits.antt =====
-- Inputs for the rate limiter, the channel policies and the host rules.
use plugin_baselithbot.Dict.{get, put}
use plugin_baselithbot.Common.{
  ℕ, ◌-◌, ◌≤◌, String, ◌≡◌, refl, Bool, true, false, none, some, List, [], ◌∷◌, arith, ◌==◌,
}
use plugin_baselithbot.Policies.RateLimit.{init, consume, run}
use plugin_baselithbot.Policies.RateLimit.Spec.{times, decide_all, accepted, count_within}
use plugin_baselithbot.Policies.RateLimit.Refines.{run-refines, run-window_bound}
use plugin_baselithbot.Policies.DmPolicy.{
  ChannelPolicy, DmPairingPolicy, Reason, limiter_key, configure, evaluate, decision, no_policy,
}
use plugin_baselithbot.Policies.DmPolicy
use plugin_baselithbot.Policies.DmPolicy.Rate.{Inbound, let_through, let_through-window_bound}
use plugin_baselithbot.Policies.HostAcl.{allow, deny, HostAclRule}

abbrev calls : List (String × ℕ)
calls = ("a", 0) ∷ ("a", 3) ∷ ("b", 4) ∷ ("a", 5) ∷ ("a", 12) ∷ []

run_answers : run (init 10 2) calls ≡ true ∷ true ∷ true ∷ false ∷ true ∷ []
unfolding run consume get put
run_answers = refl

run-refines_example : run (init 10 2) calls ≡ decide_all 10 2 [] calls
run-refines_example = run-refines 10 2 calls (omega arith)

run-window_bound_example :
    count_within (12 - 10) 12 (times "a" (accepted calls (run (init 10 2) calls))) ≤ 2
run-window_bound_example = run-window_bound 10 2 calls "a" 12 (omega arith)

abbrev ops_policy : ChannelPolicy
ops_policy = record {
  dm_only = true;
  allowed_senders = "ann" ∷ "bob" ∷ [];
  blocked_senders = "bob" ∷ [];
  rate_limit_window_s = 10;
  rate_limit_max_events = 2;
}

abbrev messages : List Inbound
messages =
    (some "ann", true, 0)
    ∷ (some "bob", true, 1)
    ∷ (none, true, 2)
    ∷ (some "ann", false, 3)
    ∷ (some "ann", true, 4)
    ∷ (some "ann", true, 5)
    ∷ []

let_through_messages :
    let_through (configure DmPolicy.init "irc" ops_policy) "irc" messages
    ≡ ("irc:ann", 0) ∷ ("irc:ann", 4) ∷ []
unfolding let_through configure evaluate consume get put
let_through_messages = refl

let_through-window_bound_example :
    count_within
      (9 - ops_policy.rate_limit_window_s)
      9
      (times "irc:ann" (let_through (configure DmPolicy.init "irc" ops_policy) "irc" messages))
    ≤ ops_policy.rate_limit_max_events
let_through-window_bound_example =
    let_through-window_bound DmPolicy.init "irc" ops_policy messages "irc:ann" 9 (omega arith)

abbrev one_channel : DmPairingPolicy
one_channel = record { policies = ("irc", ops_policy) ∷ []; limiters = ("irc", init 10 2) ∷ [] }

-- A search that finds a pattern in the text of the arguments where both are the same.
abbrev same_text : String → String → Bool
same_text pattern blob = pattern == blob

abbrev deny_all : HostAclRule
deny_all = record { name = "deny"; action = "shell_run"; pattern_text = none; effect = deny }

abbrev allow_click : HostAclRule
allow_click = record {
  name = "click";
  action = "mouse_click";
  pattern_text = some "{}";
  effect = allow;
}
