-- ===== src/Tests/Webhooks.antt =====
-- Inputs for inbound webhooks.
use plugin_baselithbot.Strings.{joined, starts_with}
use plugin_baselithbot.Numerals.{int}
use plugin_baselithbot.Text.{lower_eq, strip}
use plugin_baselithbot.Dict.{Dict, get}
use plugin_baselithbot.Inbound.Signatures.{Crypto, verify_slack_signature}
use plugin_baselithbot.Inbound.Auth.{
  Env, accepted, unavailable, unauthorized, kind_of, insecure_bypass, missing_secret,
  verify_inbound_request,
}
use plugin_baselithbot.Inbound.Auth.Closed.{IsAdmitted, verify-IsAdmitted}
use plugin_baselithbot.Inbound.Dispatcher.{
  InboundEvent, returns, raises, Handler, InboundDispatcher, init,
}
use plugin_baselithbot.Inbound.Counts.{Call, registers, dispatches, call_all}
use plugin_baselithbot.Slices.{negsuc}
use plugin_baselithbot.Common.{ℕ, ◌≡◌, refl, suc, String, none, some, List, [], ◌∷◌, ◌==◌}

-- A keyed digest that is the key itself.
abbrev toy : Crypto
toy = record {
  hmac_sha256 = λ secret payload. secret;
  hmac_sha1 = λ secret payload. secret;
  ed25519 = λ key payload signature. key == signature;
}

abbrev slack_env : Env
slack_env = record {
  slack_signing_secret = " shh ";
  telegram_webhook_secret = "";
  discord_public_key = "";
  generic_secret = "";
  insecure = "0";
}

abbrev slack_headers : Dict String
slack_headers = ("x-slack-request-timestamp", "1000") ∷ ("x-slack-signature", "v0=shh") ∷ []

slack_accepted :
    verify_inbound_request toy slack_env " Slack " slack_headers "body" 1100000 ≡ accepted
unfolding verify_inbound_request verify_slack_signature strip get starts_with joined lower_eq int
slack_accepted = refl

late_refused :
    verify_inbound_request toy slack_env "slack" slack_headers "body" 1400000
    ≡ unauthorized "Slack timestamp outside skew window"
unfolding verify_inbound_request strip get lower_eq int
late_refused = refl

closed :
    verify_inbound_request toy slack_env "discord" [] "body" 1100000
    ≡ unavailable "DISCORD_PUBLIC_KEY"
unfolding verify_inbound_request strip get missing_secret insecure_bypass lower_eq
closed = refl

verify-IsAdmitted_example :
    IsAdmitted toy slack_env (kind_of " Slack ") slack_headers "body" 1100000
verify-IsAdmitted_example =
    verify-IsAdmitted toy slack_env " Slack " slack_headers "body" 1100000 slack_accepted

-- A handler that counts, and one that raises.
abbrev counts_handler : Handler ℕ ℕ String
counts_handler event n = (suc n, returns "ok")

abbrev fails_handler : Handler ℕ ℕ String
fails_handler event n = (n, raises "boom")

abbrev hello : InboundEvent ℕ
hello = record { channel = "slack"; sender = none; text = "hi"; raw = 0; received_at = 5 }

abbrev history_of_calls : List (Call ℕ ℕ String)
history_of_calls =
    registers "slack" fails_handler ∷ registers "slack" counts_handler ∷ dispatches hello ∷ []

abbrev served : InboundDispatcher ℕ ℕ String × ℕ
served = call_all (init, 0) history_of_calls

int_of_minus_12 : int " -1_2 " ≡ some (negsuc 11)
unfolding int strip
int_of_minus_12 = refl
