-- ===== src/Inbound/Auth.antt =====
-- inbound/auth.py: the authentication of webhooks, channel by channel. The environment's variables read
-- as the empty text when they are not set; the headers have their names in lower case, as the router
-- passes them.
pub mod Closed
use plugin_baselithbot.Numerals.{int}
use plugin_baselithbot.Text.{is_empty, lower_eq, strip}
use plugin_baselithbot.Dict.{Dict, get}
use plugin_baselithbot.Lists.{contains}
use plugin_baselithbot.Inbound.Signatures.{
  Crypto, distance, sha256, verify_hmac_signature, verify_slack_signature,
  verify_telegram_secret_token, verify_discord_signature,
}
use plugin_baselithbot.Clock.{second}
use plugin_baselithbot.Common.{
  ℕ, ◌*◌, String, Bool, true, ◌||◌, none, some, List, ◌∷◌, ltb, if◌then◌else◌,
}

pub record Env : Type 0 where
  pub slack_signing_secret : String
  pub telegram_webhook_secret : String
  pub discord_public_key : String
  pub generic_secret : String
  pub insecure : String

-- `InboundAuthError`: 503 with the variable that is not set, or 401 with the reason.
pub data AuthResult : Type 0 where
  accepted : AuthResult
  unavailable unauthorized : String → AuthResult

pub data ChannelKind : Type 0 where
  slack telegram discord generic : ChannelKind

-- The branch for channel.strip().lower().
unfoldable pub kind_of : String → ChannelKind
kind_of channel =
    let name = strip channel in
    if lower_eq "slack" name
    then slack
    else if lower_eq "telegram" name
    then telegram
    else if lower_eq "discord" name
    then discord
    else generic

-- _SLACK_TIMESTAMP_SKEW_SECONDS
abbrev pub slack_skew : ℕ
slack_skew = 300 * second

unfoldable pub insecure_bypass : Env → Bool
insecure_bypass env =
    lower_eq "1" (strip env.insecure)
    || lower_eq "true" (strip env.insecure)
    || lower_eq "yes" (strip env.insecure)

-- headers.get(name, "")
abbrev pub header : Dict String → String → String
header headers name = elim (get headers name) [ none ↦ "" | some v ↦ v ]

-- Without a secret the request is accepted in the open mode only. The set of the channels that were
-- warned about is left out with the log lines.
unfoldable pub missing_secret : Env → String → AuthResult
missing_secret env env_var = if insecure_bypass env then accepted else unavailable env_var

module _ (crypto : Crypto) where
  unfoldable pub verify_slack : Env → Dict String → String → ℕ → AuthResult
  verify_slack env headers body now =
      let secret = strip env.slack_signing_secret in
      let timestamp = strip (header headers "x-slack-request-timestamp") in
      let signature = strip (header headers "x-slack-signature") in
      if is_empty secret
      then missing_secret env "SLACK_SIGNING_SECRET"
      else if is_empty timestamp || is_empty signature
      then unauthorized "missing Slack signature headers"
      else elim (int timestamp) [
        | none ↦ unauthorized "invalid Slack timestamp"
        | some t ↦
            if ltb slack_skew (distance now t)
            then unauthorized "Slack timestamp outside skew window"
            else if verify_slack_signature crypto secret timestamp body signature
            then accepted
            else unauthorized "invalid Slack signature"
      ]

  unfoldable pub verify_telegram : Env → Dict String → AuthResult
  verify_telegram env headers =
      let secret = strip env.telegram_webhook_secret in
      if is_empty secret
      then missing_secret env "TELEGRAM_WEBHOOK_SECRET"
      else if verify_telegram_secret_token crypto secret
          (header headers "x-telegram-bot-api-secret-token")
      then accepted
      else unauthorized "invalid Telegram secret token"

  unfoldable pub verify_discord : Env → Dict String → String → AuthResult
  verify_discord env headers body =
      let public_key = strip env.discord_public_key in
      let signature = strip (header headers "x-signature-ed25519") in
      let timestamp = strip (header headers "x-signature-timestamp") in
      if is_empty public_key
      then missing_secret env "DISCORD_PUBLIC_KEY"
      else if is_empty signature || is_empty timestamp
      then unauthorized "missing Discord signature headers"
      else if verify_discord_signature crypto public_key timestamp body signature
      then accepted
      else unauthorized "invalid Discord signature"

  unfoldable pub verify_generic : Env → Dict String → String → AuthResult
  verify_generic env headers body =
      let secret = strip env.generic_secret in
      let signature = strip (header headers "x-baselithbot-signature") in
      if is_empty secret
      then missing_secret env "BASELITHBOT_INBOUND_GENERIC_SECRET"
      else if is_empty signature
      then unauthorized "missing X-Baselithbot-Signature header"
      else if verify_hmac_signature crypto secret body signature sha256
      then accepted
      else unauthorized "invalid X-Baselithbot-Signature"

  abbrev pub verify_kind : ChannelKind → Env → Dict String → String → ℕ → AuthResult
  verify_kind slack env headers body now = verify_slack env headers body now
  verify_kind telegram env headers body now = verify_telegram env headers
  verify_kind discord env headers body now = verify_discord env headers body
  verify_kind generic env headers body now = verify_generic env headers body

  unfoldable pub verify_inbound_request : Env → String → Dict String → String → ℕ → AuthResult
  unfolding kind_of verify_slack verify_telegram verify_discord verify_generic
  verify_inbound_request env channel headers body now =
      verify_kind (kind_of channel) env headers body now
