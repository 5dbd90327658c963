-- ===== src/Inbound/Auth/Closed.antt =====
-- inbound/auth.py: what a request that is accepted must have shown.
use plugin_baselithbot.Strings.{joined}
use plugin_baselithbot.Numerals.{int}
use plugin_baselithbot.Slices.{ℤ}
use plugin_baselithbot.Text.{is_empty, strip}
use plugin_baselithbot.Dict.{Dict}
use plugin_baselithbot.Inbound.Signatures.{
  Crypto, bare, distance, slack_base, verify_telegram_secret_token, verify_hmac_signature,
  verify_slack_signature, verify_discord_signature,
}
use plugin_baselithbot.Inbound.Auth.{
  Env, accepted, ChannelKind, slack, telegram, discord, generic, slack_skew, insecure_bypass,
  header, missing_secret, verify_telegram, kind_of, verify_slack, verify_discord, verify_generic,
  verify_inbound_request, verify_kind,
}
use plugin_baselithbot.Common.{
  ℕ, ◌≤◌, String, ◌≡◌, ◌⊎◌, inl, inr, true, false, some, arith, Bool-cases, eq_iff, ltb_false→le,
  Option-cases,
}

module _ (crypto : Crypto) where
  open crypto use {hmac_sha256, ed25519}

  abbrev pub secret_of : Env → ChannelKind → String
  secret_of env slack = strip env.slack_signing_secret
  secret_of env telegram = strip env.telegram_webhook_secret
  secret_of env discord = strip env.discord_public_key
  secret_of env generic = strip env.generic_secret

  -- The request carries the proof that its channel asks for, made with the secret.
  abbrev pub IsSigned : ChannelKind → String → Dict String → String → ℕ → Type 0
  IsSigned slack secret headers body now =
      let timestamp = strip (header headers "x-slack-request-timestamp") in
      (joined "v0=" (hmac_sha256 secret (slack_base crypto timestamp body))
        ≡ strip (header headers "x-slack-signature"))
      × ((t : ℤ) × (int timestamp ≡ some t) × distance now t ≤ slack_skew)
  IsSigned telegram secret headers body now =
      header headers "x-telegram-bot-api-secret-token" ≡ secret
  IsSigned discord secret headers body now =
      ed25519 secret (joined (strip (header headers "x-signature-timestamp")) body)
        (strip (header headers "x-signature-ed25519"))
      ≡ true
  IsSigned generic secret headers body now =
      hmac_sha256 secret body ≡ bare (strip (header headers "x-baselithbot-signature"))

  -- Accepted because the channel has a secret and the request is signed with it, or because there is no
  -- secret and the operator has opted in to the open mode.
  abbrev pub IsAdmitted : Env → ChannelKind → Dict String → String → ℕ → Type 0
  IsAdmitted env kind headers body now =
      ((is_empty (secret_of env kind) ≡ false)
        × IsSigned kind (secret_of env kind) headers body now)
      ⊎ ((is_empty (secret_of env kind) ≡ true) × (insecure_bypass env ≡ true))

  telegram-IsAdmitted :
      (env : Env) (headers : Dict String) (body : String) (now : ℕ)
      → verify_telegram crypto env headers ≡ accepted
      → IsAdmitted env telegram headers body now
  unfolding verify_telegram verify_telegram_secret_token missing_secret
  telegram-IsAdmitted env headers body now e =
      elim (Bool-cases (is_empty (strip env.telegram_webhook_secret))) [
        | inl h ↦ inr (h, ground arith)
        | inr h ↦
            let received = header headers "x-telegram-bot-api-secret-token" in
            inl (h, ground (arith, eq_iff (strip env.telegram_webhook_secret) received))
      ]

  discord-IsAdmitted :
      (env : Env) (headers : Dict String) (body : String) (now : ℕ)
      → verify_discord crypto env headers body ≡ accepted
      → IsAdmitted env discord headers body now
  unfolding verify_discord verify_discord_signature missing_secret
  discord-IsAdmitted env headers body now e =
      elim (Bool-cases (is_empty (strip env.discord_public_key))) [
        | inl h ↦ inr (h, ground arith)
        | inr h ↦ inl (h, ground arith)
      ]

  generic-IsAdmitted :
      (env : Env) (headers : Dict String) (body : String) (now : ℕ)
      → verify_generic crypto env headers body ≡ accepted
      → IsAdmitted env generic headers body now
  unfolding verify_generic verify_hmac_signature missing_secret
  generic-IsAdmitted env headers body now e =
      elim (Bool-cases (is_empty (strip env.generic_secret))) [
        | inl h ↦ inr (h, ground arith)
        | inr h ↦
            let signature = bare (strip (header headers "x-baselithbot-signature")) in
            inl (h, ground (arith, eq_iff (hmac_sha256 (strip env.generic_secret) body) signature))
      ]

  slack-IsAdmitted :
      (env : Env) (headers : Dict String) (body : String) (now : ℕ)
      → verify_slack crypto env headers body now ≡ accepted
      → IsAdmitted env slack headers body now
  unfolding verify_slack verify_slack_signature missing_secret
  slack-IsAdmitted env headers body now e =
      elim (Bool-cases (is_empty (strip env.slack_signing_secret))) [
        | inl h ↦ inr (h, ground arith)
        | inr h ↦
            let timestamp = strip (header headers "x-slack-request-timestamp") in
            let signature = strip (header headers "x-slack-signature") in
            let secret = strip env.slack_signing_secret in
            let expected = joined "v0=" (hmac_sha256 secret (slack_base crypto timestamp body)) in
            inl (
              h,
              elim (Option-cases (int timestamp)) [
                | inl n ↦ ground (arith, n)
                | inr (t, n) ↦ (
                  ground (arith, n, eq_iff expected signature),
                  (t, n, ground (arith, n, ltb_false→le slack_skew (distance now t))),
                )
              ],
            )
      ]

  verify_kind-IsAdmitted :
      (kind : ChannelKind) (env : Env) (headers : Dict String) (body : String) (now : ℕ)
      → verify_kind crypto kind env headers body now ≡ accepted
      → IsAdmitted env kind headers body now
  verify_kind-IsAdmitted slack env headers body now e = slack-IsAdmitted env headers body now e
  verify_kind-IsAdmitted telegram env headers body now e =
      telegram-IsAdmitted env headers body now e
  verify_kind-IsAdmitted discord env headers body now e = discord-IsAdmitted env headers body now e
  verify_kind-IsAdmitted generic env headers body now e = generic-IsAdmitted env headers body now e

  -- A request is accepted only if the secret of its channel is set and it is signed with it, for Slack
  -- with a timestamp at most five minutes away, or if there is no secret and the open mode is on.
  pub verify-IsAdmitted :
      (env : Env) (channel : String) (headers : Dict String) (body : String) (now : ℕ)
      → verify_inbound_request crypto env channel headers body now ≡ accepted
      → IsAdmitted env (kind_of channel) headers body now
  unfolding verify_inbound_request
  verify-IsAdmitted env channel headers body now e =
      verify_kind-IsAdmitted (kind_of channel) env headers body now e
