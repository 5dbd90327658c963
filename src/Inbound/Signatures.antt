-- ===== src/Inbound/Signatures.antt =====
-- inbound/signatures.py and inbound/verify.py: the signatures of webhooks. Bytes are texts of the code
-- points up to 255; `hmac.compare_digest` is equality.
use plugin_baselithbot.Strings.{joined, starts_with}
use plugin_baselithbot.Numerals.{int}
use plugin_baselithbot.Text.{is_empty, strip}
use plugin_baselithbot.Dict.{Dict, get, put}
use plugin_baselithbot.Common.{
  ℕ, suc, ◌+◌, ◌-◌, ◌*◌, max, String, Bool, false, not, ◌&&◌, ◌||◌, Option, none, some, List, [],
  ◌∷◌, ◌==◌, ltb, eqb, if◌then◌else◌,
}
use plugin_baselithbot.Slices.{ℤ, pos, negsuc}
use plugin_baselithbot.Clock.{second}
use Prim.Native.Char.{code}

-- `hmac` with SHA-256 and SHA-1 in hexadecimal, and the check of an Ed25519 signature by
-- `cryptography`: whether the key and the signature are hexadecimal
-- and the signature is the key's.
pub record Crypto : Type 0 where
  pub hmac_sha256 : String → String → String
  pub hmac_sha1 : String → String → String
  pub ed25519 : String → String → String → Bool

-- signature.split("=", 1)[1] if "=" in signature else signature
abbrev pub after_equals : String → Option String
after_equals String.[] = none
after_equals (String.◌∷◌ c s) = if eqb (code c) b'=' then some s else after_equals s

abbrev pub bare : String → String
bare signature = elim (after_equals signature) [ none ↦ signature | some s ↦ s ]

-- abs(now - t) for clocks in milliseconds and a timestamp in seconds
abbrev pub distance : ℕ → ℤ → ℕ
distance now (pos t) = max (now - t * second) (t * second - now)
distance now (negsuc t) = now + suc t * second

module _ (crypto : Crypto) where
  open crypto use {hmac_sha256, hmac_sha1, ed25519}

  -- The algorithms that `verify_hmac_signature` is documented for.
  pub data Algorithm : Type 0 where
    sha256 sha1 : Algorithm

  unfoldable pub verify_hmac_signature : String → String → String → Algorithm → Bool
  verify_hmac_signature secret payload signature algorithm =
      if is_empty signature then false else elim algorithm [
        | sha256 ↦ hmac_sha256 secret payload == bare signature
        | sha1 ↦ hmac_sha1 secret payload == bare signature
      ]

  abbrev pub slack_base : String → String → String
  slack_base timestamp body = joined "v0:" (joined timestamp (joined ":" body))

  unfoldable pub verify_slack_signature : String → String → String → String → Bool
  verify_slack_signature signing_secret timestamp body signature =
      if starts_with "v0=" signature
      then joined "v0=" (hmac_sha256 signing_secret (slack_base timestamp body)) == signature
      else false

  unfoldable pub verify_github_signature : String → String → String → Bool
  verify_github_signature secret body signature =
      if starts_with "sha256=" signature
      then joined "sha256=" (hmac_sha256 secret body) == signature
      else false

  unfoldable pub verify_telegram_secret_token : String → String → Bool
  verify_telegram_secret_token expected_token received_token =
      if is_empty received_token then false else expected_token == received_token

  unfoldable pub verify_discord_signature : String → String → String → String → Bool
  verify_discord_signature public_key_hex timestamp body signature_hex =
      not (is_empty public_key_hex)
      && not (is_empty timestamp)
      && not (is_empty signature_hex)
      && ed25519 public_key_hex (joined timestamp body) signature_hex

  -- What stands before and behind the first "=" of a chunk, stripped.
  abbrev pub key_value : String → Option (String × String)
  key_value String.[] = none
  key_value (String.◌∷◌ c s) =
      if eqb (code c) b'='
      then some ("", strip s)
      else elim (key_value s) [ none ↦ none | some (k, v) ↦ some (String.◌∷◌ c k, v) ]

  -- signature_header.split(","), which has at least one chunk
  abbrev pub chunks : String → String × List String
  chunks String.[] = ("", [])
  chunks (String.◌∷◌ c s) =
      let (first, rest) = chunks s in
      if eqb (code c) b',' then ("", first ∷ rest) else (String.◌∷◌ c first, rest)

  -- The dictionary of the parts of a Stripe header.
  abbrev pub parts_of : List String → Dict String → Dict String
  parts_of [] d = d
  parts_of (chunk ∷ rest) d = elim (key_value chunk) [
    | none ↦ parts_of rest d
    | some (k, v) ↦ parts_of rest (put d (strip k) v)
  ]

  abbrev pub part : Dict String → String → String
  part d k = elim (get d k) [ none ↦ "" | some v ↦ v ]

  unfoldable pub verify_stripe_signature : String → String → String → ℕ → ℕ → Bool
  verify_stripe_signature secret body signature_header tolerance_seconds now =
      let (first, rest) = chunks signature_header in
      let parts = parts_of (first ∷ rest) [] in
      let timestamp = part parts "t" in
      let sig = part parts "v1" in
      if is_empty timestamp || is_empty sig then false else elim (int timestamp) [
        | none ↦ false
        | some t ↦
            if ltb (tolerance_seconds * second) (distance now t)
            then false
            else hmac_sha256 secret (joined timestamp (joined "." body)) == sig
      ]
