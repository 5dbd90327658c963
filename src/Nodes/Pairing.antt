-- ===== src/Nodes/Pairing.antt =====
-- nodes/pairing.py: short-lived pairing tokens and the nodes that were paired by them.
pub mod Tokens
use plugin_baselithbot.Lists.{length}
use plugin_baselithbot.Common.{
  ℕ, ◌+◌, ◌*◌, String, Bool, not, ◌&&◌, Option, none, some, List, [], ◌==◌, ltb, if◌then◌else◌,
  is_some,
}
use plugin_baselithbot.Clock.{second}
use plugin_baselithbot.Text.{is_empty}
use plugin_baselithbot.Dict.{Dict, get, put, remove, retain, values, keys, remove_all}

pub data PairingError : Type 0 where
  unknown_token token_expired platform_mismatch : PairingError

pub record PairingResult : Type 0 where
  pub node_id : String
  pub platform : String
  pub paired_at : ℕ

pub record PendingToken : Type 0 where
  pub token : String
  pub expires_at : ℕ
  pub platform : Option String

pub record NodePairing : Type 0 where
  pub pending : Dict PendingToken
  pub paired : Dict PairingResult
  pub ttl : ℕ

-- _DEFAULT_TTL_SECONDS
abbrev pub default_ttl : ℕ
default_ttl = 300 * second

abbrev pub init : ℕ → NodePairing
init ttl = record { pending = []; paired = []; ttl = ttl }

-- `token` is what `secrets.token_urlsafe` returns.
unfoldable pub issue_token : NodePairing → String → Option String → ℕ → NodePairing
issue_token p token platform now = record p {
  pending =
      put p.pending token (record { token = token; expires_at = now + p.ttl; platform = platform });
}

-- The checks on a token that was taken out of the table.
unfoldable pub refusal : PendingToken → String → ℕ → Option PairingError
refusal t platform now = if ltb t.expires_at now then some token_expired else elim t.platform [
  | none ↦ none
  | some expected ↦
      if not (is_empty expected) && not (expected == platform) then some platform_mismatch else none
]

-- The answer of a handshake: the node that was paired, or the error that was raised.
pub data Answer : Type 0 where
  paired_as : PairingResult → Answer
  raised : PairingError → Answer

unfoldable pub register_handshake :
    NodePairing → String → String → String → ℕ → NodePairing × Answer
unfolding refusal
register_handshake p token node_id platform now = elim (get p.pending token) [
  | none ↦ (p, raised unknown_token)
  | some t ↦
      let p' : NodePairing = record p { pending = remove p.pending token } in
      let result : PairingResult = record {
        node_id = node_id;
        platform = platform;
        paired_at = now;
      } in
      elim (refusal t platform now) [
        | some e ↦ (p', raised e)
        | none ↦ (record p' { paired = put p.paired node_id result }, paired_as result)
      ]
]

unfoldable pub list_paired : NodePairing → List PairingResult
list_paired p = values p.paired

unfoldable pub revoke : NodePairing → String → NodePairing × Bool
revoke p node_id = (record p { paired = remove p.paired node_id }, is_some (get p.paired node_id))

-- The number of tokens that were dropped stands beside the state.
unfoldable pub prune_expired : NodePairing → ℕ → NodePairing × ℕ
prune_expired p now =
    let expired = keys (retain (λ token t. ltb t.expires_at now) p.pending) in
    (record p { pending = remove_all p.pending expired }, length expired)
