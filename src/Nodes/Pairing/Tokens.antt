-- ===== src/Nodes/Pairing/Tokens.antt =====
-- A pairing token pairs at most one node, in its time, and on the platform that it was issued for.
use plugin_baselithbot.Common.{
  ℕ, suc, ◌+◌, ◌≤◌, String, ◌≡◌, Bool, true, ◌||◌, Option, none, some, List, [], ◌∷◌, arith, ◌==◌,
  eq_iff, eq_refl, ltb, leb, if◌then◌else◌, is_some,
}
use plugin_baselithbot.Text.{is_empty}
use plugin_baselithbot.Dict.{get, put, retain, keys, get-put, get-remove}
use plugin_baselithbot.Dict.Keys.{get-remove_all}
use plugin_baselithbot.Nodes.Pairing.{
  unknown_token, token_expired, platform_mismatch, PendingToken, NodePairing, init, issue_token,
  paired_as, raised, register_handshake, revoke, prune_expired,
}

pub data Op : Type 0 where
  issues : String → Option String → ℕ → Op
  handshakes : String → String → String → ℕ → Op
  revokes : String → Op
  prunes : ℕ → Op

unfoldable pub step : NodePairing → Op → NodePairing
step p (issues token platform now) = issue_token p token platform now
step p (handshakes token node_id platform now) = (register_handshake p token node_id platform now).0
step p (revokes node_id) = (revoke p node_id).0
step p (prunes now) = (prune_expired p now).0

-- 1 for a handshake that pairs a node by the token.
unfoldable pub pairs_by : String → NodePairing → Op → ℕ
pairs_by token p (handshakes t node_id platform now) =
    if t == token
    then elim (register_handshake p t node_id platform now).1 [ paired_as r ↦ 1 | raised e ↦ 0 ]
    else 0
pairs_by token p op = 0

unfoldable pub pairings : String → NodePairing → List Op → ℕ
pairings token p [] = 0
pairings token p (op ∷ ops) = pairs_by token p op + pairings token (step p op) ops

unfoldable pub issuings : String → List Op → ℕ
issuings token [] = 0
issuings token (issues t platform now ∷ ops) =
    if t == token then suc (issuings token ops) else issuings token ops
issuings token (op ∷ ops) = issuings token ops

abbrev held : String → NodePairing → ℕ
held token p = if is_some (get p.pending token) then 1 else 0

handshake-held :
    (token : String) (p : NodePairing) (t node_id platform : String) (now : ℕ)
    → pairs_by token p (handshakes t node_id platform now)
        + held token (register_handshake p t node_id platform now).0
      ≤ held token p
unfolding pairs_by register_handshake
handshake-held token p t node_id platform now =
    ground (arith, get-remove p.pending t token, eq_iff t token)

pairings-le :
    (token : String) (p : NodePairing) (ops : List Op)
    → pairings token p ops ≤ held token p + issuings token ops
unfolding pairings issuings step issue_token revoke prune_expired pairs_by
pairings-le token p [] = omega arith
pairings-le token p (issues t platform now ∷ ops) = ground (
  arith,
  pairings-le token (issue_token p t platform now) ops,
  get-put p.pending t token (record { token = t; expires_at = now + p.ttl; platform = platform }),
)
pairings-le token p (handshakes t node_id platform now ∷ ops) = ground (
  arith,
  handshake-held token p t node_id platform now,
  pairings-le token (register_handshake p t node_id platform now).0 ops,
)
pairings-le token p (revokes node_id ∷ ops) =
    omega (arith, pairings-le token (revoke p node_id).0 ops)
pairings-le token p (prunes now ∷ ops) =
    let expired = keys (retain (λ k t. ltb t.expires_at now) p.pending) in
    ground
      (arith, pairings-le token (prune_expired p now).0 ops, get-remove_all p.pending expired token)

-- From a new table, whatever tokens are issued, presented, revoked and pruned in whatever order, no
-- token pairs more nodes than it was issued times.
pub pairings-le_issuings :
    (ttl : ℕ) (token : String) (ops : List Op) → pairings token (init ttl) ops ≤ issuings token ops
unfolding get
pairings-le_issuings ttl token ops = omega (arith, pairings-le token (init ttl) ops)

-- The platforms on which a token may be used: any, or the one that it was issued for.
abbrev pub fits : Option String → String → Bool
fits none platform = true
fits (some expected) platform = is_empty expected || expected == platform

-- A token that was just issued pairs the node exactly if it is presented by its expiry and on a
-- platform that fits. Whether it did or not, the token is spent: a second handshake with it raises
-- the error for an unknown token.
pub issued_once :
    (p : NodePairing) (token node_id platform node_id' platform' : String)
    (expected : Option String) (now later again : ℕ)
    → let (p', answer) =
        register_handshake (issue_token p token expected now) token node_id platform later in
      (answer ≡ (
        if leb later (now + p.ttl)
        then if fits expected platform
          then paired_as (record { node_id = node_id; platform = platform; paired_at = later })
          else raised platform_mismatch
        else raised token_expired))
      × (register_handshake p' token node_id' platform' again ≡ (p', raised unknown_token))
unfolding register_handshake issue_token
issued_once p token node_id platform node_id' platform' expected now later again =
    let t : PendingToken = record {
      token = token;
      expires_at = now + p.ttl;
      platform = expected;
    } in
    let found = get-put p.pending token token t in
    let gone = get-remove (put p.pending token t) token token in
    (ground (arith, found, eq_refl token), ground (arith, found, gone, eq_refl token))
