-- ===== src/Tests/Access.antt =====
-- Inputs for the guard of the dashboard and for the pairing of nodes.
use plugin_baselithbot.Common.{
  String, ◌≤◌, ◌≡◌, ◌⊎◌, refl, false, ◌&&◌, ◌==◌, if◌then◌else◌, none, some, [], ◌∷◌,
}
use plugin_baselithbot.Policies.DashboardAuth.{
  DashboardAuth, Request, pass, unauthorized, forbidden, type_error, is_ascii, check, extract_token,
}
use plugin_baselithbot.Policies.DashboardAuth.Guard.{Bears, has_live_ticket, check_configured}
use plugin_baselithbot.Policies.DashboardAuth.Tickets.{
  mints, checks, uses, mintings, uses-le_mintings,
}
use plugin_baselithbot.Nodes.Pairing.{init}
use plugin_baselithbot.Nodes.Pairing.Tokens
use plugin_baselithbot.Nodes.Pairing.Tokens.{
  pairings, issuings, fits, pairings-le_issuings, issued_once, issues, handshakes,
}

abbrev guarded : DashboardAuth
guarded = record {
  token = some "s3cret";
  allow_insecure = false;
  warned = false;
  stream_tickets = [];
}

abbrev bearer : Request
bearer = record { authorization = "Bearer  s3cret "; accept = ""; query_params = [] }

abbrev stream : Request
stream = record {
  authorization = "";
  accept = "text/event-stream";
  query_params = ("ticket", " t1 ") ∷ [];
}

bearer_token : extract_token bearer ≡ some "s3cret"
unfolding extract_token
bearer_token = refl

check_configured_example :
    ((presented : String) × Bears bearer presented
      × ((check guarded bearer 5).1 ≡ (
          if is_ascii presented && is_ascii "s3cret"
          then (if presented == "s3cret" then pass else forbidden)
          else type_error)))
    ⊎ (((presented : String) → ¬ (Bears bearer presented))
        × ((check guarded bearer 5).1
            ≡ (if has_live_ticket guarded bearer 5 then pass else unauthorized)))
check_configured_example = check_configured guarded bearer 5 "s3cret" refl

uses-le_mintings_example :
    uses "t1" guarded (mints "t1" 0 ∷ checks stream 10 ∷ checks stream 20 ∷ [])
    ≤ mintings "t1" (mints "t1" 0 ∷ checks stream 10 ∷ checks stream 20 ∷ [])
uses-le_mintings_example =
    uses-le_mintings "t1" guarded (mints "t1" 0 ∷ checks stream 10 ∷ checks stream 20 ∷ []) refl

pairings-le_issuings_example :
    pairings "tok" (init 300) (
      Tokens.issues "tok" none 0
      ∷ Tokens.handshakes "tok" "mac" "macos" 10
      ∷ Tokens.handshakes "tok" "ios" "ios" 20
      ∷ [])
    ≤ issuings "tok" (
        Tokens.issues "tok" none 0
        ∷ Tokens.handshakes "tok" "mac" "macos" 10
        ∷ Tokens.handshakes "tok" "ios" "ios" 20
        ∷ [])
pairings-le_issuings_example = pairings-le_issuings 300 "tok" (
    Tokens.issues "tok" none 0
    ∷ Tokens.handshakes "tok" "mac" "macos" 10
    ∷ Tokens.handshakes "tok" "ios" "ios" 20
    ∷ [])
