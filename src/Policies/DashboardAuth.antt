-- ===== src/Policies/DashboardAuth.antt =====
-- policies/dashboard_auth.py: the bearer-token guard of the dashboard and its single-use stream tickets.
-- `hmac.compare_digest` is equality of ASCII texts and raises a `TypeError` for any other;
-- `secrets.token_urlsafe` and the clock are arguments.
pub mod Tickets
pub mod Guard
use plugin_baselithbot.Common.{
  ℕ, ◌+◌, ◌*◌, String, Bool, true, false, not, ◌&&◌, ◌||◌, Option, none, some, [], ◌==◌, ltb,
  if◌then◌else◌,
}
use Prim.Native.Char.{code}
use plugin_baselithbot.Clock.{second}
use plugin_baselithbot.Text.{
  is_empty, lower_starts_with, lower_eq, strip, after_space, non_empty, truthy,
}
use plugin_baselithbot.Dict.{Dict, get, put, remove, retain}

-- STREAM_TICKET_TTL_SECONDS
abbrev pub stream_ticket_ttl : ℕ
stream_ticket_ttl = 30 * second

pub record DashboardAuth : Type 0 where
  pub token : Option String
  pub allow_insecure : Bool
  pub warned : Bool
  pub stream_tickets : Dict ℕ

-- What the guard reads of a request: a header that is missing is the empty text.
pub record Request : Type 0 where
  pub authorization : String
  pub accept : String
  pub query_params : Dict String

-- The answers of `check`: it returns, raises with a status, or raises the `TypeError`.
pub data Verdict : Type 0 where
  pass service_unavailable unauthorized forbidden type_error : Verdict

-- str.isascii
unfoldable pub is_ascii : String → Bool
is_ascii String.[] = true
is_ascii (String.◌∷◌ c s) = ltb (code c) 128 && is_ascii s

-- The comparison of a presented token: `hmac.compare_digest`.
unfoldable pub compare : String → String → Verdict
unfolding is_ascii
compare presented token =
    if is_ascii presented && is_ascii token
    then (if presented == token then pass else forbidden)
    else type_error

-- The value of an environment variable: one that is not set reads as the empty text.
unfoldable pub insecure_bypass_enabled : String → Bool
unfolding strip lower_eq
insecure_bypass_enabled value =
    lower_eq "1" (strip value) || lower_eq "true" (strip value) || lower_eq "yes" (strip value)

unfoldable pub init : Option String → String → Option Bool → String → DashboardAuth
unfolding strip insecure_bypass_enabled
init token env_token allow_insecure env_insecure = record {
  token = if truthy token then token else non_empty (strip env_token);
  allow_insecure = elim allow_insecure [ some b ↦ b | none ↦ insecure_bypass_enabled env_insecure ];
  warned = false;
  stream_tickets = [];
}

unfoldable pub mint_stream_ticket : DashboardAuth → String → ℕ → DashboardAuth
mint_stream_ticket a ticket now = record a {
  stream_tickets =
      put (retain (λ t expiry. ltb now expiry) a.stream_tickets) ticket (now + stream_ticket_ttl);
}

unfoldable pub consume_stream_ticket : DashboardAuth → String → ℕ → DashboardAuth × Bool
consume_stream_ticket a ticket now = (
  record a { stream_tickets = remove a.stream_tickets ticket },
  elim (get a.stream_tickets ticket) [ none ↦ false | some expiry ↦ ltb now expiry ],
)

-- The bearer token of the `Authorization` header.
unfoldable pub extract_token : Request → Option String
unfolding lower_starts_with after_space strip
extract_token r =
    if lower_starts_with "bearer " r.authorization
    then non_empty (strip (after_space r.authorization))
    else none

abbrev pub ticket_text : Request → String
ticket_text r = elim (get r.query_params "ticket") [ none ↦ "" | some t ↦ strip t ]

-- A request with no bearer token: it may be a stream with a ticket.
unfoldable pub check_stream : DashboardAuth → Request → ℕ → DashboardAuth × Verdict
unfolding lower_starts_with strip consume_stream_ticket
check_stream a r now =
    if lower_starts_with "text/event-stream" r.accept && not (is_empty (ticket_text r))
    then (let (a', valid) = consume_stream_ticket a (ticket_text r) now in
        (a', if valid then pass else unauthorized))
    else (a, unauthorized)

unfoldable pub check_token : DashboardAuth → String → Request → ℕ → DashboardAuth × Verdict
unfolding extract_token check_stream compare
check_token a token r now = elim (extract_token r) [
  | none ↦ check_stream a r now
  | some presented ↦ (a, compare presented token)
]

unfoldable pub check : DashboardAuth → Request → ℕ → DashboardAuth × Verdict
unfolding check_token
check a r now = elim a.token [
  | some token ↦ check_token a token r now
  | none ↦ if a.allow_insecure then (record a { warned = true }, pass) else (a, service_unavailable)
]
