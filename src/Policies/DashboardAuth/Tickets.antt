-- ===== src/Policies/DashboardAuth/Tickets.antt =====
-- Stream tickets are good for one connection each, within their time.
use plugin_baselithbot.Dict.Keys.{get-retain-none}
use plugin_baselithbot.Common.{
  ℕ, suc, ◌+◌, String, not, ◌&&◌, List, [], ◌∷◌, ◌==◌, if◌then◌else◌, is_some, ◌≤◌, ◌≡◌, true,
  false, none, some, arith, eq_iff, eq_refl, ltb,
}
use plugin_baselithbot.Text.{is_empty, lower_starts_with}
use plugin_baselithbot.Dict.{get, put, retain, get-put, get-remove}
use plugin_baselithbot.Policies.DashboardAuth.{
  DashboardAuth, Request, pass, mint_stream_ticket, extract_token, ticket_text, check,
  stream_ticket_ttl, unauthorized, consume_stream_ticket, check_stream, check_token,
}

-- A call of the mint, which stands behind the guard, or of the guard.
pub data Op : Type 0 where
  mints : String → ℕ → Op
  checks : Request → ℕ → Op

unfoldable pub step : DashboardAuth → Op → DashboardAuth
step a (mints ticket now) = mint_stream_ticket a ticket now
step a (checks r now) = (check a r now).0

-- 1 for a check that passes by the ticket, with no bearer token and a configured secret.
unfoldable pub passes_by : String → DashboardAuth → Op → ℕ
passes_by ticket a (mints t now) = 0
passes_by ticket a (checks r now) =
    if is_some a.token && not (is_some (extract_token r)) && ticket_text r == ticket
    then elim (check a r now).1 [ pass ↦ 1 | _ ↦ 0 ]
    else 0

-- How often checks pass by the ticket.
unfoldable pub uses : String → DashboardAuth → List Op → ℕ
uses ticket a [] = 0
uses ticket a (op ∷ ops) = passes_by ticket a op + uses ticket (step a op) ops

-- How often the ticket is minted.
unfoldable pub mintings : String → List Op → ℕ
mintings ticket [] = 0
mintings ticket (mints t now ∷ ops) =
    if t == ticket then suc (mintings ticket ops) else mintings ticket ops
mintings ticket (checks r now ∷ ops) = mintings ticket ops

abbrev held : String → DashboardAuth → ℕ
held ticket a = if is_some (get a.stream_tickets ticket) then 1 else 0

mint-held :
    (ticket : String) (a : DashboardAuth) (t : String) (now : ℕ)
    → held ticket (mint_stream_ticket a t now) ≤ held ticket a + (if t == ticket then 1 else 0)
unfolding mint_stream_ticket
mint-held ticket a t now =
    let kept = retain (λ k expiry. ltb now expiry) a.stream_tickets in
    ground (
      arith,
      get-put kept t ticket (now + stream_ticket_ttl),
      get-retain-none (λ k expiry. ltb now expiry) a.stream_tickets ticket,
    )

check-held :
    (ticket : String) (a : DashboardAuth) (r : Request) (now : ℕ)
    → passes_by ticket a (checks r now) + held ticket (check a r now).0 ≤ held ticket a
unfolding passes_by check check_token check_stream consume_stream_ticket
check-held ticket a r now =
    ground
      (arith, get-remove a.stream_tickets (ticket_text r) ticket, eq_iff (ticket_text r) ticket)

uses-le :
    (ticket : String) (a : DashboardAuth) (ops : List Op)
    → uses ticket a ops ≤ held ticket a + mintings ticket ops
unfolding uses mintings step passes_by
uses-le ticket a [] = omega arith
uses-le ticket a (mints t now ∷ ops) =
    ground (arith, uses-le ticket (mint_stream_ticket a t now) ops, mint-held ticket a t now)
uses-le ticket a (checks r now ∷ ops) =
    omega (arith, uses-le ticket (check a r now).0 ops, check-held ticket a r now)

-- For a guard with no tickets, whatever is minted and checked in whatever order, at most as many
-- checks pass by a ticket as that ticket was minted.
pub uses-le_mintings :
    (ticket : String) (a : DashboardAuth) (ops : List Op)
    → a.stream_tickets ≡ []
    → uses ticket a ops ≤ mintings ticket ops
unfolding get
uses-le_mintings ticket a ops e = ground (arith, uses-le ticket a ops)

-- A stream request with no bearer token and a ticket that was just minted passes exactly before the
-- ticket's time is over, and whether it passed or not, a second request with that ticket is refused.
pub minted_once :
    (a : DashboardAuth) (token ticket : String) (r : Request) (now later again : ℕ)
    → a.token ≡ some token
    → extract_token r ≡ none
    → lower_starts_with "text/event-stream" r.accept ≡ true
    → is_empty ticket ≡ false
    → ticket_text r ≡ ticket
    → let (a', verdict) = check (mint_stream_ticket a ticket now) r later in
      (verdict ≡ (if ltb later (now + stream_ticket_ttl) then pass else unauthorized))
      × ((check a' r again).1 ≡ unauthorized)
unfolding check check_token check_stream consume_stream_ticket mint_stream_ticket
minted_once a token ticket r now later again e none_borne stream named same =
    let kept = retain (λ k expiry. ltb now expiry) a.stream_tickets in
    let minted = put kept ticket (now + stream_ticket_ttl) in
    let found = get-put kept ticket (ticket_text r) (now + stream_ticket_ttl) in
    let gone = get-remove minted (ticket_text r) (ticket_text r) in
    (
      ground (arith, found, eq_iff ticket (ticket_text r)),
      ground (arith, gone, eq_refl (ticket_text r)),
    )
