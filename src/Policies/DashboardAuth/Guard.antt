-- ===== src/Policies/DashboardAuth/Guard.antt =====
-- What a request must present to pass the guard.
use Prim.Native.Char.{code}
use plugin_baselithbot.Strings.{joined, Char_eq}
use plugin_baselithbot.Common.{
  ℕ, String, ◌≡◌, refl, ap, inl, inr, ◌⊎◌, Bool, true, false, not, ◌&&◌, eqb, none, some, arith,
  ◌==◌, ltb, if◌then◌else◌, Option-cases,
}
use plugin_baselithbot.Text.{is_empty, lower, lower_eq, lower_starts_with, after_space, strip}
use plugin_baselithbot.Dict.{get}
use plugin_baselithbot.Policies.DashboardAuth.{
  DashboardAuth, Request, pass, service_unavailable, unauthorized, forbidden, consume_stream_ticket,
  extract_token, ticket_text, compare, is_ascii, check_stream, check_token, check, type_error,
}

-- The header of the request is the word "bearer" in any case, a space, and a text that is the token when
-- its outer whitespace is taken off, which is not empty.
pub record Bears (r : Request) (presented : String) : Type 0 where
  pub scheme : String
  pub rest : String
  pub header : r.authorization ≡ joined scheme (String.◌∷◌ " " rest)
  pub is_bearer : lower_eq "bearer" scheme ≡ true
  pub stripped : strip rest ≡ presented
  pub filled : is_empty presented ≡ false

-- The request asks for an event stream with a ticket in its query that was minted and has not expired.
abbrev pub has_live_ticket : DashboardAuth → Request → ℕ → Bool
has_live_ticket a r now =
    lower_starts_with "text/event-stream" r.accept
    && not (is_empty (ticket_text r))
    && elim (get a.stream_tickets (ticket_text r)) [ none ↦ false | some expiry ↦ ltb now expiry ]

unfoldable spaceless : String → Bool
spaceless String.[] = true
spaceless (String.◌∷◌ c s) = not (eqb (code c) b' ') && spaceless s

-- A text that starts with a word and a space, in any case, is the word, the space and what is behind it.
split_word :
    (p s : String)
    → spaceless p ≡ true
    → lower_starts_with (joined p " ") s ≡ true
    → (scheme : String) × (s ≡ joined scheme (String.◌∷◌ " " (after_space s)))
      × (lower_eq p scheme ≡ true)
unfolding spaceless lower_starts_with lower_eq lower joined after_space
split_word String.[] String.[] h e = absurd (ground arith)
split_word String.[] (String.◌∷◌ c s) h e =
    let space : eqb (code c) b' ' ≡ true = ground arith in
    ("", rw space (ap (λ d. String.◌∷◌ d s) (Char_eq c " " space)), refl)
split_word (String.◌∷◌ x p) String.[] h e = absurd (ground arith)
split_word (String.◌∷◌ x p) (String.◌∷◌ c s) h e =
    let other : eqb (code c) b' ' ≡ false = ground arith in
    let (scheme, same, word) = split_word p s (ground arith) (ground arith) in
    (String.◌∷◌ c scheme, rw other (ap (String.◌∷◌ c) same), ground arith)

join_word :
    (p scheme rest : String)
    → spaceless p ≡ true
    → lower_eq p scheme ≡ true
    → (lower_starts_with (joined p " ") (joined scheme (String.◌∷◌ " " rest)) ≡ true)
      × (after_space (joined scheme (String.◌∷◌ " " rest)) ≡ rest)
unfolding spaceless lower_starts_with lower_eq lower joined after_space
join_word String.[] String.[] rest h e = (refl, refl)
join_word String.[] (String.◌∷◌ c s) rest h e = absurd (ground arith)
join_word (String.◌∷◌ x p) String.[] rest h e = absurd (ground arith)
join_word (String.◌∷◌ x p) (String.◌∷◌ c s) rest h e =
    let (starts, behind) = join_word p s rest (ground arith) (ground arith) in
    (ground arith, ground arith)

extract_token-Bears :
    (r : Request) (presented : String) → extract_token r ≡ some presented → Bears r presented
unfolding extract_token spaceless joined
extract_token-Bears r presented e =
    let (scheme, same, word) = split_word "bearer" r.authorization refl (ground arith) in
    record {
      scheme = scheme;
      rest = after_space r.authorization;
      header = same;
      is_bearer = word;
      stripped = ground arith;
      filled = ground arith;
    }

Bears-extract_token :
    (r : Request) (presented : String) → Bears r presented → extract_token r ≡ some presented
unfolding extract_token spaceless joined
Bears-extract_token r presented b =
    let (starts, behind) = join_word "bearer" b.scheme b.rest refl b.is_bearer in
    let starts' : lower_starts_with "bearer " r.authorization ≡ true = rw b.header starts in
    let behind' : after_space r.authorization ≡ b.rest = rw b.header behind in
    ground (arith, starts', behind', b.stripped, b.filled)

-- With a configured token, a request that bears a token passes exactly if it is that token and ASCII:
-- where either of the two is not ASCII the check raises a `TypeError`, and another token is forbidden. A
-- request that bears no token passes exactly if it asks for an event stream with a live ticket in its
-- query, and is unauthorized otherwise.
pub check_configured :
    (a : DashboardAuth) (r : Request) (now : ℕ) (token : String)
    → a.token ≡ some token
    → ((presented : String) × Bears r presented
        × ((check a r now).1 ≡ (
            if is_ascii presented && is_ascii token
            then (if presented == token then pass else forbidden)
            else type_error)))
      ⊎ (((presented : String) → ¬ (Bears r presented))
          × ((check a r now).1 ≡ (if has_live_ticket a r now then pass else unauthorized)))
unfolding check check_token check_stream consume_stream_ticket compare
check_configured a r now token e = elim (Option-cases (extract_token r)) [
  | inl n ↦
      inr (λ presented b. absurd (ground (arith, Bears-extract_token r presented b)), ground arith)
  | inr (presented, h) ↦ inl (presented, extract_token-Bears r presented h, ground arith)
]

-- With no token configured every request is refused as unavailable, unless the insecure mode was
-- chosen, in which every request passes; the tickets are never looked at.
check_unconfigured :
    (a : DashboardAuth) (r : Request) (now : ℕ)
    → a.token ≡ none
    → ((check a r now).1 ≡ (if a.allow_insecure then pass else service_unavailable))
      × ((check a r now).0.stream_tickets ≡ a.stream_tickets)
unfolding check
check_unconfigured a r now e = ground arith
