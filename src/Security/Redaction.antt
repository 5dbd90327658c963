-- ===== src/Security/Redaction.antt =====
-- security/redaction.py: payloads for logs, and the copy with masked secrets.
pub mod Clean
pub mod Harmless
use plugin_baselithbot.Slices.{ℤ}
use plugin_baselithbot.Text.{is_space, lower, lower_starts_with}
use plugin_baselithbot.Common.{
  ℕ, zero, suc, String, Bool, true, false, ◌&&◌, ◌||◌, List, [], ◌∷◌, leb, eqb, if◌then◌else◌,
}
use Prim.Native.Char.{code}
use plugin_baselithbot.Strings.{joined, first_chars, size}

-- JSON-like values. A key of a dictionary is a text; numbers with a fraction are left out.
mutual
  pub data Payload : Type 0 where
    nothing : Payload
    truth : Bool → Payload
    number : ℤ → Payload
    text : String → Payload
    list : Items → Payload
    tuple : Items → Payload
    dict : Fields → Payload

  pub data Items : Type 0 where
    nil : Items
    cons : Payload → Items → Items

  pub data Fields : Type 0 where
    end : Fields
    field : String → Payload → Fields → Fields

abbrev pub sensitive_key_patterns : List String
sensitive_key_patterns =
    "token" ∷ "password" ∷ "secret" ∷ "api_key" ∷ "apikey" ∷ "access_token" ∷ "bot_token"
    ∷ "webhook_url" ∷ "auth_token" ∷ "private_key" ∷ "session_cookie" ∷ "authorization" ∷ "bearer"
    ∷ []

-- pattern in key.lower(), for an ASCII pattern in lower case that does not end in i
unfoldable pub lower_has : String → String → Bool
unfolding lower_starts_with
lower_has pattern String.[] = lower_starts_with pattern ""
lower_has pattern (String.◌∷◌ c s) =
    lower_starts_with pattern (String.◌∷◌ c s) || lower_has pattern s

unfoldable pub any_pattern : List String → String → Bool
unfolding lower_has
any_pattern [] key = false
any_pattern (p ∷ ps) key = lower_has p key || any_pattern ps key

unfoldable pub is_sensitive_key : String → Bool
unfolding any_pattern
is_sensitive_key key = any_pattern sensitive_key_patterns key

-- [A-Za-z0-9]
abbrev pub is_alnum : ℕ → Bool
is_alnum c = (leb b'A' c && leb c b'Z') || (leb b'a' c && leb c b'z') || (leb b'0' c && leb c b'9')

-- [A-Za-z0-9_\-]
abbrev pub is_token_char : ℕ → Bool
is_token_char c = is_alnum c || eqb c b'_' || eqb c b'-'

-- [A-Za-z0-9._\-] with IGNORECASE, which the letters U+0130, U+0131, U+017F and U+212A match too
abbrev pub is_bearer_char : ℕ → Bool
is_bearer_char c =
    is_token_char c || eqb c b'.' || eqb c 304 || eqb c 305 || eqb c 383 || eqb c 8490

-- \s+[A-Za-z0-9._\-] at the start of a text; `seen` is whether a space was read before.
unfoldable pub token_follows : Bool → String → Bool
unfolding is_space
token_follows seen String.[] = false
token_follows seen (String.◌∷◌ c s) =
    if is_space (code c) then token_follows true s else seen && is_bearer_char (code c)

-- Whether `_BEARER_RE` matches here, behind the characters of "bearer" that are left.
unfoldable pub bearer_at : String → String → Bool
unfolding token_follows lower
bearer_at String.[] s = token_follows false s
bearer_at (String.◌∷◌ p ps) String.[] = false
bearer_at (String.◌∷◌ p ps) (String.◌∷◌ c s) = eqb (code p) (lower (code c)) && bearer_at ps s

-- Where the next character stands: in no match, in `m.group(1)` with as many characters of the word
-- left, or in the token.
pub data Place : Type 0 where
  outside : Place
  in_word : ℕ → Place
  in_token : Place

-- `_BEARER_RE.sub` with "<redacted>" for the token
unfoldable pub sub_bearer : Place → String → String
unfolding bearer_at joined
sub_bearer place String.[] = ""
sub_bearer outside (String.◌∷◌ c s) =
    let place = if bearer_at "bearer" (String.◌∷◌ c s) then in_word 5 else outside in
    String.◌∷◌ c (sub_bearer place s)
sub_bearer (in_word zero) (String.◌∷◌ c s) =
    if is_bearer_char (code c)
    then joined "<redacted>" (sub_bearer in_token s)
    else String.◌∷◌ c (sub_bearer (in_word zero) s)
sub_bearer (in_word (suc n)) (String.◌∷◌ c s) = String.◌∷◌ c (sub_bearer (in_word n) s)
sub_bearer in_token (String.◌∷◌ c s) =
    if is_bearer_char (code c) then sub_bearer in_token s else String.◌∷◌ c (sub_bearer outside s)

abbrev pub max_keep : ℕ
max_keep = 4

-- What `_LONG_TOKEN_RE.sub` puts for a run of token characters, which is one match if it is of 32 or
-- more.
unfoldable pub masked : String → String
unfolding first_chars joined
masked run =
    if leb 32 (size run) then joined "<redacted:" (joined (first_chars max_keep run) "…>") else run

-- `_LONG_TOKEN_RE.sub`, with the run that ends here
unfoldable pub sub_long_token : String → String → String
unfolding masked joined
sub_long_token run String.[] = masked run
sub_long_token run (String.◌∷◌ c s) =
    if is_token_char (code c)
    then sub_long_token (joined run (String.◌∷◌ c "")) s
    else joined (masked run) (String.◌∷◌ c (sub_long_token "" s))

unfoldable pub redact_string : String → String
unfolding sub_bearer sub_long_token
redact_string value = sub_long_token "" (sub_bearer outside value)

-- `redact_payload`, with `max_depth` as its first argument
unfoldable mutual
  unfolding is_sensitive_key redact_string

  pub redact_payload : ℕ → Payload → Payload
  redact_payload zero p = text "<truncated>"
  redact_payload (suc n) (dict fs) = dict (redact_fields n fs)
  redact_payload (suc n) (list xs) = list (redact_items n xs)
  redact_payload (suc n) (tuple xs) = tuple (redact_items n xs)
  redact_payload (suc n) (text s) = text (redact_string s)
  redact_payload (suc n) p = p

  pub redact_items : ℕ → Items → Items
  redact_items n nil = nil
  redact_items n (cons p xs) = cons (redact_payload n p) (redact_items n xs)

  pub redact_fields : ℕ → Fields → Fields
  redact_fields n end = end
  redact_fields n (field k p fs) =
      let rest = redact_fields n fs in
      if is_sensitive_key k
      then field k (text "<redacted>") rest
      else field k (redact_payload n p) rest

abbrev pub max_depth : ℕ
max_depth = 6
