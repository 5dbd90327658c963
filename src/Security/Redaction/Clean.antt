-- ===== src/Security/Redaction/Clean.antt =====
-- What a redacted payload holds.
use plugin_baselithbot.Common.{
  ℕ, suc, ◌+◌, ◌≤◌, max, String, ◌≡◌, refl, false, arith, if◌then◌else◌, zero, ◌<◌, inl, inr, true,
  Bool-cases,
}
use plugin_baselithbot.Strings.{joined, first_chars, size, size-first_chars-le}
use Prim.Native.Char.{Char, code}
use plugin_baselithbot.Security.Redaction.{
  is_token_char, Payload, nothing, truth, number, text, list, tuple, dict, Items, nil, cons, Fields,
  end, field, is_sensitive_key, outside, sub_bearer, max_keep, masked, sub_long_token,
  redact_string, redact_payload, redact_items, redact_fields,
}

-- The longest run of token characters, where `n` of the first run were read before.
unfoldable pub longest : ℕ → String → ℕ
longest n String.[] = n
longest n (String.◌∷◌ c s) =
    if is_token_char (code c) then longest (suc n) s else max n (longest 0 s)

longest-le : (n : ℕ) (s : String) → longest n s ≤ n + size s
unfolding longest
longest-le n String.[] = omega arith
longest-le n (String.◌∷◌ c s) = ground (arith, longest-le (suc n) s, longest-le 0 s)

-- A character that is none of a token ends a run.
longest-joined :
    (n : ℕ) (s t : String) (c : Char)
    → is_token_char (code c) ≡ false
    → longest n (joined s (String.◌∷◌ c t)) ≡ max (longest n s) (longest 0 t)
unfolding longest joined
longest-joined n String.[] t c e = ground arith
longest-joined n (String.◌∷◌ d s) t c e =
    ground (arith, longest-joined (suc n) s t c e, longest-joined 0 s t c e)

-- A long run leaves a short one.
masked_short : (run : String) → longest 0 (masked run) < 32
unfolding masked longest joined
masked_short run = ground (
  arith,
  longest-joined 0 (first_chars max_keep run) ">" "…" refl,
  longest-le 0 (first_chars max_keep run),
  size-first_chars-le max_keep run,
  longest-le 0 run,
)

masked-ends_short :
    (run s : String) (c : Char)
    → is_token_char (code c) ≡ false
    → longest 0 s < 32
    → longest 0 (joined (masked run) (String.◌∷◌ c s)) < 32
masked-ends_short run s c e h = omega (arith, longest-joined 0 (masked run) s c e, masked_short run)

sub_long_token-short : (run s : String) → longest 0 (sub_long_token run s) < 32
unfolding sub_long_token
sub_long_token-short run String.[] = masked_short run
sub_long_token-short run (String.◌∷◌ c s) = elim (Bool-cases (is_token_char (code c))) [
  | inl e ↦ rw e (sub_long_token-short (joined run (String.◌∷◌ c "")) s)
  | inr e ↦ rw e (masked-ends_short run (sub_long_token "" s) c e (sub_long_token-short "" s))
]

pub redact_string-short : (s : String) → longest 0 (redact_string s) < 32
unfolding redact_string
redact_string-short s = sub_long_token-short "" (sub_bearer outside s)

-- A payload whose values hold no long run, where a sensitive key has the marker for its value, and
-- whose lists and dictionaries are nested at most `n` deep.
unfoldable mutual
  pub IsRedacted : ℕ → Payload → Type 0
  IsRedacted n (text s) = longest 0 s < 32
  IsRedacted zero (list xs) = ⊥
  IsRedacted zero (tuple xs) = ⊥
  IsRedacted zero (dict fs) = ⊥
  IsRedacted (suc n) (list xs) = AreRedacted n xs
  IsRedacted (suc n) (tuple xs) = AreRedacted n xs
  IsRedacted (suc n) (dict fs) = FieldsRedacted n fs
  IsRedacted n p = Unit

  pub AreRedacted : ℕ → Items → Type 0
  AreRedacted n nil = Unit
  AreRedacted n (cons p xs) = IsRedacted n p × AreRedacted n xs

  pub FieldsRedacted : ℕ → Fields → Type 0
  FieldsRedacted n end = Unit
  FieldsRedacted n (field k p fs) =
      (is_sensitive_key k ≡ true → p ≡ text "<redacted>") × IsRedacted n p × FieldsRedacted n fs

mutual
  unfolding redact_payload redact_items redact_fields IsRedacted AreRedacted FieldsRedacted longest

  payload-IsRedacted : (n : ℕ) (p : Payload) → IsRedacted n (redact_payload n p)
  payload-IsRedacted zero p = omega arith
  payload-IsRedacted (suc n) nothing = tt
  payload-IsRedacted (suc n) (truth b) = tt
  payload-IsRedacted (suc n) (number i) = tt
  payload-IsRedacted (suc n) (text s) = redact_string-short s
  payload-IsRedacted (suc n) (list xs) = items-AreRedacted n xs
  payload-IsRedacted (suc n) (tuple xs) = items-AreRedacted n xs
  payload-IsRedacted (suc n) (dict fs) = fields-FieldsRedacted n fs

  items-AreRedacted : (n : ℕ) (xs : Items) → AreRedacted n (redact_items n xs)
  items-AreRedacted n nil = tt
  items-AreRedacted n (cons p xs) = (payload-IsRedacted n p, items-AreRedacted n xs)

  fields-FieldsRedacted : (n : ℕ) (fs : Fields) → FieldsRedacted n (redact_fields n fs)
  fields-FieldsRedacted n end = tt
  fields-FieldsRedacted n (field k p fs) = elim (Bool-cases (is_sensitive_key k)) [
    | inl e ↦ rw e (λ h. refl, omega arith, fields-FieldsRedacted n fs)
    | inr e ↦ rw e (λ h. absurd (ground arith), payload-IsRedacted n p, fields-FieldsRedacted n fs)
  ]

-- In a payload that was redacted with a depth, no value that is a text holds 32 token characters in a
-- row, every sensitive key has the marker for its value, and nothing is nested deeper than that depth.
-- The keys of dictionaries are not masked, and nothing is said of them as texts.
pub redact_payload-IsRedacted : (n : ℕ) (p : Payload) → IsRedacted n (redact_payload n p)
redact_payload-IsRedacted n p = payload-IsRedacted n p
