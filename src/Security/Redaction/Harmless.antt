-- ===== src/Security/Redaction/Harmless.antt =====
-- Payloads that redaction leaves as they are.
use plugin_baselithbot.Common.{
  ℕ, suc, ◌≤◌, ◌<◌, String, ◌≡◌, refl, sym, ap, ◌∙◌, inl, inr, Bool, true, not, ◌&&◌, arith,
  Bool-cases, zero, false,
}
use plugin_baselithbot.Strings.{joined, size, size-joined, joined_assoc, joined-nil}
use plugin_baselithbot.Security.Redaction.{
  Payload, nothing, truth, number, text, list, tuple, dict, Items, nil, cons, Fields, end, field,
  is_sensitive_key, is_token_char, bearer_at, outside, sub_bearer, masked, sub_long_token,
  redact_string, redact_payload, redact_items, redact_fields,
}
use plugin_baselithbot.Security.Redaction.Clean.{longest}
use Prim.Native.Char.{code}

-- Whether `_BEARER_RE` matches nowhere.
unfoldable pub bears_nothing : String → Bool
unfolding bearer_at
bears_nothing String.[] = true
bears_nothing (String.◌∷◌ c s) = not (bearer_at "bearer" (String.◌∷◌ c s)) && bears_nothing s

sub_bearer_id : (s : String) → bears_nothing s ≡ true → sub_bearer outside s ≡ s
unfolding sub_bearer bears_nothing
sub_bearer_id String.[] h = refl
sub_bearer_id (String.◌∷◌ c s) h = elim (Bool-cases (bearer_at "bearer" (String.◌∷◌ c s))) [
  | inl e ↦ absurd (ground arith)
  | inr e ↦ rw e (ap (String.◌∷◌ c) (sub_bearer_id s (ground arith)))
]

longest-ge : (n : ℕ) (s : String) → n ≤ longest n s
unfolding longest
longest-ge n String.[] = omega arith
longest-ge n (String.◌∷◌ c s) = ground (arith, longest-ge (suc n) s)

masked_id : (run : String) → size run < 32 → masked run ≡ run
unfolding masked
masked_id run h = ground arith

sub_long_token_id :
    (run s : String) → longest (size run) s < 32 → sub_long_token run s ≡ joined run s
unfolding sub_long_token longest joined
sub_long_token_id run String.[] h = masked_id run h ∙ sym (joined-nil run)
sub_long_token_id run (String.◌∷◌ c s) h = elim (Bool-cases (is_token_char (code c))) [
  | inl e ↦ rw e (
      let run' = joined run (String.◌∷◌ c "") in
      let grown : size run' ≡ suc (size run) = omega (arith, size-joined run (String.◌∷◌ c "")) in
      sub_long_token_id run' s (rw grown (ground arith)) ∙ joined_assoc run (String.◌∷◌ c "") s)
  | inr e ↦
      rw (e, masked_id run (ground (arith, longest-ge (size run) s)))
        (ap (λ t. joined run (String.◌∷◌ c t)) (sub_long_token_id "" s (ground arith)))
]

pub redact_string_id :
    (s : String) → bears_nothing s ≡ true → longest 0 s < 32 → redact_string s ≡ s
unfolding redact_string joined
redact_string_id s none_borne short = rw (sub_bearer_id s none_borne) (sub_long_token_id "" s short)

-- Nested less than `n` deep, no key sensitive, and no text with a bearer token or a long run.
unfoldable mutual
  pub IsHarmless : ℕ → Payload → Type 0
  IsHarmless zero p = ⊥
  IsHarmless (suc n) (text s) = (bears_nothing s ≡ true) × (longest 0 s < 32)
  IsHarmless (suc n) (list xs) = AreHarmless n xs
  IsHarmless (suc n) (tuple xs) = AreHarmless n xs
  IsHarmless (suc n) (dict fs) = FieldsHarmless n fs
  IsHarmless (suc n) p = Unit

  pub AreHarmless : ℕ → Items → Type 0
  AreHarmless n nil = Unit
  AreHarmless n (cons p xs) = IsHarmless n p × AreHarmless n xs

  pub FieldsHarmless : ℕ → Fields → Type 0
  FieldsHarmless n end = Unit
  FieldsHarmless n (field k p fs) =
      (is_sensitive_key k ≡ false) × IsHarmless n p × FieldsHarmless n fs

mutual
  unfolding redact_payload redact_items redact_fields IsHarmless AreHarmless FieldsHarmless

  payload_id : (n : ℕ) (p : Payload) → IsHarmless n p → redact_payload n p ≡ p
  payload_id zero p h = absurd h
  payload_id (suc n) nothing h = refl
  payload_id (suc n) (truth b) h = refl
  payload_id (suc n) (number i) h = refl
  payload_id (suc n) (text s) h = ap text (redact_string_id s h.0 h.1)
  payload_id (suc n) (list xs) h = ap list (items_id n xs h)
  payload_id (suc n) (tuple xs) h = ap tuple (items_id n xs h)
  payload_id (suc n) (dict fs) h = ap dict (fields_id n fs h)

  items_id : (n : ℕ) (xs : Items) → AreHarmless n xs → redact_items n xs ≡ xs
  items_id n nil h = refl
  items_id n (cons p xs) h = rw (payload_id n p h.0, items_id n xs h.1)

  fields_id : (n : ℕ) (fs : Fields) → FieldsHarmless n fs → redact_fields n fs ≡ fs
  fields_id n end h = refl
  fields_id n (field k p fs) h = rw (h.0, payload_id n p h.1, fields_id n fs h.2)

-- A payload that is nested less deep than the depth, with no sensitive key, no bearer token and no run
-- of 32 token characters, is copied as it is.
pub redact_payload_id : (n : ℕ) (p : Payload) → IsHarmless n p → redact_payload n p ≡ p
redact_payload_id n p h = payload_id n p h
