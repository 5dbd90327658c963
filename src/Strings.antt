-- ===== src/Strings.antt =====
-- Python's operators and methods on texts, as lists of code points.
use plugin_baselithbot.Common.{
  ap, ℕ, zero, suc, ◌+◌, ◌≤◌, String, ◌≡◌, refl, Bool, true, false, ◌&&◌, ◌||◌, Option, none, some,
  List, [], ◌∷◌, arith, ltb, eqb, if◌then◌else◌, inl, inr, Bool-cases,
}
use Prim.Native.Char.{Char, code}
use text.Mathlib.TextEquality.{Char-path}

-- s + t
unfoldable pub joined : String → String → String
joined String.[] t = t
joined (String.◌∷◌ c s) t = String.◌∷◌ c (joined s t)

-- s.startswith(prefix)
unfoldable pub starts_with : String → String → Bool
starts_with String.[] s = true
starts_with (String.◌∷◌ p ps) String.[] = false
starts_with (String.◌∷◌ p ps) (String.◌∷◌ c s) = eqb (code p) (code c) && starts_with ps s

-- s[len(prefix):] if s.startswith(prefix)
unfoldable pub after_prefix : String → String → Option String
after_prefix String.[] s = some s
after_prefix (String.◌∷◌ p ps) String.[] = none
after_prefix (String.◌∷◌ p ps) (String.◌∷◌ c s) =
    if eqb (code p) (code c) then after_prefix ps s else none

-- text[:n]
unfoldable pub first_chars : ℕ → String → String
first_chars zero s = ""
first_chars (suc n) String.[] = ""
first_chars (suc n) (String.◌∷◌ c s) = String.◌∷◌ c (first_chars n s)

-- len(s)
abbrev pub size : String → ℕ
size String.[] = 0
size (String.◌∷◌ c s) = suc (size s)

-- part in s
unfoldable pub has_text : String → String → Bool
unfolding starts_with
has_text part String.[] = starts_with part ""
has_text part (String.◌∷◌ c s) = starts_with part (String.◌∷◌ c s) || has_text part s

-- any(part in s for part in parts)
unfoldable pub has_any : List String → String → Bool
unfolding has_text
has_any [] s = false
has_any (part ∷ parts) s = has_text part s || has_any parts s

-- The bytes of c in UTF-8.
abbrev pub utf8_width : ℕ → ℕ
utf8_width c = if ltb c 128 then 1 else if ltb c 2048 then 2 else if ltb c 65536 then 3 else 4

-- len(s.encode("utf-8"))
unfoldable pub utf8_size : String → ℕ
utf8_size String.[] = 0
utf8_size (String.◌∷◌ c s) = utf8_width (code c) + utf8_size s

pub after_prefix-joined : (p s : String) → after_prefix p (joined p s) ≡ some s
unfolding after_prefix joined
after_prefix-joined String.[] s = refl
after_prefix-joined (String.◌∷◌ c p) s = ground (arith, after_prefix-joined p s)

pub size-joined : (s t : String) → size (joined s t) ≡ size s + size t
unfolding joined
size-joined String.[] t = omega arith
size-joined (String.◌∷◌ c s) t = omega (arith, size-joined s t)

pub size-first_chars-le : (n : ℕ) (s : String) → size (first_chars n s) ≤ n
unfolding first_chars
size-first_chars-le zero s = omega arith
size-first_chars-le (suc n) String.[] = omega arith
size-first_chars-le (suc n) (String.◌∷◌ c s) = omega (arith, size-first_chars-le n s)

pub joined_assoc : (s t u : String) → joined (joined s t) u ≡ joined s (joined t u)
unfolding joined
joined_assoc String.[] t u = refl
joined_assoc (String.◌∷◌ c s) t u = ap (String.◌∷◌ c) (joined_assoc s t u)

pub joined-nil : (s : String) → joined s "" ≡ s
unfolding joined
joined-nil String.[] = refl
joined-nil (String.◌∷◌ c s) = ap (String.◌∷◌ c) (joined-nil s)

eqb→eq : (a b : ℕ) → eqb a b ≡ true → a ≡ b
eqb→eq a b h = ground arith

-- Characters with the same code.
pub Char_eq : (c d : Char) → eqb (code c) (code d) ≡ true → c ≡ d
Char_eq c d h = Char-path c d (eqb→eq (code c) (code d) h)

pub after_prefix_eq : (p s rest : String) → after_prefix p s ≡ some rest → s ≡ joined p rest
unfolding after_prefix joined
after_prefix_eq String.[] s rest h = ground arith
after_prefix_eq (String.◌∷◌ p ps) String.[] rest h = absurd (ground arith)
after_prefix_eq (String.◌∷◌ p ps) (String.◌∷◌ c s) rest h =
    elim (Bool-cases (eqb (code p) (code c))) [
      | inl e ↦ rw (Char_eq p c e) (ap (String.◌∷◌ c) (after_prefix_eq ps s rest (ground arith)))
      | inr e ↦ absurd (ground arith)
    ]
