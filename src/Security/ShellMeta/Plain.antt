-- ===== src/Security/ShellMeta/Plain.antt =====
-- What the rejection is worth for a command with no quotes, no escapes and no comments, in which no
-- two operators are adjacent.
use plugin_baselithbot.Text.{is_empty}
use plugin_baselithbot.Lists.{contains}
use plugin_baselithbot.Common.{
  String, ◌≡◌, refl, Bool, true, false, not, ◌&&◌, ◌||◌, List, [], ◌∷◌, ◌++◌, arith, eqb, ℕ, sym,
  subst, inl, inr, Bool-cases, ap, ◌∙◌,
}
use Prim.Native.Char.{Char, code}
use plugin_baselithbot.Strings.{joined, starts_with, has_text, has_any, Char_eq}
use plugin_baselithbot.Security.Shlex.{
  Options, is_quote, is_backslash, is_punctuation, one_char, blank, word, punctuation, Lexer, Mode,
  is_blank, begin, emit, read,
}
use plugin_baselithbot.Security.ShellMeta.{is_meta}

abbrev pub flags : Options
flags = record { comments = true; punctuation_chars = true }

-- Whether a command has none of the characters that change how the lexer reads the others, and no two
-- operators in a row; `behind` is whether the last character was one.
unfoldable pub is_plain : Bool → String → Bool
is_plain behind String.[] = true
is_plain behind (String.◌∷◌ c s) =
    not (is_quote (code c) || is_backslash (code c) || eqb (code c) b'#')
    && not (behind && is_punctuation (code c))
    && is_plain (is_punctuation (code c)) s

-- Whether a shell operator stands in a text.
unfoldable pub has_operator : String → Bool
has_operator String.[] = false
has_operator (String.◌∷◌ c s) = is_punctuation (code c) || has_operator s

-- Whether a token is refused.
unfoldable pub any_meta : List String → Bool
any_meta [] = false
any_meta (t ∷ ts) = is_meta t || any_meta ts

pub any_meta-append : (ts us : List String) → any_meta (ts ++ us) ≡ (any_meta ts || any_meta us)
unfolding any_meta
any_meta-append [] us = refl
any_meta-append (t ∷ ts) us = elim (Bool-cases (is_meta t)) [
  | inl e ↦ rw e refl
  | inr e ↦ rw e (any_meta-append ts us)
]

-- To split on whether a character is the one that is given.
or_else :
    (c d : Char)
    → is_meta (one_char d) ≡ true
    → (eqb (code c) (code d) ≡ false → is_meta (one_char c) ≡ true)
    → is_meta (one_char c) ≡ true
or_else c d h other = elim (Bool-cases (eqb (code c) (code d))) [
  | inl e ↦ subst (λ x. is_meta (one_char x) ≡ true) (sym (Char_eq c d e)) h
  | inr e ↦ other e
]

punctuation-is_meta : (c : Char) → is_punctuation (code c) ≡ true → is_meta (one_char c) ≡ true
unfolding is_meta contains has_any has_text starts_with
punctuation-is_meta c h = or_else c "(" refl (λ e1. or_else c ")" refl (λ e2.
    or_else c ";" refl (λ e3. or_else c "<" refl (λ e4.
      or_else c ">" refl
        (λ e5. or_else c "|" refl (λ e6. or_else c "&" refl (λ e7. absurd (ground arith))))))))

-- The operators that the lexer has read: those in its tokens, and the one that its token is.
abbrev pub found : Lexer → Bool
found x = any_meta x.tokens || elim x.mode [ punctuation ↦ true | _ ↦ false ]

-- Where a plain command leaves the lexer: in no quotation and no comment, with an operator as the token
-- exactly behind one.
abbrev pub IsPlainAt : Bool → Lexer → Type 0
IsPlainAt behind x = elim x.mode [
  | blank ↦ (x.token ≡ "") × (x.quoted ≡ false) × (behind ≡ false)
  | word ↦ (is_empty x.token ≡ false) × (behind ≡ false)
  | punctuation ↦ (is_empty x.token ≡ false) × (is_meta x.token ≡ true) × (behind ≡ true)
  | _ ↦ ⊥
]

abbrev pub is_special : ℕ → Bool
is_special c = is_quote c || is_backslash c || eqb c b'#'

abbrev pub at : Mode → String → Bool → List String → Lexer
at m t q ts = record { mode = m; token = t; quoted = q; tokens = ts }

-- What a character between the tokens does.
begin-IsPlainAt :
    (ts : List String) (c : Char)
    → is_special (code c) ≡ false
    → IsPlainAt (is_punctuation (code c)) (begin flags (at blank "" false ts) c)
      × (found (begin flags (at blank "" false ts) c) ≡ (any_meta ts || is_punctuation (code c)))
unfolding begin
begin-IsPlainAt ts c h = elim (Bool-cases (is_blank (code c))) [
  | inl e ↦
      let p : is_punctuation (code c) ≡ false = ground arith in rw (e, p) ((refl, refl, refl), refl)
  | inr e ↦ elim (Bool-cases (is_punctuation (code c))) [
    | inl p ↦
        let k : eqb (code c) b'#' ≡ false = ground arith in
        let b : is_backslash (code c) ≡ false = ground arith in
        rw (e, k, b, p) ((refl, punctuation-is_meta c p, refl), refl)
    | inr p ↦
        let k : eqb (code c) b'#' ≡ false = ground arith in
        let b : is_backslash (code c) ≡ false = ground arith in
        let u : is_quote (code c) ≡ false = ground arith in rw (e, k, b, p, u) ((refl, refl), refl)
  ]
]

-- The end of a token that is not empty.
pub emit-at :
    (m : Mode) (t : String) (q : Bool) (ts : List String)
    → is_empty t ≡ false
    → emit (at m t q ts) ≡ at blank "" false (ts ++ t ∷ [])
unfolding emit
emit-at m t q ts h = rw h refl

pub any_meta-one :
    (ts : List String) (t : String) → any_meta (ts ++ t ∷ []) ≡ (any_meta ts || is_meta t)
unfolding any_meta
any_meta-one ts t = any_meta-append ts (t ∷ []) ∙ ap (λ b. any_meta ts || b) (or_false (is_meta t))
  where
    or_false : (b : Bool) → (b || false) ≡ b
    or_false b = ground arith

-- What is kept from a character to the next.
abbrev pub Step : Lexer → Char → Lexer → Type 0
Step x c y =
    IsPlainAt (is_punctuation (code c)) y
    × (found x ≡ true → found y ≡ true)
    × (is_punctuation (code c) ≡ true → found y ≡ true)

pub begin_Step :
    (ts : List String) (c : Char)
    → is_special (code c) ≡ false
    → Step (at blank "" false ts) c (read flags (at blank "" false ts) c)
unfolding read
begin_Step ts c h =
    let (plain, same) = begin-IsPlainAt ts c h in
    (plain, λ f. rw same (ground arith), λ p. rw (same, p) (ground arith))

pub behind_word :
    (t : String) (q : Bool) (ts : List String) (c : Char)
    → is_special (code c) ≡ false
    → Step (at word t q ts) c (begin flags (at blank "" false (ts ++ t ∷ [])) c)
behind_word t q ts c h =
    let (plain, same) = begin-IsPlainAt (ts ++ t ∷ []) c h in
    let more = any_meta-one ts t in
    (plain, λ f. rw (same, more) (ground arith), λ p. rw (same, p) (ground arith))

pub behind_operator :
    (t : String) (q : Bool) (ts : List String) (c : Char)
    → is_meta t ≡ true
    → is_special (code c) ≡ false
    → Step (at punctuation t q ts) c (begin flags (at blank "" false (ts ++ t ∷ [])) c)
behind_operator t q ts c m h =
    let (plain, same) = begin-IsPlainAt (ts ++ t ∷ []) c h in
    let more = any_meta-one ts t in
    (plain, λ f. rw (same, more, m) (ground arith), λ p. rw (same, p) (ground arith))

pub is_empty-joined : (t : String) (c : Char) → is_empty (joined t (one_char c)) ≡ false
unfolding joined
is_empty-joined String.[] c = refl
is_empty-joined (String.◌∷◌ d t) c = refl
