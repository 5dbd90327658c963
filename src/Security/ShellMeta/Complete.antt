-- ===== src/Security/ShellMeta/Complete.antt =====
-- Whatever plain command holds an operator is refused.
use plugin_baselithbot.Text.{is_empty}
use plugin_baselithbot.Common.{
  ℕ, String, ◌≡◌, refl, sym, ◌∙◌, inl, inr, Bool, true, false, ◌&&◌, ◌||◌, some, List, [], ◌∷◌,
  ◌++◌, arith, eqb, Bool-cases, is_some,
}
use Prim.Native.Char.{Char, code}
use plugin_baselithbot.Strings.{joined}
use plugin_baselithbot.Security.Shlex.{
  Mode, blank, word, punctuation, comment, quotation, escape, Lexer, is_blank, is_quote,
  is_backslash, is_punctuation, one_char, begin, read, read_all, finish, start, lex,
}
use plugin_baselithbot.Security.ShellMeta.{lex_command, is_meta, first_meta, find_shell_meta}
use plugin_baselithbot.Security.ShellMeta.Plain.{
  flags, is_plain, has_operator, any_meta, found, IsPlainAt, is_special, at, emit-at, any_meta-one,
  Step, begin_Step, behind_word, behind_operator, is_empty-joined,
}

-- The characters that are not special and neither blank nor punctuation.
special_false :
    (c : ℕ)
    → is_special c ≡ false
    → (eqb c b'#' ≡ false) × (is_quote c ≡ false) × (is_backslash c ≡ false)
special_false c h = ground arith

read_word-ends :
    (t : String) (q : Bool) (ts : List String) (c : Char)
    → is_empty t ≡ false
    → is_special (code c) ≡ false
    → is_blank (code c) || is_punctuation (code c) ≡ true
    → read flags (at word t q ts) c ≡ begin flags (at blank "" false (ts ++ t ∷ [])) c
unfolding read
read_word-ends t q ts c full h e = elim (Bool-cases (is_blank (code c))) [
  | inl b ↦ rw (b, emit-at word t q ts full) refl
  | inr b ↦
      let (k, u, s) = special_false (code c) h in
      let p : is_punctuation (code c) ≡ true = ground arith in rw (b, k, u, s, p, full) refl
]

read_word-grows :
    (t : String) (q : Bool) (ts : List String) (c : Char)
    → is_special (code c) ≡ false
    → is_blank (code c) || is_punctuation (code c) ≡ false
    → read flags (at word t q ts) c ≡ at word (joined t (one_char c)) q ts
unfolding read
read_word-grows t q ts c h e =
    let (k, u, s) = special_false (code c) h in
    let b : is_blank (code c) ≡ false = ground arith in
    let p : is_punctuation (code c) ≡ false = ground arith in rw (b, k, u, s, p) refl

read_punctuation-ends :
    (t : String) (q : Bool) (ts : List String) (c : Char)
    → is_empty t ≡ false
    → is_special (code c) ≡ false
    → is_punctuation (code c) ≡ false
    → read flags (at punctuation t q ts) c ≡ begin flags (at blank "" false (ts ++ t ∷ [])) c
unfolding read
read_punctuation-ends t q ts c full h p = elim (Bool-cases (is_blank (code c))) [
  | inl b ↦ rw (b, emit-at punctuation t q ts full) refl
  | inr b ↦ let (k, u, s) = special_false (code c) h in rw (b, k, p, full) refl
]

read-Step :
    (behind : Bool) (m : Mode) (t : String) (q : Bool) (ts : List String) (c : Char)
    → IsPlainAt behind (at m t q ts)
    → is_special (code c) ≡ false
    → (behind && is_punctuation (code c)) ≡ false
    → Step (at m t q ts) c (read flags (at m t q ts) c)
read-Step behind blank t q ts c (empty, free, i) h isolated = rw (empty, free) (begin_Step ts c h)
read-Step behind word t q ts c (full, i) h isolated =
    elim (Bool-cases (is_blank (code c) || is_punctuation (code c))) [
      | inl e ↦ rw (read_word-ends t q ts c full h e) (behind_word t q ts c h)
      | inr e ↦
          let p : is_punctuation (code c) ≡ false = ground arith in
          rw (read_word-grows t q ts c h e, p)
            ((is_empty-joined t c, refl), λ f. f, λ p. absurd (ground arith))
    ]
read-Step behind punctuation t q ts c (full, m, i) h isolated =
    rw (read_punctuation-ends t q ts c full h (ground arith)) (behind_operator t q ts c m h)
read-Step behind comment t q ts c i h isolated = absurd i
read-Step behind (quotation x) t q ts c i h isolated = absurd i
read-Step behind (escape x) t q ts c i h isolated = absurd i

plain_char :
    (behind : Bool) (c : Char) (s : String)
    → is_plain behind (String.◌∷◌ c s) ≡ true
    → (is_special (code c) ≡ false)
      × ((behind && is_punctuation (code c)) ≡ false)
      × (is_plain (is_punctuation (code c)) s ≡ true)
unfolding is_plain
plain_char behind c s h = ground arith

found_step :
    (a b o r : Bool)
    → (a ≡ true → b ≡ true)
    → (o ≡ true → b ≡ true)
    → (a || (o || r)) ≡ true
    → (b || r) ≡ true
found_step a true o r f g h = refl
found_step true false o r f g h = absurd (ground (arith, f refl))
found_step false false true r f g h = absurd (ground (arith, g refl))
found_step false false false r f g h = h

-- Nothing that the lexer has found is lost, and what it reads is found.
read_all-finds :
    (behind : Bool) (x : Lexer) (s : String)
    → IsPlainAt behind x
    → is_plain behind s ≡ true
    → ((b : Bool) × IsPlainAt b (read_all flags x s))
      × ((found x || has_operator s) ≡ true → found (read_all flags x s) ≡ true)
unfolding read_all has_operator
read_all-finds behind x String.[] i h = ((behind, i), λ f. ground arith)
read_all-finds behind x (String.◌∷◌ c s) i h =
    let (special, isolated, rest) = plain_char behind c s h in
    let step = read-Step behind x.mode x.token x.quoted x.tokens c i special isolated in
    let more = read_all-finds (is_punctuation (code c)) (read flags x c) s step.0 rest in
    (
      more.0,
      λ f. more.1 (
          found_step (found x) (found (read flags x c)) (is_punctuation (code c)) (has_operator s)
            step.1 step.2 f),
    )

-- At the end, an operator that was found is a token that is refused.
finish-any_meta :
    (behind : Bool) (m : Mode) (t : String) (q : Bool) (ts : List String)
    → IsPlainAt behind (at m t q ts)
    → (tokens : List String) × (finish (at m t q ts) ≡ some tokens)
      × (found (at m t q ts) ≡ true → any_meta tokens ≡ true)
unfolding finish
finish-any_meta behind blank t q ts (empty, free, i) =
    (ts, rw (empty, free) refl, λ f. ground arith)
finish-any_meta behind word t q ts (full, i) =
    (ts ++ t ∷ [], rw full refl, λ f. rw (any_meta-one ts t) (ground arith))
finish-any_meta behind punctuation t q ts (full, m, i) =
    (ts ++ t ∷ [], rw full refl, λ f. rw (any_meta-one ts t, m) (ground arith))
finish-any_meta behind comment t q ts i = absurd i
finish-any_meta behind (quotation x) t q ts i = absurd i
finish-any_meta behind (escape x) t q ts i = absurd i

first_meta-any : (ts : List String) → any_meta ts ≡ is_some (first_meta ts)
unfolding any_meta first_meta
first_meta-any [] = refl
first_meta-any (t ∷ ts) = elim (Bool-cases (is_meta t)) [
  | inl e ↦ rw e refl
  | inr e ↦ rw e (first_meta-any ts)
]

refuses :
    (command : String) (tokens : List String)
    → is_some (first_meta tokens) ≡ true
    → is_some (find_shell_meta command tokens) ≡ true
unfolding find_shell_meta
refuses command tokens h = ground arith

-- A command that has no quotation mark, no backslash, no "#" and no two operators in a row is lexed, and
-- if an operator stands anywhere in it, `find_shell_meta` finds a metacharacter.
pub find_shell_meta-has_operator :
    (command : String)
    → is_plain false command ≡ true
    → (tokens : List String) × (lex_command command ≡ some tokens)
      × (has_operator command ≡ true → is_some (find_shell_meta command tokens) ≡ true)
unfolding lex_command lex find_shell_meta any_meta has_operator
find_shell_meta-has_operator command h =
    let (plain, finds) = read_all-finds false start command (refl, refl, refl) h in
    let x = read_all flags start command in
    let (tokens, same, meta) = finish-any_meta plain.0 x.mode x.token x.quoted x.tokens plain.1 in
    (tokens, same, λ o. refuses command tokens (sym (first_meta-any tokens) ∙ meta (finds o)))
