-- ===== src/Security/Shlex.antt =====
-- `shlex` of Python's standard library, in its posix mode with `whitespace_split`, as an automaton that
-- reads one character at a time.
use plugin_baselithbot.Text.{is_empty}
use plugin_baselithbot.Common.{
  ℕ, String, Bool, true, false, not, ◌&&◌, ◌||◌, Option, none, some, List, [], ◌∷◌, ◌++◌, eqb,
  if◌then◌else◌,
}
use Prim.Native.Char.{Char, code}
use plugin_baselithbot.Strings.{joined}

-- What is between the tokens; a word; a run of punctuation; a quotation by that quote; the character
-- behind a backslash, in a word or in a quotation; a comment.
pub data Mode : Type 0 where
  blank word punctuation comment : Mode
  quotation : ℕ → Mode
  escape : Option ℕ → Mode

pub record Lexer : Type 0 where
  pub mode : Mode
  pub token : String
  pub quoted : Bool
  pub tokens : List String

-- The constructor's arguments: `commenters` is "#" or nothing, `punctuation_chars` "();<>|&" or nothing.
pub record Options : Type 0 where
  pub comments : Bool
  pub punctuation_chars : Bool

abbrev pub is_blank : ℕ → Bool
is_blank c = eqb c b' ' || eqb c 9 || eqb c 13 || eqb c 10

abbrev pub is_quote : ℕ → Bool
is_quote c = eqb c 34 || eqb c 39

abbrev pub is_backslash : ℕ → Bool
is_backslash c = eqb c 92

abbrev pub is_punctuation : ℕ → Bool
is_punctuation c =
    eqb c b'(' || eqb c b')' || eqb c b';' || eqb c b'<' || eqb c b'>' || eqb c b'|' || eqb c b'&'

abbrev pub one_char : Char → String
one_char c = String.◌∷◌ c ""

-- The token that was read, if there is one.
unfoldable pub emit : Lexer → Lexer
emit x = record x {
  mode = blank;
  token = "";
  quoted = false;
  tokens = if not (is_empty x.token) || x.quoted then x.tokens ++ x.token ∷ [] else x.tokens;
}

module _ (options : Options) where
  abbrev pub is_comment : ℕ → Bool
  is_comment c = options.comments && eqb c b'#'

  abbrev pub is_operator : ℕ → Bool
  is_operator c = options.punctuation_chars && is_punctuation c

  -- A character between the tokens.
  unfoldable pub begin : Lexer → Char → Lexer
  begin x c =
      if is_blank (code c)
      then x
      else if is_comment (code c)
      then record x { mode = comment }
      else if is_backslash (code c)
      then record x { mode = escape none }
      else if is_operator (code c)
      then record x { mode = punctuation; token = one_char c }
      else if is_quote (code c)
      then record x { mode = quotation (code c); quoted = true }
      else record x { mode = word; token = one_char c }

  -- One character, the escapes of a quotation included.
  unfoldable pub read : Lexer → Char → Lexer
  unfolding begin emit joined
  read x c = elim x.mode [
    | blank ↦ begin x c
    | comment ↦ if eqb (code c) 10 then record x { mode = blank } else x
    | quotation q ↦
        if eqb (code c) q
        then record x { mode = word }
        else if is_backslash (code c) && eqb q 34
        then record x { mode = escape (some q) }
        else record x { token = joined x.token (one_char c) }
    | escape none ↦ record x { mode = word; token = joined x.token (one_char c) }
    | escape (some q) ↦
        let kept =
          if is_backslash (code c) || eqb (code c) q then x.token else joined x.token "\\" in
        record x { mode = quotation q; token = joined kept (one_char c) }
    | word ↦
        if is_blank (code c)
        then emit x
        else if is_comment (code c)
        then record (emit x) { mode = comment }
        else if is_quote (code c)
        then record x { mode = quotation (code c); quoted = true }
        else if is_backslash (code c)
        then record x { mode = escape none }
        else if is_operator (code c)
        then begin (emit x) c
        else record x { token = joined x.token (one_char c) }
    | punctuation ↦
        if is_blank (code c)
        then emit x
        else if is_comment (code c)
        then record (emit x) { mode = comment }
        else if is_operator (code c)
        then record x { token = joined x.token (one_char c) }
        else begin (emit x) c
  ]

  unfoldable pub read_all : Lexer → String → Lexer
  unfolding read
  read_all x String.[] = x
  read_all x (String.◌∷◌ c s) = read_all (read x c) s

-- The tokens at the end of the text; in a quotation or behind a backslash, a `ValueError`.
unfoldable pub finish : Lexer → Option (List String)
unfolding emit
finish x = elim x.mode [ quotation q ↦ none | escape q ↦ none | _ ↦ some (emit x).tokens ]

abbrev pub start : Lexer
start = record { mode = blank; token = ""; quoted = false; tokens = [] }

-- list(shlex.shlex(...))
unfoldable pub lex : Options → String → Option (List String)
unfolding read_all finish
lex options text = finish (read_all options start text)

-- shlex.split(text)
unfoldable pub split : String → Option (List String)
unfolding lex
split text = lex (record { comments = false; punctuation_chars = false }) text
