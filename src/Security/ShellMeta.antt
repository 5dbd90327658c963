-- ===== src/Security/ShellMeta.antt =====
-- security/shell_meta.py: the rejection of shell operators.
pub mod Plain
pub mod Complete
use plugin_baselithbot.Lists.{contains}
use plugin_baselithbot.Common.{
  ℕ, ◌<◌, String, Bool, true, ◌&&◌, ◌||◌, Option, none, some, List, [], ◌∷◌, if◌then◌else◌,
}
use plugin_baselithbot.Strings.{has_text, has_any}
use plugin_baselithbot.Security.Shlex.{lex}

abbrev pub shell_meta_tokens : List String
shell_meta_tokens = "|" ∷ "||" ∷ "&" ∷ "&&" ∷ ";" ∷ ">" ∷ ">>" ∷ "<" ∷ "<<" ∷ "(" ∷ ")" ∷ "$(" ∷ []

abbrev pub shell_meta_substrings : List String
shell_meta_substrings = "`" ∷ []

abbrev pub raw_separators : List String
raw_separators = "\n" ∷ "\r" ∷ []

-- None for the `ValueError` of a text that ends in a quotation.
unfoldable pub lex_command : String → Option (List String)
unfolding lex
lex_command command = lex (record { comments = true; punctuation_chars = true }) command

-- The first of the texts that stands in the command.
unfoldable pub first_inside : List String → String → Option String
unfolding has_text
first_inside [] command = none
first_inside (p ∷ ps) command = if has_text p command then some p else first_inside ps command

unfoldable pub is_meta : String → Bool
unfolding contains has_any
is_meta token = contains token shell_meta_tokens || has_any shell_meta_substrings token

unfoldable pub first_meta : List String → Option String
unfolding is_meta
first_meta [] = none
first_meta (t ∷ ts) = if is_meta t then some t else first_meta ts

unfoldable pub find_shell_meta : String → List String → Option String
unfolding first_inside first_meta
find_shell_meta command tokens = elim (first_inside raw_separators command) [
  | some separator ↦ some separator
  | none ↦ first_meta tokens
]
