-- ===== src/CodeEdit/AstRefactor.antt =====
-- code_edit/ast_refactor.py: a name replaced in the syntax tree of a file, and lines of a file moved into
-- a new function. The numbers of lines are natural numbers.
use plugin_baselithbot.Text.{is_empty, strip}
use plugin_baselithbot.Lists.{length, drop, contains, keep}
use plugin_baselithbot.Common.{
  ℕ, suc, ◌-◌, String, Bool, true, false, not, ◌&&◌, ◌||◌, Option, none, some, List, [], ◌∷◌, ◌++◌,
  map, ◌==◌, ltb, leb, eqb, if◌then◌else◌,
}
use Prim.Native.Char.{code}
use plugin_baselithbot.Strings.{joined, after_prefix}
use plugin_baselithbot.Security.Redaction.{is_alnum}
use plugin_baselithbot.CodeEdit.Lines.{splitlines, join, take}
use plugin_baselithbot.CodeEdit.Patcher.{end_last}
use plugin_baselithbot.ComputerUse.Config.{ComputerUseError}
use plugin_baselithbot.ComputerUse.Paths.{Host, sorted}
use plugin_baselithbot.ComputerUse.Filesystem.{
  ScopedFileSystem, Result, ok, refused, raised, WriteResult, read, write,
}

-- The tables of Unicode: str.isidentifier, and \w of `re` for a code point above ASCII.
pub record Unicode : Type 0 where
  pub is_identifier : String → Bool
  pub is_word : ℕ → Bool

-- libcst: the parser of modules, which may raise a `ParserSyntaxError`, the identifiers of the Name nodes
-- in the order of a visit, the tree with each of them changed, and its code.
pub record Libcst : Type 1 where
  pub Module : Type 0
  pub parse_module : String → Option Module
  pub names : Module → List String
  pub change_names : (String → String) → Module → Module
  pub code_of : Module → String

-- What the operations raise: the `ASTRefactorError`s, the error of the parser, and those of the file
-- system.
pub data RefactorError : Type 0 where
  no_identifier no_libcst syntax reversed empty_block : RefactorError
  out_of_bounds : ℕ → RefactorError
  refusal : ComputerUseError → RefactorError
  host_error : String → RefactorError

pub data RefactorAnswer : Type 0 where
  renamed : ℕ → ℕ → RefactorAnswer
  extracted : List String → ℕ → RefactorAnswer
  failed : RefactorError → RefactorAnswer

-- leave_Name
abbrev pub rename : String → String → String → String
rename old_name new_name value = if value == old_name then new_name else value

unfoldable pub count_name : String → List String → ℕ
count_name name [] = 0
count_name name (n ∷ ns) = if n == name then suc (count_name name ns) else count_name name ns

abbrev pub python_builtins : List String
python_builtins =
    "True" ∷ "False" ∷ "None" ∷ "and" ∷ "or" ∷ "not" ∷ "in" ∷ "is" ∷ "if" ∷ "else" ∷ "elif" ∷ "for"
    ∷ "while" ∷ "try" ∷ "except" ∷ "finally" ∷ "with" ∷ "as" ∷ "def" ∷ "class" ∷ "return" ∷ "yield"
    ∷ "import" ∷ "from" ∷ "raise" ∷ "pass" ∷ "break" ∷ "continue" ∷ "lambda" ∷ "global" ∷ "nonlocal"
    ∷ "self" ∷ "cls" ∷ "print" ∷ "len" ∷ "range" ∷ "int" ∷ "str" ∷ "float" ∷ "bool" ∷ "list"
    ∷ "dict" ∷ "set" ∷ "tuple" ∷ "type" ∷ "isinstance" ∷ "open" ∷ "min" ∷ "max" ∷ "sum" ∷ "abs"
    ∷ "any" ∷ "all" ∷ "enumerate" ∷ "zip" ∷ "sorted" ∷ "reversed" ∷ "map" ∷ "filter" ∷ []

-- [a-zA-Z0-9_]
abbrev pub is_name_char : ℕ → Bool
is_name_char c = is_alnum c || eqb c b'_'

unfoldable pub all_name_chars : String → Bool
all_name_chars String.[] = true
all_name_chars (String.◌∷◌ c s) = is_name_char (code c) && all_name_chars s

-- [a-zA-Z_][a-zA-Z0-9_]*, as a whole
unfoldable pub is_name : String → Bool
unfolding all_name_chars
is_name String.[] = false
is_name (String.◌∷◌ c s) =
    is_name_char (code c) && not (leb b'0' (code c) && leb (code c) b'9') && all_name_chars s

-- The longest runs of characters of words: the one that a text begins with, which may be empty, and the
-- others. A match between two \b is one whole run.
unfoldable pub runs_from : (ℕ → Bool) → String → String × List String
runs_from is_word String.[] = ("", [])
runs_from is_word (String.◌∷◌ c s) =
    let (run, rest) = runs_from is_word s in
    if is_name_char (code c) || (leb 128 (code c) && is_word (code c))
    then (String.◌∷◌ c run, rest)
    else ("", if is_empty run then rest else run ∷ rest)

unfoldable pub find_names : (ℕ → Bool) → String → List String
unfolding runs_from is_name
find_names is_word s =
    let (run, rest) = runs_from is_word s in
    keep is_name (if is_empty run then rest else run ∷ rest)

-- set(...), whose order does not matter, as it is sorted
unfoldable pub distinct : List String → List String
unfolding contains
distinct [] = []
distinct (n ∷ ns) = let rest = distinct ns in if contains n rest then rest else n ∷ rest

unfoldable pub identifiers_of : (ℕ → Bool) → String → List String
unfolding find_names distinct sorted contains
identifiers_of is_word body =
    sorted (keep (λ n. not (contains n python_builtins)) (distinct (find_names is_word body)))

-- ", ".join(names)
unfoldable pub comma_joined : List String → String
unfolding joined
comma_joined [] = ""
comma_joined (n ∷ []) = n
comma_joined (n ∷ m ∷ ns) = joined n (joined ", " (comma_joined (m ∷ ns)))

-- re.match(r"[ \t]*", line).group(0)
unfoldable pub indent_of : String → String
indent_of String.[] = ""
indent_of (String.◌∷◌ c s) =
    if eqb (code c) 32 || eqb (code c) 9 then String.◌∷◌ c (indent_of s) else ""

abbrev pub dedented : String → String → String
unfolding after_prefix
dedented indent line = elim (after_prefix indent line) [ none ↦ line | some rest ↦ rest ]

abbrev pub indented : String → String
unfolding joined strip
indented line = if is_empty (strip line) then line else joined "    " line

-- The lines of the new function, with the empty line behind it.
unfoldable pub helper_lines : String → String → String → List String
unfolding joined splitlines end_last
helper_lines new_name params body =
    end_last (
      joined "def " (joined new_name (joined "(" (joined params "):\n")))
      ∷ map indented (splitlines body))
    ++ "\n" ∷ []

-- The new lines of the file, and the parameters.
unfoldable pub extracted_lines :
    (ℕ → Bool) → List String → ℕ → ℕ → String → Option (List String × List String)
unfolding take indent_of join identifiers_of comma_joined helper_lines joined
extracted_lines is_word lines start_line end_line new_name =
    elim (drop (start_line - 1) (take end_line lines)) [
      | [] ↦ none
      | line ∷ block ↦
          let indent = indent_of line in
          let body = join (map (dedented indent) (line ∷ block)) in
          let identifiers = identifiers_of is_word body in
          let params = comma_joined identifiers in
          let call = joined indent (joined new_name (joined "(" (joined params ")\n"))) in
          some (
            helper_lines new_name params body
                ++ take (start_line - 1) lines
                ++ call ∷ drop end_line lines,
            identifiers,
          )
    ]

module _ (H : Host) where
  -- The end of both operations: the answer for a write.
  unfoldable pub written_as :
      (ℕ → RefactorAnswer)
      → ScopedFileSystem H × Result WriteResult
      → ScopedFileSystem H × RefactorAnswer
  written_as answer (g, ok w) = (g, answer w.bytes_written)
  written_as answer (g, refused e) = (g, failed (refusal e))
  written_as answer (g, raised name) = (g, failed (host_error name))

  -- `libcst` is none where the package is not installed.
  unfoldable pub rename_symbol :
      Unicode
      → Option Libcst
      → String
      → String
      → String
      → ScopedFileSystem H
      → ℕ
      → ScopedFileSystem H × RefactorAnswer
  unfolding read write written_as count_name
  rename_symbol unicode libcst path old_name new_name f now =
      if not (unicode.is_identifier old_name) || not (unicode.is_identifier new_name)
      then (f, failed no_identifier)
      else elim libcst [
        | none ↦ (f, failed no_libcst)
        | some cst ↦
            let (g, current) = read H f path now in
            elim current [
              | refused e ↦ (g, failed (refusal e))
              | raised name ↦ (g, failed (host_error name))
              | ok r ↦ elim (cst.parse_module r.content) [
                | none ↦ (g, failed syntax)
                | some tree ↦ written_as (renamed (count_name old_name (cst.names tree))) (
                    write H g path (cst.code_of (cst.change_names (rename old_name new_name) tree))
                      now)
              ]
            ]
      ]

  unfoldable pub extract_lines :
      Unicode
      → String
      → ℕ
      → ℕ
      → String
      → ScopedFileSystem H
      → String
      → ℕ
      → ScopedFileSystem H × RefactorAnswer
  unfolding write written_as splitlines extracted_lines join
  extract_lines unicode path start_line end_line new_name f content now =
      let lines = splitlines content in
      if ltb start_line 1 || ltb (length lines) end_line
      then (f, failed (out_of_bounds (length lines)))
      else elim (extracted_lines unicode.is_word lines start_line end_line new_name) [
        | none ↦ (f, failed empty_block)
        | some (new_lines, identifiers) ↦
            written_as (extracted identifiers) (write H f path (join new_lines) now)
      ]

  unfoldable pub extract_function :
      Unicode
      → String
      → ℕ
      → ℕ
      → String
      → ScopedFileSystem H
      → ℕ
      → ScopedFileSystem H × RefactorAnswer
  unfolding read extract_lines
  extract_function unicode path start_line end_line new_name f now =
      if not (unicode.is_identifier new_name)
      then (f, failed no_identifier)
      else if ltb end_line start_line
      then (f, failed reversed)
      else let (g, current) = read H f path now in
        elim current [
          | refused e ↦ (g, failed (refusal e))
          | raised name ↦ (g, failed (host_error name))
          | ok r ↦ extract_lines unicode path start_line end_line new_name g r.content now
        ]
