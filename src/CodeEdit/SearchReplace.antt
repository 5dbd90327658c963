-- ===== src/CodeEdit/SearchReplace.antt =====
-- code_edit/search_replace.py: a pattern replaced in one file.
use plugin_baselithbot.Text.{is_empty}
use plugin_baselithbot.Common.{
  ℕ, zero, suc, ◌-◌, min, String, Bool, true, Option, none, some, eqb, if◌then◌else◌,
}
use plugin_baselithbot.Strings.{joined, starts_with, size}
use plugin_baselithbot.ComputerUse.Config.{ComputerUseError}
use plugin_baselithbot.ComputerUse.Paths.{Host}
use plugin_baselithbot.ComputerUse.Filesystem.{ScopedFileSystem, ok, refused, raised, read, write}

pub record SearchReplaceEdit : Type 0 where
  pub path : String
  pub pattern : String
  pub replacement : String
  pub regex : Bool
  pub count : ℕ
  pub case_insensitive : Bool

-- `re`: `subn` of a pattern, with whether case is ignored, a replacement, a text and a count of which zero
-- is no bound; none for the `re.error` of the pattern. `escape` is `re.escape`.
pub record Re : Type 0 where
  pub subn : String → Bool → String → String → ℕ → Option (String × ℕ)
  pub escape : String → String

-- text.count(pattern), for a pattern that is not empty; `skip` characters of an occurrence are left
unfoldable pub count_from : ℕ → String → String → ℕ
unfolding starts_with
count_from skip pattern String.[] = 0
count_from (suc skip) pattern (String.◌∷◌ c s) = count_from skip pattern s
count_from zero pattern (String.◌∷◌ c s) =
    if starts_with pattern (String.◌∷◌ c s)
    then suc (count_from (size pattern - 1) pattern s)
    else count_from zero pattern s

-- text.replace(pattern, replacement, n), for a pattern that is not empty
unfoldable pub replace_from : ℕ → ℕ → String → String → String → String
unfolding starts_with joined
replace_from n skip pattern replacement String.[] = ""
replace_from n (suc skip) pattern replacement (String.◌∷◌ c s) =
    replace_from n skip pattern replacement s
replace_from zero zero pattern replacement (String.◌∷◌ c s) = String.◌∷◌ c s
replace_from (suc n) zero pattern replacement (String.◌∷◌ c s) =
    if starts_with pattern (String.◌∷◌ c s)
    then joined replacement (replace_from n (size pattern - 1) pattern replacement s)
    else String.◌∷◌ c (replace_from (suc n) zero pattern replacement s)

-- With an empty pattern, an occurrence stands before each character and at the end.
unfoldable pub interleave : ℕ → String → String → String
unfolding joined
interleave zero replacement s = s
interleave (suc n) replacement String.[] = replacement
interleave (suc n) replacement (String.◌∷◌ c s) =
    joined replacement (String.◌∷◌ c (interleave n replacement s))

unfoldable pub count_text : String → String → ℕ
unfolding count_from
count_text text pattern = if is_empty pattern then suc (size text) else count_from 0 pattern text

-- text.replace(pattern, replacement, n)
unfoldable pub replace_text : String → String → String → ℕ → String
unfolding replace_from interleave
replace_text text pattern replacement n =
    if is_empty pattern
    then interleave n replacement text
    else replace_from n 0 pattern replacement text

-- The literal branch, where the case counts: a count of zero is no bound, and as many occurrences as
-- there are can be replaced.
unfoldable pub replace_literal : SearchReplaceEdit → String → String × ℕ
unfolding count_text replace_text
replace_literal e text =
    let found = count_text text e.pattern in
    if eqb e.count 0
    then (replace_text text e.pattern e.replacement found, found)
    else (replace_text text e.pattern e.replacement e.count, min found e.count)

-- The new text and the number of replacements; none for an invalid pattern.
unfoldable pub replaced_text : Re → SearchReplaceEdit → String → Option (String × ℕ)
unfolding replace_literal
replaced_text re e text =
    if e.regex
    then re.subn e.pattern e.case_insensitive e.replacement text e.count
    else if e.case_insensitive
    then re.subn (re.escape e.pattern) true e.replacement text e.count
    else some (replace_literal e text)

pub data SearchAnswer : Type 0 where
  noop invalid_regex : SearchAnswer
  success : ℕ → ℕ → SearchAnswer
  refusal : ComputerUseError → SearchAnswer
  host_error : String → SearchAnswer

module _ (H : Host) where
  -- The write of a text in which something was replaced.
  unfoldable pub write_replaced :
      ScopedFileSystem H → String → String × ℕ → ℕ → ScopedFileSystem H × SearchAnswer
  unfolding write
  write_replaced f path (text, n) now =
      if eqb n 0
      then (f, noop)
      else let (g, written) = write H f path text now in
        elim written [
          | ok w ↦ (g, success n w.bytes_written)
          | refused e ↦ (g, refusal e)
          | raised name ↦ (g, host_error name)
        ]

  unfoldable pub apply_search_replace :
      Re → SearchReplaceEdit → ScopedFileSystem H → ℕ → ScopedFileSystem H × SearchAnswer
  unfolding read replaced_text write_replaced
  apply_search_replace re e f now =
      let (g, current) = read H f e.path now in
      elim current [
        | refused error ↦ (g, refusal error)
        | raised name ↦ (g, host_error name)
        | ok r ↦ elim (replaced_text re e r.content) [
          | none ↦ (g, invalid_regex)
          | some result ↦ write_replaced g e.path result now
        ]
      ]
