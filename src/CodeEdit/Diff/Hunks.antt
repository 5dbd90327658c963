-- ===== src/CodeEdit/Diff/Hunks.antt =====
-- Hunks as changes of the lines of a text.
use plugin_baselithbot.Slices.{pos}
use plugin_baselithbot.Lists.{length, All}
use plugin_baselithbot.Common.{ℕ, ◌+◌, String, ◌≡◌, true, false, some, List, [], ◌∷◌, ◌++◌, map}
use plugin_baselithbot.Strings.{starts_with}
use plugin_baselithbot.CodeEdit.Diff.{old_start}

-- A line of a hunk: kept, removed or added.
pub data Change : Type 0 where
  keeps removes adds : String → Change

unfoldable pub line_of : Change → String
line_of (keeps l) = String.◌∷◌ " " l
line_of (removes l) = String.◌∷◌ "-" l
line_of (adds l) = String.◌∷◌ "+" l

unfoldable pub old_lines : List Change → List String
old_lines [] = []
old_lines (keeps l ∷ cs) = l ∷ old_lines cs
old_lines (removes l ∷ cs) = l ∷ old_lines cs
old_lines (adds l ∷ cs) = old_lines cs

unfoldable pub new_lines : List Change → List String
new_lines [] = []
new_lines (keeps l ∷ cs) = l ∷ new_lines cs
new_lines (removes l ∷ cs) = new_lines cs
new_lines (adds l ∷ cs) = l ∷ new_lines cs

-- A removed line may not begin with "--", nor an added one with "++".
abbrev pub IsPlain : Change → Type 0
IsPlain (keeps l) = Unit
IsPlain (removes l) = starts_with "--" l ≡ false
IsPlain (adds l) = starts_with "++" l ≡ false

-- The lines that no hunk touches, the header and the changes behind them.
pub record Hunk : Type 0 where
  pub gap : List String
  pub header : String
  pub changes : List Change

unfoldable pub old_text : List Hunk → List String → List String
unfolding old_lines
old_text [] tail = tail
old_text (h ∷ hs) tail = h.gap ++ (old_lines h.changes ++ old_text hs tail)

unfoldable pub new_text : List Hunk → List String → List String
unfolding new_lines
new_text [] tail = tail
new_text (h ∷ hs) tail = h.gap ++ (new_lines h.changes ++ new_text hs tail)

unfoldable pub diff_of : List Hunk → List String
unfolding line_of
diff_of [] = []
diff_of (h ∷ hs) = h.header ∷ (map line_of h.changes ++ diff_of hs)

-- The headers name the first line of their changes, and the changes are plain.
abbrev pub Fit : ℕ → List Hunk → Type 0
Fit position [] = Unit
Fit position (h ∷ hs) =
    (starts_with "@@" h.header ≡ true)
    × (old_start h.header ≡ some (pos (position + length h.gap)))
    × All IsPlain h.changes
    × Fit (position + length h.gap + length (old_lines h.changes)) hs
