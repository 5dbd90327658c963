-- ===== src/CodeEdit/Patcher/Ranges.antt =====
-- Edits from the last to the first against all ranges replaced at once.
use mathlib.Core.List.{append_assoc}
use plugin_baselithbot.Lists.{length, is_nil, drop, length-append, All, drop-drop}
use plugin_baselithbot.CodeEdit.Lines.{
  take, take-append, take-take, length-take, take-drop, drop-take_append, take-add,
}
use plugin_baselithbot.CodeEdit.Patcher.{
  LineRangeEdit, insert_edit, sort_edits, replacement_lines, apply_edit, lines_are, apply_edits,
  patch_lines,
}
use plugin_baselithbot.Common.{
  ℕ, ◌-◌, ◌≤◌, ◌<◌, String, ◌≡◌, not, List, [], ◌∷◌, ◌++◌, ◌+◌, refl, sym, ap, ◌∙◌, inl, inr, false,
  some, arith, ltb, leb, Bool-cases, Option-cases,
}

-- The lines from a position on, with the ranges of the edits replaced, in the order of the ranges.
unfoldable pub replaced : ℕ → List String → List LineRangeEdit → List String
unfolding replacement_lines take
replaced position lines [] = lines
replaced position lines (e ∷ es) =
    let rest = replaced e.end_line (drop (e.end_line - position) lines) es in
    take (e.start_line - 1 - position) lines ++ replacement_lines e (not (is_nil rest)) ++ rest

-- Ranges in order that do not overlap, start behind a position and end within so many lines.
abbrev pub AreRanges : ℕ → ℕ → List LineRangeEdit → Type 0
AreRanges position count [] = Unit
AreRanges position count (e ∷ es) =
    (position < e.start_line)
    × (e.start_line ≤ e.end_line)
    × (e.end_line ≤ count)
    × AreRanges e.end_line count es

apply_edits-cons :
    (lines ls : List String) (x : LineRangeEdit) (es : List LineRangeEdit)
    → apply_edit lines x ≡ some ls
    → apply_edits lines (x ∷ es) ≡ apply_edits ls es
unfolding apply_edits
apply_edits-cons lines ls x es e = rw (apply_edits, e) refl

apply_edits-append :
    (lines : List String) (es : List LineRangeEdit) (e : LineRangeEdit) (lines' : List String)
    → apply_edits lines es ≡ lines_are lines'
    → apply_edits lines (es ++ e ∷ []) ≡ apply_edits lines' (e ∷ [])
unfolding apply_edits
apply_edits-append lines [] e lines' h = let same : lines ≡ lines' = ground arith in rw same refl
apply_edits-append lines (x ∷ es) e lines' h = elim (Option-cases (apply_edit lines x)) [
  | inl none_left ↦ absurd (ground arith)
  | inr (ls, same) ↦
      apply_edits-cons lines ls x (es ++ e ∷ []) same
      ∙ apply_edits-append ls es e lines' (sym (apply_edits-cons lines ls x es same) ∙ h)
]

-- Every edit starts behind a line.
abbrev StartBehind : ℕ → List LineRangeEdit → Type 0
StartBehind n es = All (λ e. n < e.start_line) es

ranges-StartBehind :
    (m position count : ℕ) (es : List LineRangeEdit)
    → m ≤ position
    → AreRanges position count es
    → StartBehind m es
ranges-StartBehind m position count [] le h = tt
ranges-StartBehind m position count (e ∷ es) le (behind, some_lines, ends, more) =
    (omega arith, ranges-StartBehind m e.end_line count es (omega arith) more)

insert_edit-StartBehind :
    (n : ℕ) (e : LineRangeEdit) (es : List LineRangeEdit)
    → n < e.start_line
    → StartBehind n es
    → StartBehind n (insert_edit e es)
unfolding insert_edit
insert_edit-StartBehind n e [] h hs = (h, tt)
insert_edit-StartBehind n e (x ∷ xs) h hs = elim (Bool-cases (leb x.start_line e.start_line)) [
  | inl le ↦ rw (insert_edit, le) (h, hs)
  | inr gt ↦ rw (insert_edit, gt) (hs.0, insert_edit-StartBehind n e xs h hs.1)
]

sort_edits-StartBehind :
    (n : ℕ) (es : List LineRangeEdit) → StartBehind n es → StartBehind n (sort_edits es)
unfolding sort_edits
sort_edits-StartBehind n [] h = tt
sort_edits-StartBehind n (e ∷ es) h =
    insert_edit-StartBehind n e (sort_edits es) h.0 (sort_edits-StartBehind n es h.1)

insert_edit-last :
    (e : LineRangeEdit) (es : List LineRangeEdit)
    → StartBehind e.start_line es
    → insert_edit e es ≡ es ++ e ∷ []
unfolding insert_edit
insert_edit-last e [] h = refl
insert_edit-last e (x ∷ xs) h =
    let later : leb x.start_line e.start_line ≡ false = ground (arith, h.0) in
    rw (insert_edit, later) (ap (◌∷◌ x) (insert_edit-last e xs h.1))

-- The first of the ranges is the last that is replaced.
sort_edits-last :
    (count : ℕ) (e : LineRangeEdit) (es : List LineRangeEdit)
    → e.start_line ≤ e.end_line
    → AreRanges e.end_line count es
    → sort_edits (e ∷ es) ≡ sort_edits es ++ e ∷ []
unfolding sort_edits
sort_edits-last count e es some_lines more = insert_edit-last e (sort_edits es) (
    sort_edits-StartBehind e.start_line es
      (ranges-StartBehind e.start_line e.end_line count es some_lines more))

followed-nil : (n : ℕ) (rest : List String) → ltb n (n + length rest) ≡ not (is_nil rest)
followed-nil n [] = ground arith
followed-nil n (x ∷ rest) = ground arith

-- An edit whose range lies in the first lines of a list.
apply_edit-first :
    (lines rest : List String) (e : LineRangeEdit)
    → 1 ≤ e.start_line
    → e.start_line ≤ e.end_line
    → e.end_line ≤ length lines
    → apply_edit (take e.end_line lines ++ rest) e
      ≡ some (take (e.start_line - 1) lines ++ replacement_lines e (not (is_nil rest)) ++ rest)
unfolding apply_edit
apply_edit-first lines rest e positive some_lines ends =
    let start = e.start_line - 1 in
    let lines' = take e.end_line lines ++ rest in
    let full = length-take e.end_line lines in
    let count : length lines' ≡ e.end_line + length rest =
      omega (arith, length-append (take e.end_line lines) rest, full) in
    let inside : leb (length lines') start ≡ false = ground (arith, count) in
    let kept : take start lines' ≡ take start lines =
      take-append start (take e.end_line lines) rest (omega (arith, full))
      ∙ take-take start e.end_line lines (omega arith) in
    rw
      (
        apply_edit,
        inside,
        kept,
        count,
        followed-nil e.end_line rest,
        drop-take_append e.end_line lines rest ends,
      )
      refl

replaced-cons :
    (position : ℕ) (lines : List String) (e : LineRangeEdit) (es : List LineRangeEdit)
    → position < e.start_line
    → e.start_line ≤ e.end_line
    → take position lines ++ replaced position (drop position lines) (e ∷ es)
      ≡ take (e.start_line - 1) lines
        ++ replacement_lines e (not (is_nil (replaced e.end_line (drop e.end_line lines) es)))
        ++ replaced e.end_line (drop e.end_line lines) es
unfolding replaced
replaced-cons position lines e es behind some_lines =
    let dropped : drop (e.end_line - position) (drop position lines) ≡ drop e.end_line lines =
      drop-drop (e.end_line - position) position lines ∙ ap (λ n. drop n lines) (omega arith) in
    let taken : take position lines ++ take (e.start_line - 1 - position) (drop position lines)
        ≡ take (e.start_line - 1) lines =
      take-add position (e.start_line - 1 - position) lines
      ∙ ap (λ n. take n lines) (omega arith) in
    let rest = replaced e.end_line (drop e.end_line lines) es in
    let filling = replacement_lines e (not (is_nil rest)) in
    let skipped = take (e.start_line - 1 - position) (drop position lines) in
    ap (λ r. take position lines ++ (skipped ++ replacement_lines e (not (is_nil r)) ++ r))
      (ap (λ ls. replaced e.end_line ls es) dropped)
    ∙ sym (append_assoc (take position lines) (skipped ++ filling) rest)
    ∙ ap (λ ls. ls ++ rest)
        (sym (append_assoc (take position lines) skipped filling) ∙ ap (λ ls. ls ++ filling) taken)

patched-replaced :
    (position : ℕ) (lines : List String) (es : List LineRangeEdit)
    → AreRanges position (length lines) es
    → apply_edits lines (sort_edits es)
      ≡ lines_are (take position lines ++ replaced position (drop position lines) es)
unfolding replaced apply_edits sort_edits
patched-replaced position lines [] h = ap lines_are (sym (take-drop position lines))
patched-replaced position lines (e ∷ es) (behind, some_lines, ends, more) =
    let rest = replaced e.end_line (drop e.end_line lines) es in
    let done = patched-replaced e.end_line lines es more in
    let first = apply_edit-first lines rest e (omega arith) some_lines ends in
    ap (apply_edits lines) (sort_edits-last (length lines) e es some_lines more)
    ∙ apply_edits-append lines (sort_edits es) e (take e.end_line lines ++ rest) done
    ∙ apply_edits-cons (take e.end_line lines ++ rest)
        (take (e.start_line - 1) lines ++ replacement_lines e (not (is_nil rest)) ++ rest) e []
        first
    ∙ ap lines_are (sym (replaced-cons position lines e es behind some_lines))

-- Edits of a file in the order of their ranges, which do not overlap and lie within its lines, leave what
-- replacing all these ranges at once gives: the lines between them as they were and in place of each
-- range the lines of its replacement, with a line break at their end if lines follow.
pub patch_lines-replaced :
    (lines : List String) (es : List LineRangeEdit)
    → AreRanges 0 (length lines) es
    → patch_lines lines es ≡ lines_are (replaced 0 lines es)
unfolding patch_lines take
patch_lines-replaced lines es h = patched-replaced 0 lines es h
