-- ===== src/CodeEdit/Diff/Applied.antt =====
-- Hunks that fit a text turn it into the new one.
use plugin_baselithbot.Slices.{ℤ, pos, slice_from}
use plugin_baselithbot.Lists.{length, drop, length-append, All, drop-nil, drop-drop}
use plugin_baselithbot.Common.{
  ℕ, zero, suc, ◌+◌, min, String, ◌≡◌, refl, sym, ap, ◌∙◌, inr, true, some, List, [], ◌∷◌, ◌++◌,
  map, arith,
}
use plugin_baselithbot.CodeEdit.Lines.{take, take-nil}
use plugin_baselithbot.CodeEdit.Diff.{
  old_start, slice, Cursor, append_line, apply_change, apply_line, apply_lines, hunks_to_lines,
}
use plugin_baselithbot.CodeEdit.Diff.Hunks.{
  Change, keeps, removes, adds, line_of, old_lines, new_lines, IsPlain, Hunk, old_text, new_text,
  diff_of, Fit,
}
use plugin_baselithbot.Strings.{starts_with, after_prefix}
use mathlib.Core.List.{append-nil, append_assoc}

suc-one : (n : ℕ) → suc n ≡ n + 1
suc-one n = omega arith

-- One change at the cursor.
apply_line-change :
    (src out rest : List String) (n : ℕ) (c : Change)
    → IsPlain c
    → drop n src ≡ old_lines (c ∷ []) ++ rest
    → apply_line src (out, pos n) (line_of c)
      ≡ inr (out ++ new_lines (c ∷ []), pos (n + length (old_lines (c ∷ []))))
unfolding apply_line apply_change append_line starts_with after_prefix line_of old_lines new_lines
apply_line-change src out rest n (keeps l) plain e =
    rw e (ap (λ m. inr (out ++ l ∷ [], pos m)) (suc-one n))
apply_line-change src out rest n (removes l) plain e =
    rw (plain, append-nil out) (ap (λ m. inr (out, pos m)) (suc-one n))
apply_line-change src out rest n (adds l) plain e =
    rw plain (ap (λ m. inr (out ++ l ∷ [], pos m)) (omega arith))

drop-length_append {ℓ} : {A : Type ℓ} (xs ys : List A) → drop (length xs) (xs ++ ys) ≡ ys
drop-length_append [] ys = refl
drop-length_append (x ∷ xs) ys = drop-length_append xs ys

-- What stands behind the first lines at a position.
drop-behind :
    (src xs ys : List String) (n : ℕ) → drop n src ≡ xs ++ ys → drop (n + length xs) src ≡ ys
drop-behind src xs ys n e =
    sym (drop-drop (length xs) n src) ∙ ap (drop (length xs)) e ∙ drop-length_append xs ys

old_lines-cons :
    (c : Change) (cs : List Change) → old_lines (c ∷ cs) ≡ old_lines (c ∷ []) ++ old_lines cs
unfolding old_lines
old_lines-cons (keeps l) cs = refl
old_lines-cons (removes l) cs = refl
old_lines-cons (adds l) cs = refl

new_lines-cons :
    (c : Change) (cs : List Change) → new_lines (c ∷ cs) ≡ new_lines (c ∷ []) ++ new_lines cs
unfolding new_lines
new_lines-cons (keeps l) cs = refl
new_lines-cons (removes l) cs = refl
new_lines-cons (adds l) cs = refl

apply_lines-cons :
    (src : List String) (at at' : Cursor) (l : String) (ls : List String)
    → apply_line src at l ≡ inr at'
    → apply_lines src at (l ∷ ls) ≡ apply_lines src at' ls
unfolding apply_lines
apply_lines-cons src at at' l ls e = rw (apply_lines, e) refl

cursor_eq : (a b : List String) (i j : ℤ) → a ≡ b → i ≡ j → ◌≡◌ {A = Cursor} (a, i) (b, j)
cursor_eq a b i j p q = rw (p, q) refl

-- The changes of a hunk.
apply_changes :
    (src out rest : List String) (n : ℕ) (cs : List Change) (more : List String)
    → All IsPlain cs
    → drop n src ≡ old_lines cs ++ rest
    → apply_lines src (out, pos n) (map line_of cs ++ more)
      ≡ apply_lines src (out ++ new_lines cs, pos (n + length (old_lines cs))) more
unfolding old_lines new_lines
apply_changes src out rest n [] more plain e =
    rw (append-nil out) (ap (λ m. apply_lines src (out, pos m) more) (omega arith))
apply_changes src out rest n (c ∷ cs) more plain e =
    let now = old_lines (c ∷ []) in
    let split : drop n src ≡ now ++ (old_lines cs ++ rest) =
      e ∙ ap (λ ls. ls ++ rest) (old_lines-cons c cs) ∙ append_assoc now (old_lines cs) rest in
    let behind = drop-behind src now (old_lines cs ++ rest) n split in
    let out' = out ++ new_lines (c ∷ []) in
    apply_lines-cons src (out, pos n) (out', pos (n + length now)) (line_of c)
      (map line_of cs ++ more) (apply_line-change src out (old_lines cs ++ rest) n c plain.0 split)
    ∙ apply_changes src out' rest (n + length now) cs more plain.1 behind
    ∙ ap (λ (at : Cursor). apply_lines src at more)
        (cursor_eq (out' ++ new_lines cs) (out ++ new_lines (c ∷ cs))
          (pos (n + length now + length (old_lines cs))) (pos (n + length (old_lines (c ∷ cs))))
          (append_assoc out (new_lines (c ∷ [])) (new_lines cs)
            ∙ ap (λ ls. out ++ ls) (sym (new_lines-cons c cs)))
          (ap pos
            (omega (arith, length-append now (old_lines cs), ap length (old_lines-cons c cs)))))

take-length_append : (xs ys : List String) → take (length xs) (xs ++ ys) ≡ xs
unfolding take
take-length_append [] ys = refl
take-length_append (x ∷ xs) ys = ap (◌∷◌ x) (take-length_append xs ys)

-- The lines from a position up to the end of those that are named.
slice-gap :
    (src gap rest : List String) (n : ℕ)
    → drop n src ≡ gap ++ rest
    → drop (min n (length src)) (take (min (n + length gap) (length src)) src) ≡ gap
unfolding take
slice-gap src gap rest zero e =
    let a : min 0 (length src) ≡ 0 = omega arith in
    let b : min (0 + length gap) (length src) ≡ length gap =
      omega (arith, ap length e, length-append gap rest) in
    rw (a, b) (ap (take (length gap)) e ∙ take-length_append gap rest)
slice-gap [] [] rest (suc n) e =
    ap (drop (min (suc n) 0)) (take-nil (min (suc n + 0) 0)) ∙ drop-nil (min (suc n) 0)
slice-gap [] (y ∷ gap) rest (suc n) e = absurd (omega (arith, ap length e))
slice-gap (x ∷ src) gap rest (suc n) e =
    let a : min (suc n) (length (x ∷ src)) ≡ suc (min n (length src)) = omega arith in
    let b : min (suc n + length gap) (length (x ∷ src)) ≡ suc (min (n + length gap) (length src)) =
      omega arith in
    rw (a, b) (slice-gap src gap rest n e)

-- The header of a hunk, behind its gap.
apply_line-header :
    (src out rest gap : List String) (n : ℕ) (header : String)
    → starts_with "@@" header ≡ true
    → old_start header ≡ some (pos (n + length gap))
    → drop n src ≡ gap ++ rest
    → apply_line src (out, pos n) header ≡ inr (out ++ gap, pos (n + length gap))
unfolding apply_line slice
apply_line-header src out rest gap n header marked at e =
    rw (marked, at, slice-gap src gap rest n e) refl

apply_hunks :
    (src out tail : List String) (n : ℕ) (hs : List Hunk)
    → Fit n hs
    → drop n src ≡ old_text hs tail
    → (end : Cursor) × (apply_lines src (out, pos n) (diff_of hs) ≡ inr end)
      × (end.0 ++ slice_from end.1 src ≡ out ++ new_text hs tail)
unfolding old_text new_text diff_of apply_lines slice_from
apply_hunks src out tail n [] fit e = ((out, pos n), refl, ap (λ ls. out ++ ls) e)
apply_hunks src out tail n (h ∷ hs) (marked, at, plain, fit) e =
    let olds = old_lines h.changes in
    let news = new_lines h.changes in
    let m = n + length h.gap in
    let headed =
      apply_line-header src out (olds ++ old_text hs tail) h.gap n h.header marked at e in
    let behind = drop-behind src h.gap (olds ++ old_text hs tail) n e in
    let out' = out ++ h.gap in
    let changed = apply_changes src out' (old_text hs tail) m h.changes (diff_of hs) plain behind in
    let (end, reached, same) =
      apply_hunks src (out' ++ news) tail (m + length olds) hs fit
        (drop-behind src olds (old_text hs tail) m behind) in
    (
      end,
      apply_lines-cons src (out, pos n) (out', pos m) h.header (map line_of h.changes ++ diff_of hs)
            headed
          ∙ changed
          ∙ reached,
      same
          ∙ append_assoc out' news (new_text hs tail)
          ∙ append_assoc out h.gap (news ++ new_text hs tail),
    )

-- Hunks whose headers name the line at which their changes begin, in a text that has the lines that they
-- keep and remove there, turn it into the text with the lines that they keep and add, and all lines
-- between them as they were; no removed line may begin with "--", nor an added one with "++".
pub hunks_to_lines-new_text :
    (hs : List Hunk) (tail : List String)
    → Fit 0 hs
    → hunks_to_lines (old_text hs tail) (diff_of hs) ≡ inr (new_text hs tail)
unfolding hunks_to_lines
hunks_to_lines-new_text hs tail fit =
    let (end, reached, same) = apply_hunks (old_text hs tail) [] tail 0 hs fit refl in
    rw (hunks_to_lines, reached) (ap inr same)
