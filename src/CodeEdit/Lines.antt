-- ===== src/CodeEdit/Lines.antt =====
-- Python's lines of a text.
use plugin_baselithbot.Lists.{length, drop}
use plugin_baselithbot.Text.{is_empty}
use plugin_baselithbot.Common.{
  ℕ, String, ◌≡◌, refl, sym, ap, ◌∙◌, Bool, true, false, ◌&&◌, ◌||◌, List, [], ◌∷◌, ◌++◌, leb, eqb,
  if◌then◌else◌, inl, inr, Bool-cases, zero, suc, ◌≤◌, min, arith, ◌+◌,
}
use native.Mathlib.Nat.{zero-add, suc-add}
use Prim.Native.Char.{Char, code}
use plugin_baselithbot.Strings.{joined, joined_assoc, joined-nil}

-- The line breaks of str.splitlines.
abbrev pub is_break : ℕ → Bool
is_break c =
    (leb 10 c && leb c 13) || (leb 28 c && leb c 30) || eqb c 133 || eqb c 8232 || eqb c 8233

abbrev pub with_char : String → Char → String
unfolding joined
with_char s c = joined s (String.◌∷◌ c "")

-- What one character ends: the lines that are complete, the line that has begun, and whether its last
-- character is "\r".
unfoldable pub next_char : String → Bool → Char → List String × String × Bool
unfolding joined
next_char line after_cr c =
    if after_cr && eqb (code c) 10
    then (with_char line c ∷ [], "", false)
    else let done = if after_cr then line ∷ [] else [] in
      let begun = if after_cr then "" else line in
      if eqb (code c) 13
      then (done, with_char begun c, true)
      else if is_break (code c)
      then (done ++ with_char begun c ∷ [], "", false)
      else (done, with_char begun c, false)

unfoldable pub lines_from : String → Bool → String → List String
unfolding next_char
lines_from line after_cr String.[] = if is_empty line then [] else line ∷ []
lines_from line after_cr (String.◌∷◌ c s) =
    let (done, begun, cr) = next_char line after_cr c in done ++ lines_from begun cr s

-- s.splitlines(keepends=True)
unfoldable pub splitlines : String → List String
unfolding lines_from
splitlines s = lines_from "" false s

-- "".join(lines)
unfoldable pub join : List String → String
unfolding joined
join [] = ""
join (l ∷ ls) = joined l (join ls)

join-append : (ls ms : List String) → join (ls ++ ms) ≡ joined (join ls) (join ms)
unfolding join joined
join-append [] ms = refl
join-append (l ∷ ls) ms =
    ap (joined l) (join-append ls ms) ∙ sym (joined_assoc l (join ls) (join ms))

next_char-keeps :
    (line : String) (after_cr : Bool) (c : Char)
    → joined (join (next_char line after_cr c).0) (next_char line after_cr c).1 ≡ with_char line c
unfolding next_char join joined
next_char-keeps line false c = elim (Bool-cases (eqb (code c) 13)) [
  | inl e ↦ rw e refl
  | inr e ↦ elim (Bool-cases (is_break (code c))) [
    | inl b ↦ rw (e, b) (joined-nil (joined (with_char line c) "") ∙ joined-nil (with_char line c))
    | inr b ↦ rw (e, b) refl
  ]
]
next_char-keeps line true c = elim (Bool-cases (eqb (code c) 10)) [
  | inl n ↦ rw n (joined-nil (joined (with_char line c) "") ∙ joined-nil (with_char line c))
  | inr n ↦ elim (Bool-cases (eqb (code c) 13)) [
    | inl e ↦ rw (n, e, joined-nil line) refl
    | inr e ↦ elim (Bool-cases (is_break (code c))) [
      | inl b ↦ rw (n, e, b) (joined-nil (joined line (String.◌∷◌ c "")))
      | inr b ↦ rw (n, e, b, joined-nil line) refl
    ]
  ]
]

last_line : (line : String) → join (if is_empty line then [] else line ∷ []) ≡ joined line ""
unfolding join joined
last_line String.[] = refl
last_line (String.◌∷◌ c line) = refl

lines_from-join :
    (line : String) (after_cr : Bool) (s : String)
    → join (lines_from line after_cr s) ≡ joined line s
unfolding lines_from join joined
lines_from-join line after_cr String.[] = last_line line
lines_from-join line after_cr (String.◌∷◌ c s) =
    let (done, begun, cr) = next_char line after_cr c in
    join-append done (lines_from begun cr s)
    ∙ ap (joined (join done)) (lines_from-join begun cr s)
    ∙ sym (joined_assoc (join done) begun s)
    ∙ ap (λ t. joined t s) (next_char-keeps line after_cr c)
    ∙ joined_assoc line (String.◌∷◌ c "") s

-- The lines of a text make up the text.
pub join-splitlines : (s : String) → join (splitlines s) ≡ s
unfolding splitlines joined
join-splitlines s = lines_from-join "" false s

module _ {ℓ} {A : Type ℓ} where
  -- xs[:n]
  unfoldable pub take : ℕ → List A → List A
  take zero xs = []
  take (suc n) [] = []
  take (suc n) (x ∷ xs) = x ∷ take n xs

  pub take-append : (n : ℕ) (xs ys : List A) → n ≤ length xs → take n (xs ++ ys) ≡ take n xs
  unfolding take
  take-append zero xs ys h = refl
  take-append (suc n) [] ys h = absurd (omega arith)
  take-append (suc n) (x ∷ xs) ys h = ap (◌∷◌ x) (take-append n xs ys (omega arith))

  pub take-take : (m n : ℕ) (xs : List A) → m ≤ n → take m (take n xs) ≡ take m xs
  unfolding take
  take-take zero n xs h = refl
  take-take (suc m) zero xs h = absurd (omega arith)
  take-take (suc m) (suc n) [] h = refl
  take-take (suc m) (suc n) (x ∷ xs) h = ap (◌∷◌ x) (take-take m n xs (omega arith))

  pub length-take : (n : ℕ) (xs : List A) → length (take n xs) ≡ min n (length xs)
  unfolding take
  length-take zero xs = omega arith
  length-take (suc n) [] = omega arith
  length-take (suc n) (x ∷ xs) = omega (arith, length-take n xs)

  pub take-drop : (n : ℕ) (xs : List A) → take n xs ++ drop n xs ≡ xs
  unfolding take
  take-drop zero xs = refl
  take-drop (suc n) [] = refl
  take-drop (suc n) (x ∷ xs) = ap (◌∷◌ x) (take-drop n xs)

  -- What stands behind the first lines of a list that begins with them.
  pub drop-take_append : (n : ℕ) (xs ys : List A) → n ≤ length xs → drop n (take n xs ++ ys) ≡ ys
  unfolding take
  drop-take_append zero xs ys h = refl
  drop-take_append (suc n) [] ys h = absurd (omega arith)
  drop-take_append (suc n) (x ∷ xs) ys h = drop-take_append n xs ys (omega arith)

  pub take-nil : (n : ℕ) → take n [] ≡ []
  unfolding take
  take-nil zero = refl
  take-nil (suc n) = refl

  pub take-add : (m n : ℕ) (xs : List A) → take m xs ++ take n (drop m xs) ≡ take (m + n) xs
  unfolding take
  take-add zero n xs = rw zero-add refl
  take-add (suc m) n [] = take-nil n ∙ sym (take-nil (suc m + n))
  take-add (suc m) n (x ∷ xs) = rw suc-add (ap (◌∷◌ x) (take-add m n xs))
