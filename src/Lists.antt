-- ===== src/Lists.antt =====
-- Python's lists, slices and bounded deques.
use native.Mathlib.Nat.{zero-add, suc-add}
use plugin_baselithbot.Common.{
  ℕ, zero, suc, ◌+◌, ◌-◌, ◌≤◌, ◌≡◌, refl, Bool, true, false, ◌||◌, String, ◌==◌, List, [], ◌∷◌,
  ◌++◌, arith, if◌then◌else◌, eq_refl, sym, ap, ◌∙◌, ◌<◌,
}

module _ {ℓ} {A : Type ℓ} where
  abbrev pub length : List A → ℕ
  length [] = 0
  length (x ∷ xs) = suc (length xs)

  -- not xs
  abbrev pub is_nil : List A → Bool
  is_nil [] = true
  is_nil (x ∷ xs) = false

  abbrev pub drop : ℕ → List A → List A
  drop zero xs = xs
  drop (suc n) [] = []
  drop (suc n) (x ∷ xs) = drop n xs

  pub length-append : (xs ys : List A) → length (xs ++ ys) ≡ length xs + length ys
  length-append [] ys = omega arith
  length-append (x ∷ xs) ys = omega (arith, length-append xs ys)

  pub length-drop : (n : ℕ) (xs : List A) → length (drop n xs) ≡ length xs - n
  length-drop zero xs = omega arith
  length-drop (suc n) [] = omega arith
  length-drop (suc n) (x ∷ xs) = omega (arith, length-drop n xs)

  -- The last `n` items, or all if there are fewer.
  unfoldable pub take_last : ℕ → List A → List A
  take_last n xs = drop (length xs - n) xs

  pub length-take_last-le : (n : ℕ) (xs : List A) → length (take_last n xs) ≤ n
  unfolding take_last
  length-take_last-le n xs = omega (arith, length-drop (length xs - n) xs)

  pub length-take_last : (n : ℕ) (xs : List A) → n ≤ length xs → length (take_last n xs) ≡ n
  unfolding take_last
  length-take_last n xs h = omega (arith, length-drop (length xs - n) xs)

  drop_of_zero : (n : ℕ) (xs : List A) → n ≡ 0 → drop n xs ≡ xs
  drop_of_zero zero xs h = refl
  drop_of_zero (suc n) xs h = absurd (omega arith)

  pub take_last_of_le : (n : ℕ) (xs : List A) → length xs ≤ n → take_last n xs ≡ xs
  unfolding take_last
  take_last_of_le n xs h = drop_of_zero (length xs - n) xs (omega arith)

  -- `xs.append(x)` on a `deque(maxlen=n)`: what does not fit is dropped at the front.
  unfoldable pub push_bounded : ℕ → List A → A → List A
  push_bounded n xs x = take_last n (xs ++ x ∷ [])

  pub length-push_bounded-le : (n : ℕ) (xs : List A) (x : A) → length (push_bounded n xs x) ≤ n
  unfolding push_bounded
  length-push_bounded-le n xs x = length-take_last-le n (xs ++ x ∷ [])

  -- A list comprehension with an `if`.
  unfoldable pub keep : (A → Bool) → List A → List A
  keep p [] = []
  keep p (x ∷ xs) = if p x then x ∷ keep p xs else keep p xs

  pub length-keep-le : (p : A → Bool) (xs : List A) → length (keep p xs) ≤ length xs
  unfolding keep
  length-keep-le p [] = omega arith
  length-keep-le p (x ∷ xs) = ground (arith, length-keep-le p xs)

  pub keep-append : (p : A → Bool) (xs ys : List A) → keep p (xs ++ ys) ≡ keep p xs ++ keep p ys
  unfolding keep
  keep-append p [] ys = refl
  keep-append p (x ∷ xs) ys = ground (arith, keep-append p xs ys)

  -- Every item satisfies the predicate.
  abbrev pub All {κ} : (A → Type κ) → List A → Type κ
  All P [] = Unit
  All P (x ∷ xs) = P x × All P xs

  pub All-append {κ} : (P : A → Type κ) (xs ys : List A) → All P xs → All P ys → All P (xs ++ ys)
  All-append P [] ys hx hy = hy
  All-append P (x ∷ xs) ys hx hy = (hx.0, All-append P xs ys hx.1 hy)

  pub All-drop {κ} : (P : A → Type κ) (n : ℕ) (xs : List A) → All P xs → All P (drop n xs)
  All-drop P zero xs h = h
  All-drop P (suc n) [] h = h
  All-drop P (suc n) (x ∷ xs) h = All-drop P n xs h.1

  pub All-take_last {κ} : (P : A → Type κ) (n : ℕ) (xs : List A) → All P xs → All P (take_last n xs)
  unfolding take_last
  All-take_last P n xs h = All-drop P (length xs - n) xs h

-- `s in xs`
unfoldable pub contains : String → List String → Bool
contains s [] = false
contains s (x ∷ xs) = x == s || contains s xs

-- The number of times that a text stands in a list.
unfoldable pub occurrences : String → List String → ℕ
occurrences s [] = 0
occurrences s (x ∷ xs) = if x == s then suc (occurrences s xs) else occurrences s xs

pub occurrences-append :
    (s : String) (xs ys : List String)
    → occurrences s (xs ++ ys) ≡ occurrences s xs + occurrences s ys
unfolding occurrences
occurrences-append s [] ys = omega arith
occurrences-append s (x ∷ xs) ys = ground (arith, occurrences-append s xs ys)

module _ {ℓ} {A : Type ℓ} where
  drop-append : (n : ℕ) (xs ys : List A) → n ≤ length xs → drop n (xs ++ ys) ≡ drop n xs ++ ys
  drop-append zero xs ys h = refl
  drop-append (suc n) [] ys h = absurd (omega arith)
  drop-append (suc n) (x ∷ xs) ys h = drop-append n xs ys (omega arith)

  -- The last `n + 1` items of a list with one more item at its end.
  pub take_last-append_one :
      (n : ℕ) (xs : List A) (x : A) → take_last (suc n) (xs ++ x ∷ []) ≡ take_last n xs ++ x ∷ []
  unfolding take_last
  take_last-append_one n xs x =
      let e : length (xs ++ x ∷ []) - suc n ≡ length xs - n =
        omega (arith, length-append xs (x ∷ [])) in
      rw e (drop-append (length xs - n) xs (x ∷ []) (omega arith))

occurrences-one : (s : String) → occurrences s (s ∷ []) ≡ 1
unfolding occurrences
occurrences-one s = rw (eq_refl s)

-- An item that is entered twice at the end of a list bounded by two or more stands in it twice.
pub occurrences-take_last_twice :
    (n : ℕ) (s : String) (xs : List String)
    → 2 ≤ n
    → 2 ≤ occurrences s (take_last n (take_last n (xs ++ s ∷ []) ++ s ∷ []))
unfolding occurrences
occurrences-take_last_twice zero s xs h = absurd (omega arith)
occurrences-take_last_twice (suc zero) s xs h = absurd (omega arith)
occurrences-take_last_twice (suc (suc n)) s xs h =
    rw (take_last-append_one (suc n) (take_last (suc (suc n)) (xs ++ s ∷ [])) s) (
      rw (take_last-append_one (suc n) xs s) (
        rw (take_last-append_one n (take_last (suc n) xs) s) (
          omega (
            arith,
            occurrences-append s (take_last n (take_last (suc n) xs) ++ s ∷ []) (s ∷ []),
            occurrences-append s (take_last n (take_last (suc n) xs)) (s ∷ []),
            occurrences-one s,
          ))))

module _ {ℓ} {A : Type ℓ} where
  pub drop-nil : (n : ℕ) → drop {A = A} n [] ≡ []
  drop-nil zero = refl
  drop-nil (suc n) = refl

  nil_of_length : (xs : List A) → length xs ≤ 0 → xs ≡ []
  nil_of_length [] h = refl
  nil_of_length (x ∷ xs) h = absurd (omega arith)

  take_last-zero : (xs : List A) → take_last 0 xs ≡ []
  take_last-zero xs = nil_of_length (take_last 0 xs) (length-take_last-le 0 xs)

  pub drop-drop : (a b : ℕ) (xs : List A) → drop a (drop b xs) ≡ drop (b + a) xs
  drop-drop a zero xs = rw zero-add
  drop-drop a (suc b) [] = rw (drop-nil a, drop-nil (suc b + a))
  drop-drop a (suc b) (x ∷ xs) = rw suc-add (drop-drop a b xs)

  pub take_last-take_last :
      (n m : ℕ) (xs : List A) → n ≤ m → take_last n (take_last m xs) ≡ take_last n xs
  unfolding take_last
  take_last-take_last n m xs h =
      drop-drop (length (drop (length xs - m) xs) - n) (length xs - m) xs
      ∙ ap (λ k. drop k xs) (omega (arith, length-drop (length xs - m) xs))

  -- A bounded deque holds the last items of all that were appended to it.
  pub push_bounded-take_last :
      (n : ℕ) (xs : List A) (x : A) → push_bounded n (take_last n xs) x ≡ take_last n (xs ++ x ∷ [])
  unfolding push_bounded
  push_bounded-take_last zero xs x =
      nil_of_length (take_last zero (take_last zero xs ++ x ∷ []))
        (length-take_last-le zero (take_last zero xs ++ x ∷ []))
      ∙ sym
          (nil_of_length (take_last zero (xs ++ x ∷ [])) (length-take_last-le zero (xs ++ x ∷ [])))
  push_bounded-take_last (suc n) xs x =
      take_last-append_one n (take_last (suc n) xs) x
      ∙ ap (λ ys. ys ++ x ∷ []) (take_last-take_last n (suc n) xs (omega arith))
      ∙ sym (take_last-append_one n xs x)

  pub take_last-cons :
      (n : ℕ) (x : A) (xs : List A) → n < length (x ∷ xs) → take_last n (x ∷ xs) ≡ take_last n xs
  unfolding take_last
  take_last-cons n x xs h = let e : length (x ∷ xs) - n ≡ suc (length xs - n) = omega arith in rw e

  -- The last item that was appended to a bounded deque that holds one.
  pub take_last-push_bounded :
      (n : ℕ) (xs : List A) (x : A) → 1 ≤ n → take_last 1 (push_bounded n xs x) ≡ x ∷ []
  unfolding push_bounded
  take_last-push_bounded n xs x h =
      take_last-take_last 1 n (xs ++ x ∷ []) h
      ∙ take_last-append_one 0 xs x
      ∙ ap (λ ys. ys ++ x ∷ []) (take_last-zero xs)
