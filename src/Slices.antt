-- ===== src/Slices.antt =====
-- Python's slices at a signed index.
use plugin_baselithbot.Common.{ℕ, zero, suc, ◌<◌, ◌≡◌, refl, List, arith}
use plugin_baselithbot.Lists.{drop, take_last}

-- `negsuc n` is -(n + 1).
pub data ℤ : Type 0 where
  pos : ℕ → ℤ
  negsuc : ℕ → ℤ

abbrev pub neg : ℤ → ℤ
neg (pos zero) = pos zero
neg (pos (suc n)) = negsuc n
neg (negsuc n) = pos (suc n)

-- max(0, i)
abbrev pub at_least_zero : ℤ → ℤ
at_least_zero (pos n) = pos n
at_least_zero (negsuc n) = pos zero

module _ {ℓ} {A : Type ℓ} where
  -- xs[i:]
  unfoldable pub slice_from : ℤ → List A → List A
  slice_from (pos n) xs = drop n xs
  slice_from (negsuc n) xs = take_last (suc n) xs

  -- A limit of zero is no limit: `xs[-0:]` is the whole list.
  pub slice_from-zero : (xs : List A) → slice_from (neg (pos 0)) xs ≡ xs
  unfolding slice_from
  slice_from-zero xs = refl

  pub slice_from-pos : (n : ℕ) (xs : List A) → 0 < n → slice_from (neg (pos n)) xs ≡ take_last n xs
  unfolding slice_from
  slice_from-pos zero xs h = absurd (omega arith)
  slice_from-pos (suc n) xs h = refl
