-- ===== src/Dict/Keys.antt =====
-- Dictionaries hold each key once: the invariant of the representation, kept by every operation.
use plugin_baselithbot.Common.{
  ◌+◌, String, ◌≡◌, refl, inl, inr, Bool, none, some, [], ◌∷◌, ◌++◌, arith, eq_iff, eq_refl,
  if◌then◌else◌, Option-cases, ◌≤◌, false, not, List, ◌==◌, is_some, ℕ, zero, suc, ◌-◌,
}
use plugin_baselithbot.Lists.{length, length-append, contains, drop, take_last}
use plugin_baselithbot.Dict.{
  move_to_end_of_none, move_to_end_of_some, Dict, get, put, remove, adjust, retain, move_to_end,
  get-put, get-remove, get-adjust, get-append, keys, length-remove-le, pop_first, remove_all,
}

module _ {ℓ} {V : Type ℓ} where
  abbrev pub IsDistinct : Dict V → Type ℓ
  IsDistinct [] = Unit
  IsDistinct ((k, v) ∷ d) = (get d k ≡ none) × IsDistinct d

  pub put-IsDistinct : (d : Dict V) (k : String) (v : V) → IsDistinct d → IsDistinct (put d k v)
  unfolding put get
  put-IsDistinct [] k v h = (refl, tt)
  put-IsDistinct ((i, w) ∷ d) k v h =
      ground (arith, put-IsDistinct d k v, get-put d k i v, eq_iff i k, eq_iff k i)

  pub remove-IsDistinct : (d : Dict V) (k : String) → IsDistinct d → IsDistinct (remove d k)
  unfolding remove
  remove-IsDistinct [] k h = tt
  remove-IsDistinct ((i, w) ∷ d) k h = ground (arith, remove-IsDistinct d k, get-remove d k i)

  pub adjust-IsDistinct :
      (d : Dict V) (k : String) (f : V → V) → IsDistinct d → IsDistinct (adjust d k f)
  unfolding adjust
  adjust-IsDistinct [] k f h = tt
  adjust-IsDistinct ((i, w) ∷ d) k f h = ground (arith, adjust-IsDistinct d k f, get-adjust d k i f)

  pub get-retain-none :
      (p : String → V → Bool) (d : Dict V) (k : String) → get d k ≡ none → get (retain p d) k ≡ none
  unfolding get retain
  get-retain-none p [] k h = refl
  get-retain-none p ((i, w) ∷ d) k h = ground (arith, get-retain-none p d k)

  pub retain-IsDistinct :
      (p : String → V → Bool) (d : Dict V) → IsDistinct d → IsDistinct (retain p d)
  unfolding retain
  retain-IsDistinct p [] h = tt
  retain-IsDistinct p ((i, w) ∷ d) h = ground (arith, retain-IsDistinct p d, get-retain-none p d i)

  -- A lookup in a comprehension: the entry is there if it passes the test.
  pub get-retain :
      (p : String → V → Bool) (d : Dict V) (k : String)
      → IsDistinct d
      → get (retain p d) k
        ≡ elim (get d k) [ none ↦ none | some v ↦ if p k v then some v else none ]
  unfolding get retain
  get-retain p [] k h = refl
  get-retain p ((i, w) ∷ d) k h =
      ground (arith, get-retain p d k, get-retain-none p d k, eq_iff i k)

  pub append_one-IsDistinct :
      (d : Dict V) (k : String) (v : V)
      → IsDistinct d
      → get d k ≡ none
      → IsDistinct (d ++ (k, v) ∷ [])
  unfolding get
  append_one-IsDistinct [] k v h e = (refl, tt)
  append_one-IsDistinct ((i, w) ∷ d) k v h e =
      ground
        (arith, append_one-IsDistinct d k v, get-append d ((k, v) ∷ []) i, eq_iff i k, eq_iff k i)

  pub move_to_end-IsDistinct :
      (d : Dict V) (k : String) → IsDistinct d → IsDistinct (move_to_end d k)
  move_to_end-IsDistinct d k h = elim (Option-cases (get d k)) [
    | inl e ↦ rw (move_to_end_of_none d k e) h
    | inr (v, e) ↦ rw (move_to_end_of_some d k v e) (
        append_one-IsDistinct (remove d k) k v (remove-IsDistinct d k h)
          (rw (get-remove d k k, eq_refl)))
  ]

  remove_absent : (d : Dict V) (k : String) → get d k ≡ none → remove d k ≡ d
  unfolding get remove
  remove_absent [] k h = refl
  remove_absent ((i, w) ∷ d) k h = ground (arith, remove_absent d k)

  pub length-remove :
      (d : Dict V) (k : String) (v : V)
      → IsDistinct d
      → get d k ≡ some v
      → length (remove d k) + 1 ≡ length d
  unfolding get remove
  length-remove [] k v h e = cc
  length-remove ((i, w) ∷ d) k v h e =
      ground (arith, length-remove d k v, remove_absent d k, eq_iff i k)

  pub length-put_new :
      (d : Dict V) (k : String) (v : V) → get d k ≡ none → length (put d k v) ≡ length d + 1
  unfolding get put
  length-put_new [] k v h = omega arith
  length-put_new ((i, w) ∷ d) k v h = ground (arith, length-put_new d k v)

  pub length-put_old :
      (d : Dict V) (k : String) (u v : V) → get d k ≡ some u → length (put d k v) ≡ length d
  unfolding get put
  length-put_old [] k u v h = cc
  length-put_old ((i, w) ∷ d) k u v h = ground (arith, length-put_old d k u v)

  pub length-move_to_end :
      (d : Dict V) (k : String) → IsDistinct d → length (move_to_end d k) ≡ length d
  length-move_to_end d k h = elim (Option-cases (get d k)) [
    | inl e ↦ rw (move_to_end_of_none d k e)
    | inr (v, e) ↦
        rw (move_to_end_of_some d k v e)
          (omega (arith, length-append (remove d k) ((k, v) ∷ []), length-remove d k v h e))
  ]

module _ {ℓ} {V : Type ℓ} where
  -- Popping the first entry hides its key alone.
  pub pop_first_lem :
      (d : Dict V) (k : String) (rest : Dict V)
      → IsDistinct d
      → pop_first d ≡ some (k, rest)
      → IsDistinct rest
        × (length rest + 1 ≡ length d)
        × ((j : String) → get rest j ≡ (if k == j then none else get d j))
  unfolding pop_first get
  pop_first_lem [] k rest h e = cc
  pop_first_lem ((i, v) ∷ d) k rest h e =
      (ground arith, ground arith, λ j. ground (arith, eq_iff i j))

  pub contains-keys : (d : Dict V) (j : String) → contains j (keys d) ≡ is_some (get d j)
  unfolding contains keys get
  contains-keys [] j = refl
  contains-keys ((i, v) ∷ d) j = ground (arith, contains-keys d j)

  pub get-remove_all :
      (d : Dict V) (ks : List String) (j : String)
      → get (remove_all d ks) j ≡ (if contains j ks then none else get d j)
  unfolding remove_all contains
  get-remove_all d [] j = refl
  get-remove_all d (k ∷ ks) j = ground (arith, get-remove_all (remove d k) ks j, get-remove d k j)

  pub remove_all-IsDistinct :
      (d : Dict V) (ks : List String) → IsDistinct d → IsDistinct (remove_all d ks)
  unfolding remove_all
  remove_all-IsDistinct d [] h = h
  remove_all-IsDistinct d (k ∷ ks) h =
      remove_all-IsDistinct (remove d k) ks (remove-IsDistinct d k h)

  pub length-remove_all-le : (d : Dict V) (ks : List String) → length (remove_all d ks) ≤ length d
  unfolding remove_all
  length-remove_all-le d [] = omega arith
  length-remove_all-le d (k ∷ ks) =
      omega (arith, length-remove_all-le (remove d k) ks, length-remove-le d k)

  remove_all-cons :
      (k : String) (v : V) (d : Dict V) (ks : List String)
      → contains k ks ≡ false
      → remove_all ((k, v) ∷ d) ks ≡ (k, v) ∷ remove_all d ks
  unfolding remove_all contains remove
  remove_all-cons k v d [] h = refl
  remove_all-cons k v d (j ∷ ks) h =
      ground (arith, remove_all-cons k v (remove d j) ks, eq_iff j k, eq_iff k j)

  -- Removing the keys of the entries that pass a test leaves the entries that fail it.
  pub remove_all-retain :
      (p : String → V → Bool) (d : Dict V)
      → IsDistinct d
      → remove_all d (keys (retain p d)) ≡ retain (λ k v. not (p k v)) d
  unfolding retain keys remove_all remove
  remove_all-retain p [] h = refl
  remove_all-retain p ((k, v) ∷ d) h = ground (
    arith,
    remove_all-retain p d,
    remove_absent d k h.0,
    remove_all-cons k v d (keys (retain p d)),
    contains-keys (retain p d) k,
    get-retain-none p d k h.0,
    eq_refl k,
  )

  pub length-keys : (d : Dict V) → length (keys d) ≡ length d
  unfolding keys
  length-keys [] = refl
  length-keys ((k, v) ∷ d) = omega (arith, length-keys d)

  pub length-retain-not :
      (p : String → V → Bool) (d : Dict V)
      → length (retain p d) + length (retain (λ k v. not (p k v)) d) ≡ length d
  unfolding retain
  length-retain-not p [] = refl
  length-retain-not p ((k, v) ∷ d) = ground (arith, length-retain-not p d)

  pub pop_first-none : (d : Dict V) → pop_first d ≡ none → length d ≡ 0
  unfolding pop_first
  pop_first-none [] e = refl
  pop_first-none (x ∷ d) e = cc

  pub remove-put : (d : Dict V) (k : String) (v : V) → remove (put d k v) k ≡ remove d k
  unfolding remove put
  remove-put [] k v = rw (eq_refl k)
  remove-put ((i, w) ∷ d) k v = ground (arith, remove-put d k v)

  pub remove-adjust : (d : Dict V) (k : String) (f : V → V) → remove (adjust d k f) k ≡ remove d k
  unfolding remove adjust
  remove-adjust [] k f = refl
  remove-adjust ((i, w) ∷ d) k f = ground (arith, remove-adjust d k f)

  drop-IsDistinct : (n : ℕ) (d : Dict V) → IsDistinct d → IsDistinct (drop n d)
  drop-IsDistinct zero d h = h
  drop-IsDistinct (suc n) [] h = h
  drop-IsDistinct (suc n) (e ∷ d) h = drop-IsDistinct n d h.1

  pub take_last-IsDistinct : (n : ℕ) (d : Dict V) → IsDistinct d → IsDistinct (take_last n d)
  unfolding take_last
  take_last-IsDistinct n d h = drop-IsDistinct (length d - n) d h
